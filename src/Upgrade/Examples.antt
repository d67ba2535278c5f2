-- ===== src/Upgrade/Examples.antt =====
-- Runs of the upgrade against concrete environments.
use esp32s3_szpi_sta.Base.{ℕ, ◌≡◌, refl, true, List, [], pos, is_zero, codes, arith}
use esp32s3_szpi_sta.Zephyr.Calls.{
  got, file, fs, stat, read, flash, kernel, malloc, open_file, boot, request_upgrade,
}
use esp32s3_szpi_sta.Zephyr.Prog.{Env, run}
use esp32s3_szpi_sta.Zephyr.Holds.{Answers, Ends}
use esp32s3_szpi_sta.Zephyr.Usage.{area, written, IsLaid}
use esp32s3_szpi_sta.Zephyr.Sample.{reader, reader-ReadsFile, reader-Fits}
use esp32s3_szpi_sta.Upgrade.{
  write_opened, transfer, copy, bytes_to_read, cleanup, write_ota_file_to_partition,
  perform_ota_upgrade_from_file,
}
use esp32s3_szpi_sta.Upgrade.Resources.{IsBalanced, write_ota-IsBalanced}
use esp32s3_szpi_sta.Upgrade.Image.{write_ota-writes_file}
use esp32s3_szpi_sta.Upgrade.Reboot.{IsRestarted, perform-IsRestarted}
use esp32s3_szpi_sta.Upgrade.Succeeds.{Works, IsUpgraded, perform-IsUpgraded}
use esp32s3_szpi_sta.Upgrade.Truncated.{IsCut, write_ota-truncated}

abbrev image : List ℕ
image = codes "firmware image"

abbrev bin : List ℕ
bin = codes "/SD:/zephyr.bin"

image-written : written (run (reader image) (write_ota_file_to_partition bin 1) []).1 ≡ image
unfolding write_ota_file_to_partition write_opened transfer copy bytes_to_read cleanup reader run
image-written = refl

write_ota-IsBalanced_example :
    let (o, u) = run (reader image) (write_ota_file_to_partition bin 1) [] in
    Ends (λ rc. IsBalanced []) o u
write_ota-IsBalanced_example =
    write_ota-IsBalanced (reader image) bin 1 [] (reader-Fits image (omega arith))

write_ota-writes_file_example :
    let (o, u) = run (reader image) (write_ota_file_to_partition bin 1) [] in
    Ends (λ rc v. IsLaid v × (is_zero rc ≡ true → (area v ≡ 1) × (written v ≡ image))) o u
write_ota-writes_file_example =
    write_ota-writes_file (reader image) image bin 1 [] (omega arith) (reader-ReadsFile bin image)
      tt

perform-IsRestarted_example :
    let (o, u) = run (reader image) (perform_ota_upgrade_from_file 1 bin) [] in
    Ends (λ _. IsRestarted 1 image []) o u
perform-IsRestarted_example =
    perform-IsRestarted (reader image) image bin 1 [] (omega arith) (reader-ReadsFile bin image) tt

cut_fs : Env
cut_fs t (fs (stat p)) = (pos 0, record { type = file; size = 700; name = [] })
cut_fs t (fs (read n)) = got []
cut_fs t c = reader [] t c

cut_fs-IsCut : Answers (IsCut 700) cut_fs
unfolding cut_fs reader
cut_fs-IsCut t (fs (stat p)) = (refl, refl, refl)
cut_fs-IsCut t (fs (read n)) = refl
cut_fs-IsCut t (fs (open_file p f)) = refl
cut_fs-IsCut t (flash c) = refl
cut_fs-IsCut t (kernel (malloc n)) = refl
cut_fs-IsCut t _ = tt

write_ota-truncated_example :
    let (o, u) = run cut_fs (write_ota_file_to_partition bin 1) [] in
    Ends (λ rc v. (rc ≡ pos 0) × (written v ≡ [])) o u
write_ota-truncated_example = write_ota-truncated cut_fs bin 1 700 [] (omega arith) cut_fs-IsCut

reader-Works : Answers (Works bin image) (reader image)
unfolding reader
reader-Works t (fs (stat p)) = (refl, refl, λ _. refl)
reader-Works t (fs (read n)) = reader-ReadsFile bin image t (fs (read n))
reader-Works t (fs (open_file p f)) = refl
reader-Works t (flash c) = refl
reader-Works t (kernel (malloc n)) = refl
reader-Works t (boot request_upgrade) = refl
reader-Works t _ = tt

perform-IsUpgraded_example :
    let (o, u) = run (reader image) (perform_ota_upgrade_from_file 1 bin) [] in
    Ends (λ _. IsUpgraded 1 image []) o u
perform-IsUpgraded_example =
    perform-IsUpgraded (reader image) image bin 1 [] (omega arith) (omega arith) reader-Works tt
