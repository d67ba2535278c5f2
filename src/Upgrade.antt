-- ===== src/Upgrade.antt =====
-- src/upgrade.c: the firmware upgrade from a file. `size_t` has 32 bits on the targets.
pub mod Resources
pub mod Image
pub mod Reboot
pub mod Truncated
pub mod Succeeds
mod Examples
use esp32s3_szpi_sta.Base.{
  ℕ, zero, suc, ◌+◌, ◌-◌, ◌*◌, ◌/◌, ◌%◌, ◌^◌, Bool, true, false, ◌||◌, List, [], ◌∷◌, ◌++◌, ℤ, pos,
  negsuc, neg, is_neg, is_zero, length, take, codes, ltb, ◌==◌, if◌then◌else◌, min, not,
}
use esp32s3_szpi_sta.Zephyr.Calls.{
  EntryType, file, dir, failed, got, read_only, stat, open_file, read, close_file, open_area, erase,
  write_area, close_area, fetch_active_slot, request_upgrade, img_confirmed, write_img_confirmed,
  reboot, malloc, free, sleep, fs, flash, boot, kernel,
}
use esp32s3_szpi_sta.Zephyr.Prog.{Prog, ret, out_of_fuel, ◌>>=◌, ◌>>◌, ask}

abbrev pub chunk_size : ℕ
chunk_size = 1024

abbrev pub size_mod : ℕ
size_mod = 2 ^ 32

abbrev einval : ℕ
einval = 22

abbrev enomem : ℕ
enomem = 12

-- PARTITION_ID(slot0_partition), of the generated device tree, is a parameter
abbrev pub slot0_part_id : ℕ → ℕ
slot0_part_id slot0_partition = slot0_partition

abbrev pub slot1_part_id : ℕ → ℕ
slot1_part_id slot0_partition = slot0_partition

unfoldable pub get_upgrade_target_partition_id : ℕ → Prog ℕ
get_upgrade_target_partition_id slot0 = do
  active_area_id ← ask (boot fetch_active_slot)
  ret (if active_area_id == slot0_part_id slot0 then slot1_part_id slot0 else slot0_part_id slot0)

-- `(size + 4095) & ~4095`
unfoldable pub erase_size : ℕ → ℕ
erase_size size = (size + 4095) % size_mod / 4096 * 4096

unfoldable pub cleanup : Bool → ℤ → Prog ℤ
cleanup read_buf rc = do
  (if read_buf then ask (kernel free) else ret tt)
  ask (fs close_file)
  ask (flash close_area)
  ret rc

unfoldable pub bytes_to_read : ℕ → ℕ → ℕ
bytes_to_read size write_offset = min chunk_size (size - write_offset)

-- The loop of step 6, with the `rc` that it leaves for `cleanup`. Each round moves the offset on,
-- so the size of the file bounds the rounds.
unfoldable pub copy : ℕ → ℕ → ℕ → Prog ℤ
copy zero size write_offset = out_of_fuel
copy (suc fuel) size write_offset =
    if ltb write_offset size
    then (do
      bytes_read ← ask (fs (read (bytes_to_read size write_offset)))
      elim bytes_read [
        | failed e ↦ ret (negsuc e)
        | got [] ↦ ret (pos 0)
        | got (b ∷ bs) ↦ do
          rc ← ask (flash (write_area write_offset (b ∷ bs)))
          if is_neg rc then ret rc else copy fuel size ((write_offset + length (b ∷ bs)) % size_mod)
      ])
    else ret (pos 0)

abbrev pub not_file : EntryType → Bool
not_file file = false
not_file dir = true

-- steps 5 and 6
unfoldable pub transfer : ℕ → Prog ℤ
transfer size = do
  read_buf ← ask (kernel (malloc chunk_size))
  if not read_buf
      then cleanup false (neg enomem)
      else do rc ← copy (suc size) size 0; cleanup true rc

-- steps 2 to 6, for a file of that size
unfoldable pub write_opened : List ℕ → ℕ → ℕ → Prog ℤ
write_opened file_path partition_id size = do
  rc ← ask (flash (open_area partition_id))
  if is_neg rc then ret rc else do
    rc ← ask (fs (open_file file_path read_only))
    if is_neg rc then (do ask (flash close_area); ret rc) else do
      rc ← ask (flash (erase 0 (erase_size size)))
      if is_neg rc then cleanup false rc else transfer size

unfoldable pub write_ota_file_to_partition : List ℕ → ℕ → Prog ℤ
write_ota_file_to_partition file_path partition_id = do
  status ← ask (fs (stat file_path))
  if is_neg status.0
      then ret status.0
      else if not_file status.1.type || status.1.size == 0
      then ret (neg einval)
      else write_opened file_path partition_id status.1.size

unfoldable pub trigger_upgrade : Prog (Unit {0})
trigger_upgrade = do
  rc ← ask (boot request_upgrade)
  if is_neg rc then ret tt else do ask (kernel (sleep 100)); ask (boot reboot)

unfoldable pub perform_ota_upgrade_from_file : ℕ → List ℕ → Prog (Unit {0})
perform_ota_upgrade_from_file slot0 bin_file_path = do
  target_partition_id ← get_upgrade_target_partition_id slot0
  rc ← write_ota_file_to_partition bin_file_path target_partition_id
  if is_zero rc then trigger_upgrade else ret tt

-- `argv[1]`, if there is one
unfoldable pub image_path : List (List ℕ) → List ℕ
image_path (cmd ∷ path ∷ args) = path
image_path _ = codes "zephyr.bin"

-- `snprintf(full_path, 128, "%s/%s", root_path, name)`
unfoldable pub full_path : List ℕ → List ℕ → List ℕ
full_path root_path name = take 127 (root_path ++ (b'/' ∷ name))

-- DISK_MOUNT_PT of src/fatfs.c
abbrev pub root_path : List ℕ
root_path = codes "/SD:"

unfoldable pub cmd_upgrade : ℕ → List (List ℕ) → Prog ℤ
cmd_upgrade slot0 argv = do
  perform_ota_upgrade_from_file slot0 (full_path root_path (image_path argv))
  ret (pos 0)

unfoldable pub upgrade_check_image : Prog ℤ
upgrade_check_image = do
  image_ok ← ask (boot img_confirmed)
  if image_ok
      then ret (pos 0)
      else do rc ← ask (boot write_img_confirmed); ret (if is_neg rc then negsuc 0 else pos 0)
