-- ===== src/Lfs/Examples.antt =====
-- Runs on littlefs.
use esp32s3_szpi_sta.Base.{
  ℕ, ◌≡◌, refl, inr, List, [], ◌∷◌, ◌++◌, pos, length, take, replicate, codes, arith,
}
use esp32s3_szpi_sta.FatFs.Listing.{ReadsDir}
use esp32s3_szpi_sta.Lfs.{test_file_size, byte_at, init_pattern, lfs_run}
use esp32s3_szpi_sta.Lfs.Balance.{IsRun, lfs_run-IsRun}
use esp32s3_szpi_sta.Lfs.Pattern.{boots, expected, boots-expected}
use esp32s3_szpi_sta.Lfs.Printed.{print_pattern, lines, spaced, two_digits}
use esp32s3_szpi_sta.Sha256.{hex_digit}
use esp32s3_szpi_sta.Zephyr.Calls.{file, got, stat, read, write, readdir, opendir, fs}
use esp32s3_szpi_sta.Zephyr.Prog.{Env, run}
use esp32s3_szpi_sta.Zephyr.Holds.{Answers, Ends}
use esp32s3_szpi_sta.Zephyr.Sample.{reader}

boots-expected_example :
    (length (boots 3 (init_pattern 12)) ≡ 12)
    × (byte_at (boots 3 (init_pattern 12)) 8 ≡ expected 12 3 8)
boots-expected_example = boots-expected 12 3 8 (omega arith) (omega arith)

-- a file with these bytes, from its start
unfoldable holder : List ℕ → Env
holder content t (fs (stat p)) = (pos 0, record { type = file; size = length content; name = [] })
holder content t (fs (read n)) = got (take n content)
holder content t (fs (write bs)) = pos (length bs)
holder content t c = reader content t c

-- an empty directory
reader-ReadsDir : Answers (ReadsDir []) (reader [])
unfolding reader
reader-ReadsDir t (fs (opendir p)) = refl
reader-ReadsDir t (fs readdir) = (refl, inr (omega arith, refl))
reader-ReadsDir t _ = tt

lfs_run-IsRun_example :
    let (o, u) = run (reader []) (lfs_run 1 (replicate test_file_size 0)) [] in Ends (IsRun []) o u
lfs_run-IsRun_example =
    lfs_run-IsRun (reader []) [] 1 (replicate test_file_size 0) [] tt (omega arith) reader-ReadsDir

-- 18 bytes: a line, and two bytes
abbrev eighteen : List ℕ
eighteen = replicate 17 0xaa ++ (1 ∷ [])

print_run : print_pattern (0xaa ∷ 0x01 ∷ []) ≡ codes "aa 01 " ++ (10 ∷ [])
unfolding print_pattern lines spaced two_digits hex_digit
print_run = refl
