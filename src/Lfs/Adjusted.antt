-- ===== src/Lfs/Adjusted.antt =====
-- What the file of the test pattern holds behind a run.
use esp32s3_szpi_sta.Base.{
  ℕ, zero, suc, ◌≡◌, ◌⊎◌, true, List, [], ◌∷◌, ◌++◌, ℤ, pos, negsuc, is_neg, length, drop,
}
use esp32s3_szpi_sta.Lfs.{test_file_size, init_pattern, incr_pattern, close_out, write_pattern}
use esp32s3_szpi_sta.Lfs.Pattern.{boots}
use esp32s3_szpi_sta.Zephyr.Calls.{got, failed, read, fs}
use esp32s3_szpi_sta.Zephyr.Prog.{Prog, ret, ask, ◌>>=◌, Trace, Holds}
use esp32s3_szpi_sta.Lfs.Files.{rewritten}

-- and these bytes in `file_test_pattern`, in that case
abbrev pub IsAdjusted : List ℕ → ℤ × List ℕ → Trace → Type 0
IsAdjusted bytes (rc, p) u =
    (is_neg rc ≡ true) ⊎ ((rc ≡ pos 0) × (p ≡ bytes) × (rewritten u ≡ bytes))

-- the pattern in the file, after the run
abbrev pub adjusted : List ℕ → List ℕ
adjusted [] = init_pattern test_file_size
adjusted (b ∷ content) = incr_pattern (b ∷ content) 1

-- the part of `littlefs_binary_file_adj` for a file that is not empty
abbrev read_pattern : List ℕ → Prog (ℤ × List ℕ)
read_pattern p = do
  r ← ask (fs (read test_file_size))
  elim r [
    | failed e ↦ do rc ← close_out (negsuc e); ret (rc, p)
    | got bytes ↦ write_pattern (incr_pattern (bytes ++ drop (length bytes) p) 1)
  ]

-- the pattern file behind `n` runs on an empty file
abbrev pub after_runs : ℕ → List ℕ
after_runs zero = []
after_runs (suc n) = boots n (init_pattern test_file_size)
