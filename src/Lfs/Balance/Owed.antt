-- ===== src/Lfs/Balance/Owed.antt =====
-- The files of littlefs that are opened, and closed again.
use esp32s3_szpi_sta.Base.{
  ℕ, suc, ◌+◌, ◌≡◌, ◌&&◌, List, [], ◌∷◌, ◌++◌, ℤ, pos, negsuc, is_neg, is_zero, length, drop, ◌==◌,
  arith,
}
use esp32s3_szpi_sta.FatFs.Listing.{dir_opens, dir_closes}
use esp32s3_szpi_sta.Lfs.{
  test_file_size, is_file, init_pattern, incr_pattern, close_out, littlefs_increase_infile_value,
  write_pattern, littlefs_binary_file_adj,
}
use esp32s3_szpi_sta.Zephyr.Calls.{got, failed, mount, unmount, fs}
use esp32s3_szpi_sta.Zephyr.Prog.{ret, ◌>>=◌, Trace, Holds}
use esp32s3_szpi_sta.Zephyr.Holds.{Admits, Ends, Holds-if, Holds-then}
use esp32s3_szpi_sta.Zephyr.Usage.{success, opens, closes}

-- file systems mounted, and unmounted
abbrev pub mounts : Trace → ℕ
mounts [] = 0
mounts ((fs mount, rc) ∷ t) = success rc + mounts t
mounts (_ ∷ t) = mounts t

abbrev pub unmounts : Trace → ℕ
unmounts [] = 0
unmounts ((fs unmount, rc) ∷ t) = suc (unmounts t)
unmounts (_ ∷ t) = unmounts t

-- Files, directories and file systems are given back as often as they were taken, but for that
-- many files and file systems.
abbrev pub IsOwed : ℕ → ℕ → Trace → Trace → Type 0
IsOwed files systems t u =
    (opens u + closes t ≡ opens t + closes u + files)
    × (dir_opens u + dir_closes t ≡ dir_opens t + dir_closes u)
    × (mounts u + unmounts t ≡ mounts t + unmounts u + systems)

module _ (D : Admits) where
  pub close_out-IsOwed :
      (t0 : Trace) (rc : ℤ) (t : Trace)
      → IsOwed 1 0 t0 t
      → Holds D (close_out rc) t (Ends (λ r u. IsOwed 0 0 t0 u))
  unfolding close_out
  close_out-IsOwed t0 rc t (f, d, s) = elim [
    | pos n ↦ λ _. (omega arith, omega arith, omega arith)
    | negsuc n ↦ λ _. (omega arith, omega arith, omega arith)
  ]

  pub close_with-IsOwed :
      (t0 : Trace) (rc : ℤ) (p : List ℕ) (t : Trace)
      → IsOwed 1 0 t0 t
      → Holds {A = ℤ × List ℕ} D
          (do rc ← close_out rc; ret (rc, p))
          t
          (Ends (λ r u. IsOwed 0 0 t0 u))
  close_with-IsOwed t0 rc p t h =
      Holds-then D (λ r u. IsOwed 0 0 t0 u) (Ends (λ r u. IsOwed 0 0 t0 u)) (close_out rc) _ t
        (close_out-IsOwed t0 rc t h) (λ r u k. k)

  pub increase-IsOwed :
      (fname : List ℕ) (t : Trace)
      → Holds D (littlefs_increase_infile_value fname) t (Ends (λ r u. IsOwed 0 0 t u))
  unfolding littlefs_increase_infile_value
  increase-IsOwed fname t = elim [
    | negsuc e ↦ λ _. (omega arith, omega arith, omega arith)
    | pos n ↦ λ _. elim [
      | failed e ↦ λ _. close_out-IsOwed t (negsuc e) _ (omega arith, omega arith, omega arith)
      | got bytes ↦ λ _. elim [
        | negsuc e ↦ λ _. close_out-IsOwed t (negsuc e) _ (omega arith, omega arith, omega arith)
        | pos n ↦ λ _ rc _. close_out-IsOwed t rc _ (omega arith, omega arith, omega arith)
      ]
    ]
  ]

  pub write-IsOwed :
      (t0 : Trace) (p : List ℕ) (t : Trace)
      → IsOwed 1 0 t0 t
      → Holds D (write_pattern p) t (Ends (λ r u. IsOwed 0 0 t0 u))
  unfolding write_pattern
  write-IsOwed t0 p t h = elim [
    | negsuc e ↦ λ _. close_with-IsOwed t0 (negsuc e) p _ h
    | pos n ↦ λ _ rc _. close_with-IsOwed t0 rc p _ h
  ]

  pub adj-IsOwed :
      (fname p : List ℕ) (t : Trace)
      → Holds D (littlefs_binary_file_adj fname p) t (Ends (λ r u. IsOwed 0 0 t u))
  unfolding littlefs_binary_file_adj
  adj-IsOwed fname p t = elim [
    | negsuc e ↦ λ _. (omega arith, omega arith, omega arith)
    | pos n ↦ λ _ (rc, dirent) _.
        let Q = Ends (λ (r : ℤ × List ℕ) u. IsOwed 0 0 t u) in
        Holds-if D Q (is_neg rc) _ _ _
          (close_with-IsOwed t rc p _ (omega arith, omega arith, omega arith))
          (Holds-if D Q (is_zero rc && is_file dirent.type && (dirent.size == 0)) _ _ _
            (write-IsOwed t (init_pattern test_file_size) _ (omega arith, omega arith, omega arith))
            elim [
              | failed e ↦
                  λ _. close_with-IsOwed t (negsuc e) p _ (omega arith, omega arith, omega arith)
              | got bytes ↦ λ _.
                  write-IsOwed t (incr_pattern (bytes ++ drop (length bytes) p) 1) _
                    (omega arith, omega arith, omega arith)
            ])
  ]
