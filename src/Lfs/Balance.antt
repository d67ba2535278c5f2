-- ===== src/Lfs/Balance.antt =====
-- What `lfs_run` opens and mounts.
mod Owed
use mathlib.Core.Path.{subst, fun_ext}
use esp32s3_szpi_sta.Base.{
  ℕ, zero, suc, ◌+◌, ◌<◌, ◌≡◌, refl, sym, ap, Bool, true, false, not, ◌&&◌, ◌||◌, List, [], ◌∷◌,
  ◌++◌, ℤ, pos, negsuc, is_neg, is_zero, length, drop, codes, ◌==◌, if◌then◌else◌, arith,
}
use esp32s3_szpi_sta.FatFs.{is_end, lsdir_loop}
use esp32s3_szpi_sta.FatFs.Listing.{
  dir_opens, dir_closes, entries_read, ReadsDir, AreNamed, IsCounted, loop-IsCounted,
}
use esp32s3_szpi_sta.Lfs.{
  test_file_size, is_file, init_pattern, incr_pattern, lfs_lsdir_loop, lfs_lsdir, close_out,
  littlefs_increase_infile_value, write_pattern, littlefs_binary_file_adj, disk_mount_pt,
  with_mounted, lfs_run,
}
use esp32s3_szpi_sta.Zephyr.Calls.{Dirent, got, failed, mount, unmount, opendir, readdir, fs}
use esp32s3_szpi_sta.Zephyr.Prog.{
  Prog, ret, call, Outcome, done, faulted, unfinished, ◌>>=◌, Trace, Env, run, Holds,
}
use esp32s3_szpi_sta.Zephyr.Holds.{
  Admits, Answers, Ends, run-Holds, Holds-if, Holds-both, Holds-mono, Holds-bind, Rest, Holds-then,
}
use esp32s3_szpi_sta.Zephyr.Usage.{success, opens, closes}
use esp32s3_szpi_sta.Lfs.Balance.Owed.{
  mounts, unmounts, IsOwed, close_out-IsOwed, close_with-IsOwed, increase-IsOwed, write-IsOwed,
  adj-IsOwed,
}

-- the result of `lfs_run`, and all given back
abbrev pub IsRun : Trace → ℤ × List ℕ → Trace → Type 0
IsRun t (rc, p) u =
    (rc ≡ pos 0)
    × (opens u + closes t ≡ opens t + closes u)
    × (dir_opens u + dir_closes t ≡ dir_opens t + dir_closes u)
    × (mounts u + unmounts t ≡ mounts t + unmounts u)

if-result :
    (b : Bool) (res : ℤ) (count : ℕ) (m : Prog (ℤ × ℕ)) (n : Prog ℤ)
    → (m >>= λ (res, n). ret res) ≡ n
    → ((if b then ret (res, count) else m) >>= λ (res, n). ret res) ≡ (if b then ret res else n)
if-result true res count m n e = refl
if-result false res count m n e = e

-- the loop is that of src/fatfs.c, but for the number of entries
loop-lsdir_loop :
    (fuel count : ℕ) → (lsdir_loop fuel count >>= λ (res, n). ret res) ≡ lfs_lsdir_loop fuel
unfolding lsdir_loop lfs_lsdir_loop
loop-lsdir_loop zero count = refl
loop-lsdir_loop (suc fuel) count = ap (call (fs readdir)) (
    fun_ext λ (res, entry).
      if-result (not (is_zero res) || is_end entry) res count (lsdir_loop fuel (count + 1))
        (lfs_lsdir_loop fuel) (loop-lsdir_loop fuel (count + 1)))

-- The loop opens, closes and mounts nothing.
abbrev IsStill : Trace → Trace → Type 0
IsStill t u =
    (opens u ≡ opens t) × (closes u ≡ closes t) × (mounts u ≡ mounts t) × (unmounts u ≡ unmounts t)

lsdir_loop-IsStill :
    (D : Admits) (fuel count : ℕ) (t0 t : Trace)
    → IsStill t0 t
    → Holds D (lsdir_loop fuel count) t (λ o u. IsStill t0 u)
unfolding lsdir_loop
lsdir_loop-IsStill D zero count t0 t s = s
lsdir_loop-IsStill D (suc fuel) count t0 t s = λ (res, entry) _.
    Holds-if D (λ o u. IsStill t0 u) (not (is_zero res) || is_end entry) _ _ _ s
      (lsdir_loop-IsStill D fuel (count + 1) t0 _ s)

-- the loop behind an opened directory
abbrev IsLeft : Trace → Trace → Type 0
IsLeft t u = IsStill t u × (dir_opens u ≡ dir_opens t) × (dir_closes u ≡ dir_closes t)

module _ (entries : List Dirent) (fuel : ℕ) (named : AreNamed entries)
    (enough : length entries < fuel) where
  counted-IsLeft :
      (t : Trace) (o : Outcome (ℤ × ℕ)) (u : Trace)
      → Ends (IsCounted entries t) o u × IsStill t u
      → Rest (ReadsDir entries) (λ (res, n). ret res) (Ends (λ res u. IsLeft t u)) o u
  counted-IsLeft t (done a) u ((r, d, e), s) = (s, d, e)
  counted-IsLeft t faulted u (h, s) = h
  counted-IsLeft t unfinished u (h, s) = h

  loop-IsLeft :
      (t : Trace)
      → entries_read t ≡ 0
      → Holds
          (ReadsDir entries)
          (lsdir_loop fuel 0 >>= λ (res, n). ret res)
          t
          (Ends (λ res u. IsLeft t u))
  loop-IsLeft t z =
      let D = ReadsDir entries in
      Holds-bind D (Ends (λ res u. IsLeft t u)) (lsdir_loop fuel 0) (λ (res, n). ret res) t
        (Holds-mono D (lsdir_loop fuel 0) t (counted-IsLeft t) (
          Holds-both D (Ends (IsCounted entries t)) (λ o u. IsStill t u) (lsdir_loop fuel 0) t
            (loop-IsCounted entries fuel 0 t named (sym z) (omega arith) (omega arith))
            (lsdir_loop-IsStill D fuel 0 t t (refl, refl, refl, refl))))

  lsdir-IsOwed :
      (path : List ℕ) (t : Trace)
      → Holds (ReadsDir entries) (lfs_lsdir fuel path) t (Ends (λ r u. IsOwed 0 0 t u))
  unfolding lfs_lsdir
  lsdir-IsOwed path t = elim [
    | negsuc e ↦ λ _. (omega arith, omega arith, omega arith)
    | pos (suc n) ↦ λ d. absurd (omega (arith, d))
    | pos zero ↦ λ _.
        let opened : Trace = (fs (opendir path), pos 0) ∷ t in
        Holds-then (ReadsDir entries) (λ res u. IsLeft opened u) (Ends (λ r u. IsOwed 0 0 t u))
          (lfs_lsdir_loop fuel) _ opened
          (subst (λ m. Holds (ReadsDir entries) m opened (Ends (λ res u. IsLeft opened u)))
            (loop-lsdir_loop fuel 0) (loop-IsLeft opened refl))
          (λ r u ((o, c, m, n), d, e) _ _. (omega arith, omega arith, omega arith))
  ]

  -- a program behind one that has given back what it took
  then-IsOwed :
      {A B : Type 0} (t0 t : Trace) (m : Prog A) (f : A → Prog B)
      → IsOwed 0 0 t0 t
      → Holds (ReadsDir entries) m t (Ends (λ r u. IsOwed 0 0 t u))
      → ((a : A) (u : Trace)
          → IsOwed 0 0 t0 u
          → Holds (ReadsDir entries) (f a) u (Ends (λ r v. IsOwed 0 0 t0 v)))
      → Holds (ReadsDir entries) (m >>= f) t (Ends (λ r v. IsOwed 0 0 t0 v))
  then-IsOwed t0 t m f (o, d, s) h next =
      Holds-then (ReadsDir entries) (λ r u. IsOwed 0 0 t u) (Ends (λ r v. IsOwed 0 0 t0 v)) m f t h
        λ a u (o', d', s'). next a u (omega arith, omega arith, omega arith)

  mounted-IsOwed :
      (p : List ℕ) (t : Trace)
      → Holds (ReadsDir entries) (with_mounted fuel p) t (Ends (λ r u. IsOwed 0 0 t u))
  unfolding with_mounted
  mounted-IsOwed p t = λ rc _.
      let D = ReadsDir entries in
      let Q = Ends (λ (r : List ℕ) u. IsOwed 0 0 t u) in
      let none_owed : IsOwed 0 0 t t = (omega arith, omega arith, omega arith) in
      Holds-if D Q (is_neg rc) _ _ _ none_owed (
        then-IsOwed t _ (lfs_lsdir fuel disk_mount_pt) _ none_owed (lsdir-IsOwed disk_mount_pt _)
          λ rc u k. Holds-if D Q (is_neg rc) _ _ _ k (
            then-IsOwed t u (littlefs_increase_infile_value (disk_mount_pt ++ codes "/boot_count"))
              _ k (increase-IsOwed D (disk_mount_pt ++ codes "/boot_count") u)
              λ rc v k. Holds-if D Q (not (is_zero rc)) _ _ _ k (
                then-IsOwed t v (littlefs_binary_file_adj (disk_mount_pt ++ codes "/pattern.bin") p)
                  _ k (adj-IsOwed D (disk_mount_pt ++ codes "/pattern.bin") p v)
                  λ (rc, p') w k. k)))

  lfs_run-Holds :
      (p : List ℕ) (t : Trace) → Holds (ReadsDir entries) (lfs_run fuel p) t (Ends (IsRun t))
  unfolding lfs_run
  lfs_run-Holds p t = elim [
    | negsuc e ↦ λ _. (refl, omega arith, omega arith, omega arith)
    | pos n ↦ λ _.
        Holds-then (ReadsDir entries) (λ r u. IsOwed 0 0 ((fs mount, pos n) ∷ t) u) (Ends (IsRun t))
          (with_mounted fuel p) _ ((fs mount, pos n) ∷ t) (mounted-IsOwed p ((fs mount, pos n) ∷ t))
          λ p' u (o, d, s) _ _. (refl, omega arith, omega arith, omega arith)
  ]

-- Where the directory has `entries`, each with a name, and the fuel is more than their number,
-- `lfs_run` returns 0 whatever the other calls answer, and has then closed each file and directory
-- that it opened, and unmounted the file system if it mounted it.
pub lfs_run-IsRun :
    (env : Env) (entries : List Dirent) (fuel : ℕ) (p : List ℕ) (t : Trace)
    → AreNamed entries
    → length entries < fuel
    → Answers (ReadsDir entries) env
    → let (o, u) = run env (lfs_run fuel p) t in Ends (IsRun t) o u
lfs_run-IsRun env entries fuel p t named enough d =
    run-Holds (ReadsDir entries) (Ends (IsRun t)) env d _ t
      (lfs_run-Holds entries fuel named enough p t)
