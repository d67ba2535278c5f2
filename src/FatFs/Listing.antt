-- ===== src/FatFs/Listing.antt =====
-- What `lsdir` counts.
use mathlib.Core.Path.{subst}
use esp32s3_szpi_sta.Base.{
  ℕ, zero, suc, ◌+◌, ◌-◌, ◌≤◌, ◌<◌, ◌≡◌, refl, ap, ◌⊎◌, inl, inr, true, not, ◌||◌, Option, none,
  some, List, [], ◌∷◌, ℤ, pos, negsuc, is_neg, is_zero, length, get_elem?, if◌then◌else◌,
  Bool-cases, arith,
}
use esp32s3_szpi_sta.Zephyr.Calls.{Dirent, opendir, readdir, closedir, fs}
use esp32s3_szpi_sta.Zephyr.Prog.{ret, Trace, Env, run, Holds}
use esp32s3_szpi_sta.Zephyr.Holds.{Admits, Answers, Ends, run-Holds, Holds-then}
use esp32s3_szpi_sta.FatFs.{is_end, lsdir_loop, lsdir}

-- directories opened, and closed; `fs_opendir` gives 0 for a success
abbrev pub dir_opens : Trace → ℕ
dir_opens [] = 0
dir_opens ((fs (opendir p), pos zero) ∷ t) = suc (dir_opens t)
dir_opens (_ ∷ t) = dir_opens t

abbrev pub dir_closes : Trace → ℕ
dir_closes [] = 0
dir_closes ((fs closedir, rc) ∷ t) = suc (dir_closes t)
dir_closes (_ ∷ t) = dir_closes t

-- the entries read since a directory was opened
abbrev pub entries_read : Trace → ℕ
entries_read [] = 0
entries_read ((fs (opendir p), rc) ∷ t) = 0
entries_read ((fs readdir, r) ∷ t) = suc (entries_read t)
entries_read (_ ∷ t) = entries_read t

-- `fs_opendir` and `fs_readdir` give 0 or an error, and the reads that succeed give the entries of
-- a directory in their order, and behind them an entry without a name.
abbrev pub ReadsDir : List Dirent → Admits
ReadsDir entries t (fs (opendir p)) (pos n) = n ≡ 0
ReadsDir entries t (fs readdir) (pos n, entry) =
    (n ≡ 0)
    × ((get_elem? entries (entries_read t) ≡ some entry)
        ⊎ ((length entries ≤ entries_read t) × (length entry.name ≡ 0)))
ReadsDir _ _ _ _ = Unit

abbrev IsNamed : Option Dirent → Type 0
IsNamed none = Unit
IsNamed (some entry) = 0 < length entry.name

-- each entry of the directory has a name
abbrev pub AreNamed : List Dirent → Type 0
AreNamed [] = Unit
AreNamed (entry ∷ entries) = (0 < length entry.name) × AreNamed entries

named_at :
    (entries : List Dirent) (i : ℕ) (entry : Dirent)
    → AreNamed entries
    → get_elem? entries i ≡ some entry
    → 0 < length entry.name
named_at [] i entry n h = absurd cc
named_at (x ∷ xs) zero entry (n, ns) h = subst IsNamed h n
named_at (x ∷ xs) (suc i) entry (n, ns) h = named_at xs i entry ns h

get_elem?-lt :
    (entries : List Dirent) (i : ℕ) (entry : Dirent)
    → get_elem? entries i ≡ some entry
    → i < length entries
get_elem?-lt [] i entry h = absurd cc
get_elem?-lt (x ∷ xs) zero entry h = omega arith
get_elem?-lt (x ∷ xs) (suc i) entry h = omega (arith, get_elem?-lt xs i entry h)

-- how the loop ends: an error, or all entries counted
abbrev pub IsCounted : List Dirent → Trace → ℤ × ℕ → Trace → Type 0
IsCounted entries t (res, count) u =
    ((is_neg res ≡ true) ⊎ ((res ≡ pos 0) × (count ≡ length entries)))
    × (dir_opens u ≡ dir_opens t)
    × (dir_closes u ≡ dir_closes t)

-- how `lsdir` ends: an error, or the number of entries, and the directory closed
abbrev pub IsListed : List Dirent → Trace → ℤ → Trace → Type 0
IsListed entries t rc u =
    ((is_neg rc ≡ true) ⊎ (rc ≡ pos (length entries)))
    × (dir_opens u + dir_closes t ≡ dir_opens t + dir_closes u)

-- one entry read, and the loop behind it
entry-IsCounted :
    (entries : List Dirent) (fuel count : ℕ) (t : Trace) (res : ℤ) (entry : Dirent)
    → AreNamed entries
    → count ≡ entries_read t
    → count ≤ length entries
    → (count < length entries
        → Holds
            (ReadsDir entries)
            (lsdir_loop fuel (count + 1))
            ((fs readdir, (res, entry)) ∷ t)
            (Ends (IsCounted entries t)))
    → ReadsDir entries t (fs readdir) (res, entry)
    → Holds
        (ReadsDir entries)
        (if not (is_zero res) || is_end entry
          then ret (res, count)
          else lsdir_loop fuel (count + 1))
        ((fs readdir, (res, entry)) ∷ t)
        (Ends (IsCounted entries t))
entry-IsCounted entries fuel count t (negsuc e) entry named c l rest d = (inl refl, refl, refl)
entry-IsCounted entries fuel count t (pos (suc n)) entry named c l rest d =
    absurd (omega (arith, d.0))
entry-IsCounted entries fuel count t (pos zero) entry named c l rest (_, d) =
    elim (Bool-cases (is_end entry)) [
      | inl last ↦ rw last (
        inr (
          refl,
          elim d [
            | inl found ↦
                absurd (let n = named_at entries (entries_read t) entry named found in ground arith)
            | inr (past, _) ↦ omega arith
          ],
        ),
        refl,
        refl,
      )
      | inr more ↦ rw more (elim d [
        | inl found ↦
            let i = get_elem?-lt entries (entries_read t) entry found in rest (omega arith)
        | inr (past, empty) ↦ absurd (ground arith)
      ])
    ]

pub loop-IsCounted :
    (entries : List Dirent) (fuel count : ℕ) (t : Trace)
    → AreNamed entries
    → count ≡ entries_read t
    → count ≤ length entries
    → length entries - count < fuel
    → Holds (ReadsDir entries) (lsdir_loop fuel count) t (Ends (IsCounted entries t))
unfolding lsdir_loop
loop-IsCounted entries zero count t named c l f = absurd (omega arith)
loop-IsCounted entries (suc fuel) count t named c l f = λ (res, entry) d.
    entry-IsCounted entries fuel count t res entry named c l
      (λ more.
        loop-IsCounted entries fuel (count + 1) ((fs readdir, (res, entry)) ∷ t) named (omega arith)
          (omega arith) (omega arith))
      d

listed_result :
    (res : ℤ) (count n : ℕ)
    → (is_neg res ≡ true) ⊎ ((res ≡ pos 0) × (count ≡ n))
    → (is_neg (if is_zero res then pos count else res) ≡ true)
      ⊎ ((if is_zero res then pos count else res) ≡ pos n)
listed_result (negsuc e) count n h = inl refl
listed_result (pos zero) count n (inl h) = absurd cc
listed_result (pos zero) count n (inr (_, h)) = inr (ap pos h)
listed_result (pos (suc k)) count n (inl h) = absurd cc
listed_result (pos (suc k)) count n (inr (h, _)) = absurd cc

lsdir-Holds :
    (entries : List Dirent) (fuel : ℕ) (path : List ℕ) (t : Trace)
    → AreNamed entries
    → length entries < fuel
    → Holds (ReadsDir entries) (lsdir fuel path) t (Ends (IsListed entries t))
unfolding lsdir
lsdir-Holds entries fuel path t named f = elim [
  | negsuc e ↦ λ _. (inl refl, refl)
  | pos (suc n) ↦ λ d. absurd (omega (arith, d))
  | pos zero ↦ λ _.
      let opened : Trace = (fs (opendir path), pos 0) ∷ t in
      Holds-then (ReadsDir entries) (IsCounted entries opened) (Ends (IsListed entries t))
        (lsdir_loop fuel 0) _ opened
        (loop-IsCounted entries fuel 0 opened named refl (omega arith) (omega arith))
        (λ (res, count) u (r, o, c) _ _.
          (listed_result res count (length entries) r, omega (arith, o, c)))
]

-- Where the directory has `entries`, each with a name, and the fuel is more than their number,
-- `lsdir` ends: it gives their number, or an error of the calls, and has closed the directory if
-- it opened it.
pub lsdir-IsListed :
    (env : Env) (entries : List Dirent) (fuel : ℕ) (path : List ℕ) (t : Trace)
    → AreNamed entries
    → length entries < fuel
    → Answers (ReadsDir entries) env
    → let (o, u) = run env (lsdir fuel path) t in Ends (IsListed entries t) o u
lsdir-IsListed env entries fuel path t named f d =
    run-Holds (ReadsDir entries) (Ends (IsListed entries t)) env d _ t
      (lsdir-Holds entries fuel path t named f)
