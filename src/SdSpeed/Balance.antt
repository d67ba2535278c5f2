-- ===== src/SdSpeed/Balance.antt =====
-- The speed test ends, and gives back what it took.
use esp32s3_szpi_sta.Base.{
  ℕ, zero, suc, ◌+◌, ◌%◌, ◌^◌, ◌-◌, ◌≤◌, ◌<◌, ◌≡◌, refl, inl, inr, true, false, List, [], ◌∷◌, ℤ,
  pos, negsuc, is_neg, length, min, ltb, ltb→lt, ltb→ge, Bool-cases, arith,
}
use esp32s3_szpi_sta.Zephyr.Calls.{
  failed, got, read, write, open_file, create_write, read_only, close_file, sync, unlink, malloc,
  uptime, kernel, fs,
}
use esp32s3_szpi_sta.Zephyr.Prog.{Trace, Env, run, Holds}
use esp32s3_szpi_sta.Zephyr.Holds.{Admits, Answers, Ends, run-Holds, Holds-weaken, Holds-then}
use esp32s3_szpi_sta.Zephyr.Usage.{opens, closes, mallocs, frees}
use esp32s3_szpi_sta.SdSpeed.{
  fill_from, chunk, write_loop, read_loop, give_up_test, read_test, speed_test,
}

-- a write that does not fail writes some of its bytes, and a read gives at most what it is asked for
abbrev pub Progresses : Admits
Progresses t (fs (write bs)) (pos n) = (n ≤ length bs) × (0 < length bs → 0 < n)
Progresses t (fs (read n)) (got bs) = length bs ≤ n
Progresses _ _ _ = Unit

-- as many files and blocks given back as taken, behind `t`
abbrev pub IsEven : Trace → Trace → Type 0
IsEven t u = (opens u + closes t ≡ opens t + closes u) × (mallocs u + frees t ≡ mallocs t + frees u)

-- a loop takes nothing and gives nothing back, and a result that is not negative is the whole size,
-- or at most that where `part`
abbrev pub IsIdle : Trace → Trace → Type 0
IsIdle t u =
    (opens u ≡ opens t) × (closes u ≡ closes t) × (mallocs u ≡ mallocs t) × (frees u ≡ frees t)

length-fill_from : (n i : ℕ) → length (fill_from n i) ≡ n
length-fill_from zero i = refl
length-fill_from (suc n) i = omega (arith, length-fill_from n (i + 1))

abbrev pub IsWhole : ℕ → Trace → ℤ → Trace → Type 0
IsWhole total t rc u = IsIdle t u × (is_neg rc ≡ false → rc ≡ pos total)

write_loop-IsWhole :
    (fuel size total bytes : ℕ) (t : Trace)
    → 0 < size
    → bytes ≤ total
    → total < 2 ^ 32
    → total - bytes < fuel
    → Holds Progresses (write_loop fuel size total bytes) t (Ends (IsWhole total t))
unfolding write_loop chunk
write_loop-IsWhole zero size total bytes t p l w f = absurd (omega arith)
write_loop-IsWhole (suc fuel) size total bytes t p l w f = elim (Bool-cases (ltb bytes total)) [
  | inl e ↦ rw e (elim [
    | negsuc n ↦ λ _. ((refl, refl, refl, refl), λ k. absurd (cc))
    | pos n ↦ λ (le, some).
        let lt = ltb→lt bytes total e in
        let len = length-fill_from (min size (total - bytes)) 0 in
        write_loop-IsWhole fuel size total ((bytes + n) % 2 ^ 32) _ p (omega arith) w (omega arith)
  ])
  | inr e ↦ rw e (
      let ge = ltb→ge bytes total e in
      let same : bytes ≡ total = omega arith in ((refl, refl, refl, refl), λ _. rw same refl))
]

read_loop-IsIdle :
    (fuel size total bytes : ℕ) (t : Trace)
    → bytes ≤ total
    → total < 2 ^ 32
    → total - bytes < fuel
    → Holds Progresses (read_loop fuel size total bytes) t (Ends (λ rc. IsIdle t))
unfolding read_loop chunk
read_loop-IsIdle zero size total bytes t l w f = absurd (omega arith)
read_loop-IsIdle (suc fuel) size total bytes t l w f = elim (Bool-cases (ltb bytes total)) [
  | inl e ↦ rw e (elim [
    | failed n ↦ λ _. (refl, refl, refl, refl)
    | got [] ↦ λ _. (refl, refl, refl, refl)
    | got (b ∷ bs) ↦ λ le.
        let lt = ltb→lt bytes total e in
        let n = length (b ∷ bs) in
        read_loop-IsIdle fuel size total ((bytes + length (b ∷ bs)) % 2 ^ 32) _ (omega arith) w
          (omega arith)
  ])
  | inr e ↦ rw e (refl, refl, refl, refl)
]

-- the file is closed; the block is given back
abbrev pub IsFreed : Trace → Trace → Type 0
IsFreed t u =
    (opens u + closes t ≡ opens t + closes u) × (mallocs u + 1 + frees t ≡ mallocs t + frees u)

read_test-IsFreed :
    (fuel size total : ℕ) (path : List ℕ) (t : Trace)
    → total < 2 ^ 32
    → total < fuel
    → Holds Progresses (read_test fuel size total path) t (Ends (λ rc. IsFreed t))
unfolding read_test give_up_test
read_test-IsFreed fuel size total path t w f = elim [
  | negsuc e ↦ λ _ _ _. (omega arith, omega arith)
  | pos n ↦ λ _ now _.
      let start : Trace = (kernel uptime, now) ∷ (fs (open_file path read_only), pos n) ∷ t in
      Holds-then Progresses (λ rc. IsIdle start) (Ends (λ rc. IsFreed t))
        (read_loop fuel size total 0) _ start
        (read_loop-IsIdle fuel size total 0 start (omega arith) w (omega arith))
        (λ bytes u (o, c, m, r). elim (Bool-cases (is_neg bytes)) [
          | inl e ↦ rw e (λ _ _ _ _. (omega (arith, o, c), omega (arith, m, r)))
          | inr e ↦ rw e (λ _ _ _ _ _ _ _ _. (omega (arith, o, c), omega (arith, m, r)))
        ])
]

speed_test-IsEven :
    (fuel size total : ℕ) (path : List ℕ) (t : Trace)
    → 0 < size
    → total < 2 ^ 32
    → total < fuel
    → Holds Progresses (speed_test fuel size total path) t (Ends (λ rc. IsEven t))
unfolding speed_test give_up_test
speed_test-IsEven fuel size total path t p w f = elim [
  | false ↦ λ _. (refl, refl)
  | true ↦ λ _ gone _. elim [
    | negsuc e ↦ λ _ _ _. (omega arith, omega arith)
    | pos n ↦ λ _ now _.
        let start : Trace =
          (kernel uptime, now)
          ∷ (fs (open_file path create_write), pos n)
          ∷ (fs (unlink path), gone)
          ∷ (kernel (malloc size), true)
          ∷ t in
        Holds-then Progresses (IsWhole total start) (Ends (λ rc. IsEven t))
          (write_loop fuel size total 0) _ start
          (write_loop-IsWhole fuel size total 0 start p (omega arith) w (omega arith))
          (λ bytes u ((o, c, m, r), whole). elim (Bool-cases (is_neg bytes)) [
            | inl e ↦ rw e (λ _ _ _ _. (omega (arith, o, c), omega (arith, m, r)))
            | inr e ↦ rw e (λ rs _ now' _ rc _.
                let closed : Trace =
                  (fs close_file, rc) ∷ (kernel uptime, now') ∷ (fs sync, rs) ∷ u in
                Holds-weaken Progresses (λ rc'. IsFreed closed) (λ rc'. IsEven t)
                  (read_test fuel size total path) closed
                  (λ rc' v (g, h). (omega (arith, o, c, g), omega (arith, m, r, h)))
                  (read_test-IsFreed fuel size total path closed w f))
          ])
  ]
]

-- A test of a buffer that is not empty and a size of 32 bits ends, if a write that does not fail
-- makes progress, reads give no more than they are asked for, and the fuel is more than the size; it
-- closes as many files as it opens, and gives back the memory that it takes, on every path.
pub speed_test-Ends :
    (env : Env) (fuel size total : ℕ) (path : List ℕ) (t : Trace)
    → 0 < size
    → total < 2 ^ 32
    → total < fuel
    → Answers Progresses env
    → let (o, u) = run env (speed_test fuel size total path) t in Ends (λ rc. IsEven t) o u
speed_test-Ends env fuel size total path t p w f d =
    run-Holds Progresses (Ends (λ rc. IsEven t)) env d _ t
      (speed_test-IsEven fuel size total path t p w f)
