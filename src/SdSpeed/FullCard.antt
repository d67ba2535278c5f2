-- ===== src/SdSpeed/FullCard.antt =====
-- The speed test on a card that is full.
use esp32s3_szpi_sta.Base.{
  ℕ, zero, suc, ◌<◌, ◌≡◌, refl, true, false, List, ℤ, pos, negsuc, is_neg, ltb, arith, Bool-cases,
  inl, inr, ltb→ge,
}
use esp32s3_szpi_sta.Zephyr.Calls.{write, open_file, fs, malloc, kernel}
use esp32s3_szpi_sta.Zephyr.Prog.{Outcome, unfinished, Trace, Env, run, Holds}
use esp32s3_szpi_sta.Zephyr.Holds.{Admits, Answers, run-Holds, Holds-bind}
use esp32s3_szpi_sta.SdSpeed.{write_loop, speed_test}

-- there is memory, files can be opened, and a write writes nothing
abbrev pub IsFull : Admits
IsFull t (kernel (malloc n)) b = b ≡ true
IsFull t (fs (open_file p f)) rc = is_neg rc ≡ false
IsFull t (fs (write bs)) rc = rc ≡ pos 0
IsFull _ _ _ = Unit

write_loop-unfinished :
    (Q : Outcome ℤ → Trace → Type 0) (fuel size total : ℕ) (t : Trace)
    → 0 < total
    → ((u : Trace) → Q unfinished u)
    → Holds IsFull (write_loop fuel size total 0) t Q
unfolding write_loop
write_loop-unfinished Q zero size total t p q = q t
write_loop-unfinished Q (suc fuel) size total t p q = elim (Bool-cases (ltb 0 total)) [
  | inl e ↦ rw e (elim [
    | negsuc n ↦ λ d. absurd cc
    | pos zero ↦ λ _. write_loop-unfinished Q fuel size total _ p q
    | pos (suc n) ↦ λ d. absurd cc
  ])
  | inr e ↦ absurd (ground (arith, ltb→ge 0 total e))
]

speed_test-unfinished :
    (fuel size total : ℕ) (path : List ℕ) (t : Trace)
    → 0 < total
    → Holds IsFull (speed_test fuel size total path) t (λ o u. o ≡ unfinished)
unfolding speed_test
speed_test-unfinished fuel size total path t p = elim [
  | false ↦ λ d. absurd cc
  | true ↦ λ _ _ _. elim [
    | negsuc e ↦ λ d. absurd cc
    | pos n ↦ λ _ _ _.
        Holds-bind IsFull (λ o u. o ≡ unfinished) (write_loop fuel size total 0) _ _
          (write_loop-unfinished _ fuel size total _ p (λ u. refl))
  ]
]

-- Where there is memory and the file can be opened, but a write writes nothing and does not fail,
-- the test of a size above 0 does not end, whatever the fuel.
pub speed_test-never_ends :
    (env : Env) (fuel size total : ℕ) (path : List ℕ) (t : Trace)
    → 0 < total
    → Answers IsFull env
    → (run env (speed_test fuel size total path) t).0 ≡ unfinished
speed_test-never_ends env fuel size total path t p d =
    run-Holds IsFull (λ o u. o ≡ unfinished) env d _ t
      (speed_test-unfinished fuel size total path t p)
