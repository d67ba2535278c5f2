-- ===== src/Ble/Check/Timing.antt =====
-- How long the check thread sleeps, and the random times that it draws.
use esp32s3_szpi_sta.Base.{
  ℕ, zero, suc, ◌+◌, ◌*◌, ◌≤◌, ◌<◌, ◌≡◌, inl, inr, true, [], ◌∷◌, Bool-cases, arith,
}
use esp32s3_szpi_sta.Ble.State.{Ble}
use esp32s3_szpi_sta.Zephyr.Calls.{Call, Answer, bt, wait}
use esp32s3_szpi_sta.Zephyr.Prog.{Prog, ret, fault, out_of_fuel, call, Trace, Env, run, Holds}
use esp32s3_szpi_sta.Zephyr.Holds.{Admits, Any, any, Ends, run-Holds, Holds-weaken}
use esp32s3_szpi_sta.Ble.Check.{bt_ck_k_sleep, get_rand_range}

-- the milliseconds slept
abbrev pub slept : Trace → ℕ
slept [] = 0
slept ((bt (wait ms b), r) ∷ t) = slept t + ms
slept (_ ∷ t) = slept t

-- a call takes no time back
slept-call : (t : Trace) (c : Call) (r : Answer c) → slept t ≤ slept ((c, r) ∷ t)
slept-call t (bt (wait ms b)) r = omega arith
slept-call t _ r = omega arith

-- nor does a program
pub slept-Holds :
    {A : Type 0} (D : Admits) (m : Prog A) (t0 t : Trace)
    → slept t0 ≤ slept t
    → Holds D m t (λ o u. slept t0 ≤ slept u)
slept-Holds D (ret a) t0 t h = h
slept-Holds D fault t0 t h = h
slept-Holds D out_of_fuel t0 t h = h
slept-Holds D (call c k) t0 t h =
    λ r d. slept-Holds D (k r) t0 ((c, r) ∷ t) (let s = slept-call t c r in omega arith)

abbrev pub IsSlept : ℕ → Trace → Ble → Trace → Type 0
IsSlept time_s t b u =
    (slept t + 1000 ≤ slept u)
    × (slept u ≤ slept t + 1000 * (time_s + 1))
    × (b.bt_ck_running ≡ true → slept u ≡ slept t + 1000 * (time_s + 1))

sleep-IsSlept :
    (time_s : ℕ) (b : Ble) (t : Trace)
    → Holds Any (bt_ck_k_sleep time_s b) t (Ends (IsSlept time_s t))
unfolding bt_ck_k_sleep
sleep-IsSlept zero b t = λ r _. (omega arith, omega arith, λ _. omega arith)
sleep-IsSlept (suc n) b t = λ r _. elim (Bool-cases r.bt_ck_running) [
  | inl on ↦ simp (on) (
      Holds-weaken Any (IsSlept n ((bt (wait 1000 b), r) ∷ t)) (IsSlept (suc n) t)
        (bt_ck_k_sleep n r) _
        (λ a u h. (omega (arith, h.0), omega (arith, h.1), λ e. omega (arith, h.2 e)))
        (sleep-IsSlept n r _))
  | inr off ↦ simp (off) (omega arith, omega arith, λ on. absurd (cc))
]

-- A sleep of `time_s` seconds ends. If the thread is still to run afterwards, it has lasted one
-- second more than asked; otherwise it has lasted at least a second, and no more than that.
pub bt_ck_k_sleep_time :
    (env : Env) (time_s : ℕ) (b : Ble) (t : Trace)
    → let (o, u) = run env (bt_ck_k_sleep time_s b) t in Ends (IsSlept time_s t) o u
bt_ck_k_sleep_time env time_s b t =
    run-Holds Any (Ends (IsSlept time_s t)) env (any env) _ t (sleep-IsSlept time_s b t)

-- A time drawn from the bytes a to b, with a at most b, lies between them, both included.
pub get_rand_range_bounds :
    (env : Env) (a b : ℕ) (t : Trace)
    → a ≤ b
    → b < 256
    → let (o, u) = run env (get_rand_range a b) t in Ends (λ v _. (a ≤ v) × (v ≤ b)) o u
unfolding get_rand_range run
get_rand_range_bounds env a b t h w = ground arith
