-- ===== src/Ble/Check/Rounds.antt =====
-- The loop of the check thread in src/ble_rc.c around its semaphore.
use esp32s3_szpi_sta.Base.{
  refl, ap, sym, ◌∙◌, List, [], ◌∷◌, ◌++◌, length, append-nil, append_assoc, ℕ, zero, suc, ◌+◌, ◌<◌,
  ◌≡◌, ◌⊎◌, inl, inr, false, ℤ, arith,
}
use esp32s3_szpi_sta.Ble.State.{Ble}
use esp32s3_szpi_sta.Ble.Check.{bt_ck_looper_3, bt_ck_looper_thrd}
use esp32s3_szpi_sta.Ble.Check.Looper.{IsStopped}
use esp32s3_szpi_sta.Ble.Check.Relay.{switches, alternate}
use esp32s3_szpi_sta.Ble.Check.Switches.{ReachesAndStops, AlternatesOnce, check-StopsAndAlternates}
use esp32s3_szpi_sta.Ble.Check.Takes.{takes, is_take, takes-call, check-Avoids}
use esp32s3_szpi_sta.Zephyr.Calls.{bt, take_run_sem}
use esp32s3_szpi_sta.Zephyr.Prog.{Trace, Env, run, Holds}
use esp32s3_szpi_sta.Zephyr.Holds.{
  Answers, Ends, Ends-and, run-Holds, Holds-then, Holds-mono, Holds-weaken,
}
use esp32s3_szpi_sta.Zephyr.Avoids.{Holds-avoids}

-- what runs of the check ask of the relay, each of them at least once, and so many times more
abbrev pub asked : List ℕ → List (List ℕ)
asked [] = []
asked (n ∷ ns) = alternate false (suc n) ++ asked ns

-- The semaphore was taken in each of `rounds` rounds, and each has a run of the check behind it.
abbrev pub IsRun : ℕ → Trace → Ble → Trace → Type 0
IsRun rounds t later u =
    IsStopped later u
    × (takes u ≡ takes t + rounds)
    × (ns : List ℕ) × (length ns ≡ rounds)
    × (switches u ≡ switches t ++ asked ns)

-- a run of the check, which leaves the semaphore alone
check-takes :
    (deadline fuel : ℕ) (time : ℤ) (b : Ble) (t : Trace)
    → deadline + 1 < fuel
    → Holds
        (ReachesAndStops deadline)
        (bt_ck_looper_3 time fuel b)
        t
        (Ends (λ later u. (IsStopped later u × AlternatesOnce t later u) × (takes u ≡ takes t)))
check-takes deadline fuel time b t f =
    let E = ReachesAndStops deadline in
    let m = bt_ck_looper_3 time fuel b in
    let R : Ble → Trace → Type 0 = λ later u. IsStopped later u × AlternatesOnce t later u in
    let J : Trace → Type 0 = λ u. takes u ≡ takes t in
    Holds-mono E m t (Ends-and R J) (
      Holds-avoids is_take E E J (Ends R) m t (λ u c r e j. takes-call u c r e ∙ j) (λ u c r j e. e)
        refl (check-Avoids time fuel b) (check-StopsAndAlternates deadline fuel time b t f))

rounds-IsRun :
    (deadline fuel : ℕ) (time : ℤ) (rounds : ℕ) (b : Ble) (t : Trace)
    → deadline + 1 < fuel
    → IsStopped b t ⊎ (0 < rounds)
    → Holds
        (ReachesAndStops deadline)
        (bt_ck_looper_thrd time fuel rounds b)
        t
        (Ends (IsRun rounds t))
unfolding bt_ck_looper_thrd
rounds-IsRun deadline fuel time zero b t f (inl off) =
    (off, omega arith, [], refl, sym (append-nil (switches t)))
rounds-IsRun deadline fuel time zero b t f (inr r) = absurd (omega arith)
rounds-IsRun deadline fuel time (suc rounds) b t f h = λ later d.
    let E = ReachesAndStops deadline in
    let t' : Trace = (bt (take_run_sem b), later) ∷ t in
    Holds-then E
      (λ checked u. (IsStopped checked u × AlternatesOnce t' checked u) × (takes u ≡ takes t'))
      (Ends (IsRun (suc rounds) t)) (bt_ck_looper_3 time fuel later)
      (bt_ck_looper_thrd time fuel rounds) t' (check-takes deadline fuel time later t' f)
      λ checked u ((off, (n, e)), same).
        Holds-weaken E (IsRun rounds u) (IsRun (suc rounds) t)
          (bt_ck_looper_thrd time fuel rounds checked) u
          (λ later' v (off', k, ns, l, e'). (
            off',
            omega arith,
            n ∷ ns,
            ap suc l,
            e'
                ∙ ap (λ xs. xs ++ asked ns) e
                ∙ append_assoc (switches t) (alternate false (suc n)) (asked ns),
          ))
          (rounds-IsRun deadline fuel time rounds checked u f (inl off))

-- Each time that the check thread takes the semaphore it runs its check to the end, told to stop, and
-- comes back to the semaphore: any number of rounds, at least one, ends, has taken it that often, and
-- has asked the relay, in each of them, for /set?Relay=0 and /set?Relay=1 in turn, the first of it
-- /set?Relay=0, at least once. The relay can be reached, no response fragment of it fills the receive
-- buffer, the command to stop is given by the time that the thread has slept `deadline` milliseconds
-- and stays given, and the fuel is more than the deadline and one.
pub bt_ck_looper_thrd-IsRun :
    (env : Env) (deadline fuel rounds : ℕ) (wakeup_time_s : ℤ) (b : Ble) (t : Trace)
    → deadline + 1 < fuel
    → 0 < rounds
    → Answers (ReachesAndStops deadline) env
    → let (o, u) = run env (bt_ck_looper_thrd wakeup_time_s fuel rounds b) t in
      Ends (IsRun rounds t) o u
bt_ck_looper_thrd-IsRun env deadline fuel rounds time b t f r d =
    run-Holds (ReachesAndStops deadline) (Ends (IsRun rounds t)) env d
      (bt_ck_looper_thrd time fuel rounds b) t
      (rounds-IsRun deadline fuel time rounds b t f (inr r))
