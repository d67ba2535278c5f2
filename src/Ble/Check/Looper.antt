-- ===== src/Ble/Check/Looper.antt =====
-- The whole check thread of src/ble_rc.c ends when it is told to.
use esp32s3_szpi_sta.Base.{
  ℕ, zero, suc, ◌+◌, ◌-◌, ◌≤◌, ◌<◌, ◌≡◌, ◌⊎◌, inl, inr, refl, Bool, true, false, ℤ, pos, ltb,
  ltb→lt, ltb→ge, Bool-cases, arith,
}
use esp32s3_szpi_sta.Ble.State.{Ble}
use esp32s3_szpi_sta.Ble.Adv.{try_advertising_start}
use esp32s3_szpi_sta.Ble.Check.{
  bt_ck_k_sleep, wait_rc_connected, unless_stopped, looper_3_round, looper, bt_ck_looper_3,
}
use esp32s3_szpi_sta.Ble.Check.Stop.{
  StopsBy, IsLater, IsNotEarlier, IsAnswered, sleep-IsLater, try_start-IsNotEarlier,
  loop-IsAnswered,
}
use esp32s3_szpi_sta.Ble.Check.Timing.{slept, slept-Holds}
use esp32s3_szpi_sta.HttpClient.{run_set_sk_v}
use esp32s3_szpi_sta.HttpClient.Sockets.{ShortResponses, IsClosed, set-IsClosed}
use esp32s3_szpi_sta.Zephyr.Calls.{Call, Answer}
use esp32s3_szpi_sta.Zephyr.Prog.{Prog, ret, ◌>>=◌, Outcome, Trace, Env, run, Holds}
use esp32s3_szpi_sta.Zephyr.Holds.{
  Admits, Answers, Ends, Ends-and, run-Holds, Holds-then, Holds-both, Holds-mono, Holds-weaken,
  Holds-narrow,
}

-- `auto_reboot_stop` has been given by the deadline, and no response fills its buffer
abbrev pub StopsAndFits : ℕ → Admits
StopsAndFits deadline t c r = StopsBy deadline t c r × ShortResponses t c r

-- a program that is known to end, and how long it takes
Holds-later :
    {A : Type 0} (D E : Admits) (R : A → Trace → Type 0) (m : Prog A) (t : Trace)
    → ((u : Trace) (c : Call) (r : Answer c) → E u c r → D u c r)
    → Holds D m t (Ends R)
    → Holds E m t (Ends (λ a u. R a u × (slept t ≤ slept u)))
Holds-later D E R m t w h = Holds-mono E m t (Ends-and R (λ u. slept t ≤ slept u)) (
    Holds-both E (Ends R) (λ o u. slept t ≤ slept u) m t (Holds-narrow D E (Ends R) m t w h)
      (slept-Holds E m t t (omega arith)))

-- the thread told to stop, or later than `t` and before the deadline
abbrev IsMoved : ℕ → Trace → Ble → Trace → Type 0
IsMoved deadline t b u = (b.bt_ck_running ≡ false) ⊎ ((slept t < slept u) × (slept u < deadline))

-- the flag by which the thread is told to stop
abbrev pub IsStopped : Ble → Trace → Type 0
IsStopped b u = b.bt_ck_running ≡ false

module _ (deadline : ℕ) where
  -- a sleep, and what follows it where the thread is still to run
  sleep-then :
      (time_s : ℕ) (b : Ble) (rest : Ble → Prog Ble) (t0 t : Trace)
      → slept t0 ≤ slept t
      → ((later : Ble) (u : Trace)
          → slept t0 < slept u
          → slept u < deadline
          → Holds (StopsAndFits deadline) (rest later) u (Ends (IsMoved deadline t0)))
      → Holds
          (StopsAndFits deadline)
          (unless_stopped (bt_ck_k_sleep time_s b) rest)
          t
          (Ends (IsMoved deadline t0))
  sleep-then time_s b rest t0 t le next =
      let E = StopsAndFits deadline in
      Holds-then E (IsLater deadline 1000 t) (Ends (IsMoved deadline t0)) (bt_ck_k_sleep time_s b) _
        t
        (Holds-narrow (StopsBy deadline) E (Ends (IsLater deadline 1000 t)) (bt_ck_k_sleep time_s b)
          t (λ u c r e. e.0) (sleep-IsLater deadline time_s b t))
        (λ later u (le', stopped). elim (Bool-cases later.bt_ck_running) [
          | inl on ↦ elim (Bool-cases (ltb (slept u) deadline)) [
            | inl early ↦ simp (on) (next later u (omega arith) (ltb→lt _ _ early))
            | inr late ↦ absurd (let off = stopped (ltb→ge _ _ late) in cc)
          ]
          | inr off ↦ simp (off) (inl refl)
        ])

  -- the last sleep of a round
  sleep-IsMoved :
      (time_s : ℕ) (b : Ble) (t0 t : Trace)
      → slept t0 ≤ slept t
      → Holds (StopsAndFits deadline) (bt_ck_k_sleep time_s b) t (Ends (IsMoved deadline t0))
  sleep-IsMoved time_s b t0 t le =
      Holds-weaken (StopsAndFits deadline) (IsLater deadline 1000 t) (IsMoved deadline t0)
        (bt_ck_k_sleep time_s b) t
        (λ later u (le', stopped). elim (Bool-cases (ltb (slept u) deadline)) [
          | inl early ↦ inr (omega arith, ltb→lt _ _ early)
          | inr late ↦ inl (stopped (ltb→ge _ _ late))
        ])
        (Holds-narrow (StopsBy deadline) (StopsAndFits deadline) (Ends (IsLater deadline 1000 t))
          (bt_ck_k_sleep time_s b) t (λ u c r e. e.0) (sleep-IsLater deadline time_s b t))

  -- a switch of the relay, and what follows it
  set-then :
      {B : Type 0} (v : ℕ) (rest : Prog B) (Q : Outcome B → Trace → Type 0) (t : Trace)
      → ((u : Trace) → slept t ≤ slept u → Holds (StopsAndFits deadline) rest u Q)
      → Holds (StopsAndFits deadline) (run_set_sk_v v >>= λ _. rest) t Q
  set-then v rest Q t next =
      let E = StopsAndFits deadline in
      let R : ℤ → Trace → Type 0 = λ rc u. (rc ≡ pos 0) × IsClosed t u in
      Holds-then E (λ rc u. R rc u × (slept t ≤ slept u)) Q (run_set_sk_v v) (λ _. rest) t
        (Holds-later ShortResponses E R (run_set_sk_v v) t (λ u c r e. e.1) (set-IsClosed v t))
        (λ rc u (_, le). next u le)

  wait-then :
      (time : ℤ) (fuel : ℕ) (b : Ble) (rest : Ble → Prog Ble) (Q : Outcome Ble → Trace → Type 0)
      (t : Trace)
      → deadline - slept t < fuel
      → ((later : Ble) (u : Trace)
          → slept t ≤ slept u
          → Holds (StopsAndFits deadline) (rest later) u Q)
      → Holds
          (StopsAndFits deadline)
          ((wait_rc_connected time fuel b >>= λ r. ret r.1) >>= rest)
          t
          Q
  unfolding wait_rc_connected
  wait-then time fuel b rest Q t f next =
      let E = StopsAndFits deadline in
      Holds-then E (λ later u. slept t ≤ slept u) Q (wait_rc_connected time fuel b >>= λ r. ret r.1)
        rest t
        (Holds-then E (λ r u. IsAnswered r u × (slept t ≤ slept u))
          (Ends (λ later u. slept t ≤ slept u)) (wait_rc_connected time fuel b) (λ r. ret r.1) t
          (Holds-later (StopsBy deadline) E IsAnswered (wait_rc_connected time fuel b) t
            (λ u c r e. e.0) (loop-IsAnswered deadline time fuel 1 b t f))
          (λ r u (_, le). le))
        next

  round-IsMoved :
      (time : ℤ) (fuel : ℕ) (b : Ble) (t : Trace)
      → deadline - slept t ≤ fuel
      → Holds (StopsAndFits deadline) (looper_3_round time fuel b) t (Ends (IsMoved deadline t))
  unfolding looper_3_round
  round-IsMoved time fuel b t f =
      let E = StopsAndFits deadline in
      set-then 0 _ _ t λ u le. sleep-then 5 b _ t u le λ off v lt early. set-then 1 _ _ v λ w le'.
        sleep-then 5 off _ t w (omega arith) λ on x lt' early'.
          Holds-then E (IsNotEarlier x) (Ends (IsMoved deadline t))
            (try_advertising_start true time on) _ x
            (Holds-narrow (StopsBy deadline) E (Ends (IsNotEarlier x))
              (try_advertising_start true time on) x (λ u c r e. e.0)
              (try_start-IsNotEarlier deadline true time on x))
            λ woken y le''.
              wait-then time fuel woken _ (Ends (IsMoved deadline t)) y (omega arith) λ back z le3.
                elim (Bool-cases back.bt_ck_running) [
                  | inl running ↦ simp (running) (sleep-IsMoved 30 back t z (omega arith))
                  | inr off' ↦ simp (off') (inl refl)
                ]

  -- the test of the flag
  looper-if :
      (round : ℕ → Ble → Prog Ble) (fuel : ℕ) (b : Ble) (running : Bool) (t : Trace)
      → b.bt_ck_running ≡ running
      → (running ≡ true
          → Holds (StopsAndFits deadline) (round fuel b >>= looper round fuel) t (Ends IsStopped))
      → Holds
          (StopsAndFits deadline)
          (elim running [ true ↦ round fuel b >>= looper round fuel | false ↦ ret b ])
          t
          (Ends IsStopped)
  looper-if round fuel b true t e more = more refl
  looper-if round fuel b false t e more = e

  looper-Stops :
      (time : ℤ) (fuel : ℕ) (b : Ble) (t : Trace)
      → 0 < fuel
      → (b.bt_ck_running ≡ false) ⊎ (deadline - slept t + 1 < fuel)
      → Holds (StopsAndFits deadline) (looper (looper_3_round time) fuel b) t (Ends IsStopped)
  unfolding looper
  looper-Stops time zero b t z f = absurd (omega arith)
  looper-Stops time (suc fuel) b t z (inl off) =
      looper-if (looper_3_round time) fuel b b.bt_ck_running t refl (λ on. absurd cc)
  looper-Stops time (suc fuel) b t z (inr f) =
      looper-if (looper_3_round time) fuel b b.bt_ck_running t refl λ on.
        Holds-then (StopsAndFits deadline) (IsMoved deadline t) (Ends IsStopped)
          (looper_3_round time fuel b) (looper (looper_3_round time) fuel) t
          (round-IsMoved time fuel b t (omega arith))
          λ later u moved.
            looper-Stops time fuel later u (omega arith)
              (elim moved [ inl off ↦ inl off | inr (lt, early) ↦ inr (omega arith) ])

  -- one run of the check, from any time on
  pub check-Stops :
      (time : ℤ) (fuel : ℕ) (b : Ble) (t : Trace)
      → deadline + 1 < fuel
      → Holds (StopsAndFits deadline) (bt_ck_looper_3 time fuel b) t (Ends IsStopped)
  unfolding bt_ck_looper_3
  check-Stops time fuel b t f =
      looper-Stops time fuel (record b { bt_ck_running = true }) t (omega arith) (inr (omega arith))

-- The check thread ends, told to stop, where the command to stop is given by the time that it has
-- slept `deadline` milliseconds and stays given, no response fragment of the relay fills the receive
-- buffer, and the fuel is more than the deadline and one.
pub bt_ck_looper_3-IsStopped :
    (env : Env) (deadline fuel : ℕ) (wakeup_time_s : ℤ) (b : Ble) (t : Trace)
    → deadline + 1 < fuel
    → Answers (StopsAndFits deadline) env
    → let (o, u) = run env (bt_ck_looper_3 wakeup_time_s fuel b) t in Ends IsStopped o u
bt_ck_looper_3-IsStopped env deadline fuel time b t f d =
    run-Holds (StopsAndFits deadline) (Ends IsStopped) env d (bt_ck_looper_3 time fuel b) t
      (check-Stops deadline time fuel b t f)
