-- ===== src/Ble/Check/Stop.antt =====
-- The check thread waits for the remote control, and stops when it is told to.
use esp32s3_szpi_sta.Base.{
  ℕ, zero, suc, ◌+◌, ◌%◌, ◌-◌, ◌≤◌, ◌<◌, ◌≡◌, inl, inr, refl, Bool, true, false, ◌∷◌, ℤ, foldl,
  none, is_zero, ltb, ltb→lt, ltb→ge, ◌==◌, if◌then◌else◌, Bool-cases, arith,
}
use esp32s3_szpi_sta.Ble.State.{Ble}
use esp32s3_szpi_sta.Ble.Adv.{try_advertising_start, advertising_stop, advertising_start, bond_find}
use esp32s3_szpi_sta.Zephyr.Calls.{bt, wait, cancel_delayable}
use esp32s3_szpi_sta.Zephyr.Prog.{ret, Trace, Env, run, Holds}
use esp32s3_szpi_sta.Zephyr.Holds.{Admits, Answers, Ends, run-Holds, Holds-then, Holds-weaken}
use esp32s3_szpi_sta.Ble.Check.{
  bt_ck_k_sleep, is_security_lv_ok, wait_rc_connected_loop, wait_rc_connected,
}
use esp32s3_szpi_sta.Ble.Check.Timing.{slept}

-- from `deadline` milliseconds of sleep on, `auto_reboot_stop` has been given
abbrev pub StopsBy : ℕ → Admits
StopsBy deadline t (bt (wait ms b)) r = deadline ≤ slept t + ms → r.bt_ck_running ≡ false
StopsBy deadline _ _ _ = Unit

-- later than `t` by at least `ms`, and stopped from the deadline on
abbrev pub IsLater : ℕ → ℕ → Trace → Ble → Trace → Type 0
IsLater deadline ms t b u =
    (slept t + ms ≤ slept u) × (deadline ≤ slept u → b.bt_ck_running ≡ false)

pub sleep-IsLater :
    (deadline time_s : ℕ) (b : Ble) (t : Trace)
    → Holds (StopsBy deadline) (bt_ck_k_sleep time_s b) t (Ends (IsLater deadline 1000 t))
unfolding bt_ck_k_sleep
sleep-IsLater deadline zero b t = λ r d. (omega arith, d)
sleep-IsLater deadline (suc n) b t = λ r d. elim (Bool-cases r.bt_ck_running) [
  | inl on ↦ simp (on) (
      Holds-weaken (StopsBy deadline) (IsLater deadline 1000 ((bt (wait 1000 b), r) ∷ t))
        (IsLater deadline 1000 t) (bt_ck_k_sleep n r) _ (λ a u h. (omega (arith, h.0), h.1))
        (sleep-IsLater deadline n r _))
  | inr off ↦ simp (off) (omega arith, λ _. refl)
]

-- no earlier than `t`
abbrev pub IsNotEarlier : {A : Type 0} → Trace → A → Trace → Type 0
IsNotEarlier t b u = slept t ≤ slept u

stop-IsNotEarlier :
    (deadline : ℕ) (b : Ble) (t : Trace)
    → Holds (StopsBy deadline) (advertising_stop b) t (Ends (IsNotEarlier t))
unfolding advertising_stop
stop-IsNotEarlier deadline b t = elim (Bool-cases b.is_adv_running) [
  | inl on ↦ rw on (λ err _. elim (Bool-cases (is_zero err)) [
    | inl e ↦ rw e (omega arith)
    | inr e ↦ rw e (omega arith)
  ])
  | inr off ↦ rw off (omega arith)
]

start-IsNotEarlier :
    (deadline : ℕ) (b : Ble) (t : Trace)
    → Holds (StopsBy deadline) (advertising_start b) t (Ends (IsNotEarlier t))
unfolding advertising_start
start-IsNotEarlier deadline b t = λ bonds _.
    elim (Bool-cases
      (foldl bond_find (record b { last_paired_addr = none }) bonds).is_adv_running) [
        | inl on ↦ rw on (omega arith)
        | inr off ↦ rw off (λ _ _. omega arith)
      ]

pub try_start-IsNotEarlier :
    (deadline : ℕ) (w : Bool) (time : ℤ) (b : Ble) (t : Trace)
    → Holds (StopsBy deadline) (try_advertising_start w time b) t (Ends (IsNotEarlier t))
unfolding try_advertising_start
try_start-IsNotEarlier deadline w time b t = λ gone _.
    let D = StopsBy deadline in
    Holds-then D (IsNotEarlier ((bt cancel_delayable, gone) ∷ t)) (Ends (IsNotEarlier t))
      (advertising_stop (record b { wakeup_adv_mode = w })) _ _
      (stop-IsNotEarlier deadline (record b { wakeup_adv_mode = w }) _)
      (λ r u le later _.
        Holds-then D (IsNotEarlier ((bt (wait 100 r.1), later) ∷ u)) (Ends (IsNotEarlier t))
          (advertising_start later) _ _ (start-IsNotEarlier deadline later _)
          (λ started v le'. elim (Bool-cases (is_zero time)) [
            | inl e ↦ rw e (omega (arith, le, le'))
            | inr e ↦ rw e (λ _ _. omega (arith, le, le'))
          ]))

-- what a wait comes to: the remote control has the security asked for, or the thread is to stop
abbrev pub IsAnswered : Bool × Ble → Trace → Type 0
IsAnswered (true, b) u = is_security_lv_ok b.btrc_st ≡ true
IsAnswered (false, b) u = b.bt_ck_running ≡ false

wake-IsNotEarlier :
    (deadline cnt : ℕ) (time : ℤ) (b : Ble) (t : Trace)
    → Holds
        (StopsBy deadline)
        (if cnt % 30 == 0 then try_advertising_start true time b else ret b)
        t
        (Ends (IsNotEarlier t))
wake-IsNotEarlier deadline cnt time b t = elim (Bool-cases (cnt % 30 == 0)) [
  | inl e ↦ rw e (try_start-IsNotEarlier deadline true time b t)
  | inr e ↦ rw e (omega arith)
]

pub loop-IsAnswered :
    (deadline : ℕ) (time : ℤ) (fuel cnt : ℕ) (b : Ble) (t : Trace)
    → deadline - slept t < fuel
    → Holds (StopsBy deadline) (wait_rc_connected_loop time fuel cnt b) t (Ends IsAnswered)
unfolding wait_rc_connected_loop
loop-IsAnswered deadline time zero cnt b t f = absurd (omega arith)
loop-IsAnswered deadline time (suc fuel) cnt b t f =
    elim (Bool-cases (is_security_lv_ok b.btrc_st)) [
      | inl ok ↦ rw ok ok
      | inr away ↦ rw away (
          Holds-then (StopsBy deadline) (IsNotEarlier t) (Ends IsAnswered) _ _ t
            (wake-IsNotEarlier deadline cnt time b t)
            (λ woken u le.
              Holds-then (StopsBy deadline) (IsLater deadline 1000 u) (Ends IsAnswered)
                (bt_ck_k_sleep 1 woken) _ u (sleep-IsLater deadline 1 woken u)
                (λ later v (le', stopped). elim (Bool-cases later.bt_ck_running) [
                  | inl on ↦ elim (Bool-cases (ltb (slept v) deadline)) [
                    | inl early ↦ simp (on) (
                        loop-IsAnswered deadline time fuel (cnt + 1) later v
                          (let lt = ltb→lt _ _ early in omega arith))
                    | inr late ↦ absurd (let off = stopped (ltb→ge _ _ late) in cc)
                  ]
                  | inr off ↦ simp (off) refl
                ])))
    ]

-- The wait for the remote control ends, if the command to stop is given by the time that the thread
-- has slept `deadline` milliseconds and stays given, and the fuel is more than these: it answers true
-- with the security reached, or false with the thread told to stop.
pub wait_rc_connected-IsAnswered :
    (env : Env) (deadline fuel : ℕ) (wakeup_time_s : ℤ) (b : Ble) (t : Trace)
    → deadline < fuel
    → Answers (StopsBy deadline) env
    → let (o, u) = run env (wait_rc_connected wakeup_time_s fuel b) t in Ends IsAnswered o u
unfolding wait_rc_connected
wait_rc_connected-IsAnswered env deadline fuel time b t f d =
    run-Holds (StopsBy deadline) (Ends IsAnswered) env d _ t
      (loop-IsAnswered deadline time fuel 1 b t (omega arith))
