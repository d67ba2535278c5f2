-- ===== src/Ble/Check/Takes.antt =====
-- A run of the check in src/ble_rc.c does not touch the semaphore of its thread.
use esp32s3_szpi_sta.Base.{
  ℕ, zero, suc, ◌+◌, ◌%◌, ◌==◌, ◌≡◌, refl, Bool, true, false, not, [], ◌∷◌, ℤ, is_zero, foldl, none,
  if◌then◌else◌,
}
use esp32s3_szpi_sta.Ble.State.{Ble}
use esp32s3_szpi_sta.Ble.Adv.{advertising_stop, advertising_start, try_advertising_start, bond_find}
use esp32s3_szpi_sta.Ble.Check.{
  bt_ck_k_sleep, is_security_lv_ok, wait_rc_connected, wait_rc_connected_loop, unless_stopped,
  looper_3_round, looper, bt_ck_looper_3,
}
use esp32s3_szpi_sta.HttpClient.{run_set_sk_v}
use esp32s3_szpi_sta.HttpClient.Apart.{set_sk_v-Avoids}
use esp32s3_szpi_sta.Zephyr.Calls.{Call, Answer, take_run_sem, bt, net}
use esp32s3_szpi_sta.Zephyr.Prog.{Prog, ret, ◌>>=◌, Trace}
use esp32s3_szpi_sta.Zephyr.Avoids.{Avoids, is_bt, Avoids-if, Avoids-bind, Avoids-weaken}

-- the times that the semaphore was taken
abbrev pub takes : Trace → ℕ
takes [] = 0
takes ((bt (take_run_sem b), r) ∷ t) = suc (takes t)
takes (_ ∷ t) = takes t

abbrev pub is_take : Call → Bool
is_take (bt (take_run_sem b)) = true
is_take _ = false

-- the calls that a step of the check, between its requests to the relay, does not make
abbrev pub is_outer : Call → Bool
is_outer (bt (take_run_sem b)) = true
is_outer (net c) = true
is_outer _ = false

pub sleep-Avoids : (time_s : ℕ) (b : Ble) → Avoids is_outer (bt_ck_k_sleep time_s b)
unfolding bt_ck_k_sleep
sleep-Avoids zero b = (refl, λ _. tt)
sleep-Avoids (suc n) b =
    (refl, λ later. Avoids-if is_outer later.bt_ck_running _ _ (sleep-Avoids n later) tt)

stop-Avoids : (b : Ble) → Avoids is_outer (advertising_stop b)
unfolding advertising_stop
stop-Avoids b =
    Avoids-if is_outer (not b.is_adv_running) _ _ tt
      (refl, λ err. Avoids-if is_outer (is_zero err) _ _ tt tt)

start-Avoids : (b : Ble) → Avoids is_outer (advertising_start b)
unfolding advertising_start
start-Avoids b = (
  refl,
  λ bonds.
      Avoids-if is_outer
        (foldl bond_find (record b { last_paired_addr = none }) bonds).is_adv_running _ _ tt
        (refl, λ _. tt),
)

pub try_start-Avoids :
    (w : Bool) (time : ℤ) (b : Ble) → Avoids is_outer (try_advertising_start w time b)
unfolding try_advertising_start
try_start-Avoids w time b = (
  refl,
  λ _.
      Avoids-bind is_outer (advertising_stop (record b { wakeup_adv_mode = w })) _ (stop-Avoids _)
        λ r. (
          refl,
          λ later.
              Avoids-bind is_outer (advertising_start later) _ (start-Avoids later)
                λ started. Avoids-if is_outer (is_zero time) _ _ tt (refl, λ _. tt),
        ),
)

pub wait_loop-Avoids :
    (time : ℤ) (fuel cnt : ℕ) (b : Ble) → Avoids is_outer (wait_rc_connected_loop time fuel cnt b)
unfolding wait_rc_connected_loop
wait_loop-Avoids time zero cnt b = tt
wait_loop-Avoids time (suc fuel) cnt b = Avoids-if is_outer (is_security_lv_ok b.btrc_st) _ _ tt (
    Avoids-bind is_outer (if cnt % 30 == 0 then try_advertising_start true time b else ret b) _
      (Avoids-if is_outer (cnt % 30 == 0) _ _ (try_start-Avoids true time b) tt)
      λ woken. Avoids-bind is_outer (bt_ck_k_sleep 1 woken) _ (sleep-Avoids 1 woken) λ later.
        Avoids-if is_outer later.bt_ck_running _ _ (wait_loop-Avoids time fuel (cnt + 1) later) tt)

not_outer : (c : Call) → is_outer c ≡ false → is_take c ≡ false
not_outer (bt (take_run_sem b)) e = e
not_outer _ e = refl

inner : {A : Type 0} (m : Prog A) → Avoids is_outer m → Avoids is_take m
inner m h = Avoids-weaken is_outer is_take m not_outer h

not_bt : (c : Call) → is_bt c ≡ false → is_take c ≡ false
not_bt (bt c) e = absurd cc
not_bt _ e = refl

set-Avoids : (v : ℕ) → Avoids is_take (run_set_sk_v v)
set-Avoids v = Avoids-weaken is_bt is_take (run_set_sk_v v) not_bt (set_sk_v-Avoids v)

-- a step of a round, and the rest
step-Avoids :
    (m : Prog Ble) (rest : Ble → Prog Ble)
    → Avoids is_take m
    → ((later : Ble) → Avoids is_take (rest later))
    → Avoids is_take (unless_stopped m rest)
step-Avoids m rest h k =
    Avoids-bind is_take m _ h λ later. Avoids-if is_take later.bt_ck_running _ _ (k later) tt

round-Avoids : (time : ℤ) (fuel : ℕ) (b : Ble) → Avoids is_take (looper_3_round time fuel b)
unfolding looper_3_round wait_rc_connected
round-Avoids time fuel b = Avoids-bind is_take (run_set_sk_v 0) _ (set-Avoids 0) λ _.
    step-Avoids (bt_ck_k_sleep 5 b) _ (inner _ (sleep-Avoids 5 b)) λ off.
      Avoids-bind is_take (run_set_sk_v 1) _ (set-Avoids 1) λ _.
        step-Avoids (bt_ck_k_sleep 5 off) _ (inner _ (sleep-Avoids 5 off)) λ on.
          Avoids-bind is_take (try_advertising_start true time on) _
            (inner _ (try_start-Avoids true time on))
            λ woken.
              step-Avoids (wait_rc_connected time fuel woken >>= λ r. ret r.1) _
                (Avoids-bind is_take (wait_rc_connected time fuel woken) _
                  (inner _ (wait_loop-Avoids time fuel 1 woken)) (λ r. tt))
                λ back. inner _ (sleep-Avoids 30 back)

-- the test of the flag
test-Avoids :
    (running : Bool) (more : Prog Ble) (b : Ble)
    → Avoids is_take more
    → Avoids is_take (elim running [ true ↦ more | false ↦ ret b ])
test-Avoids true more b h = h
test-Avoids false more b h = tt

looper-Avoids :
    (time : ℤ) (fuel : ℕ) (b : Ble) → Avoids is_take (looper (looper_3_round time) fuel b)
unfolding looper
looper-Avoids time zero b = tt
looper-Avoids time (suc fuel) b =
    test-Avoids b.bt_ck_running (looper_3_round time fuel b >>= looper (looper_3_round time) fuel) b
      (Avoids-bind is_take (looper_3_round time fuel b) _ (round-Avoids time fuel b)
        λ later. looper-Avoids time fuel later)

pub check-Avoids : (time : ℤ) (fuel : ℕ) (b : Ble) → Avoids is_take (bt_ck_looper_3 time fuel b)
unfolding bt_ck_looper_3
check-Avoids time fuel b = looper-Avoids time fuel (record b { bt_ck_running = true })

pub takes-call :
    (t : Trace) (c : Call) (r : Answer c) → is_take c ≡ false → takes ((c, r) ∷ t) ≡ takes t
takes-call t (bt (take_run_sem b)) r e = cc
takes-call t _ r e = refl
