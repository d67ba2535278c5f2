-- ===== src/Ble/Check.antt =====
-- The thread of src/ble_rc.c that switches a television off and on again and wakes it by the remote
-- control, until it is told to stop.
pub mod Timing
pub mod Stop
pub mod Looper
pub mod Takes
pub mod Relay
pub mod Switches
pub mod Rounds
use esp32s3_szpi_sta.Base.{
  ℕ, zero, suc, ◌+◌, ◌-◌, ◌%◌, Bool, true, false, not, List, [], ◌∷◌, ℤ, pos, ltb, ◌==◌,
  if◌then◌else◌,
}
use esp32s3_szpi_sta.Ble.State.{Link, disconnecte, connected, security_lv_ok, Ble}
use esp32s3_szpi_sta.Ble.Adv.{try_advertising_start}
use esp32s3_szpi_sta.Ble.Keys.{do_send_key}
use esp32s3_szpi_sta.HttpClient.{run_set_sk_v}
use esp32s3_szpi_sta.Zephyr.Calls.{rand8, wait, take_run_sem, give_run_sem, kernel, bt}
use esp32s3_szpi_sta.Zephyr.Prog.{Prog, ret, fault, out_of_fuel, ◌>>=◌, ◌>>◌, ask}

-- `do { … } while (time_s-- && g_bt_ck_running)`, for a time that is not negative
unfoldable pub bt_ck_k_sleep : ℕ → Ble → Prog Ble
bt_ck_k_sleep zero b = ask (bt (wait 1000 b))
bt_ck_k_sleep (suc time_s) b = do
  later ← ask (bt (wait 1000 b))
  if later.bt_ck_running then bt_ck_k_sleep time_s later else ret later

-- `b - a + 1` is an `int`; a remainder by 0 is undefined, and one by -d is that by d
abbrev pub span : ℕ → ℕ → ℕ
span a b = if ltb (b + 1) a then a - (b + 1) else b + 1 - a

unfoldable pub get_rand_range : ℕ → ℕ → Prog ℕ
get_rand_range a b = do
  r ← ask (kernel rand8)
  if span a b == 0 then fault else ret ((r % span a b + a) % 256)

abbrev pub is_security_lv_ok : Link → Bool
is_security_lv_ok disconnecte = false
is_security_lv_ok connected = false
is_security_lv_ok security_lv_ok = true

-- The loop of `__wait_rc_connected`, which ends when another thread lets it; `wakeup_time_s` is
-- BLERC_WAKEUP_TIME_S.
unfoldable pub wait_rc_connected_loop : ℤ → ℕ → ℕ → Ble → Prog (Bool × Ble)
wait_rc_connected_loop wakeup_time_s zero cnt b = out_of_fuel
wait_rc_connected_loop wakeup_time_s (suc fuel) cnt b =
    let round : Prog (Bool × Ble) =
      (if cnt % 30 == 0 then try_advertising_start true wakeup_time_s b else ret b) >>= λ woken.
      bt_ck_k_sleep 1 woken >>= λ later.
      if later.bt_ck_running
      then wait_rc_connected_loop wakeup_time_s fuel (cnt + 1) later
      else ret (false, later) in
    if is_security_lv_ok b.btrc_st then ret (true, b) else round

unfoldable pub wait_rc_connected : ℤ → ℕ → Ble → Prog (Bool × Ble)
wait_rc_connected wakeup_time_s fuel b = wait_rc_connected_loop wakeup_time_s fuel 1 b

-- A step of the loop, and the rest of the round if the thread is still to run.
abbrev pub unless_stopped : Prog Ble → (Ble → Prog Ble) → Prog Ble
unless_stopped m rest = m >>= λ later. if later.bt_ck_running then rest later else ret later

-- one round of `_bt_ck_looper_3`; its `break` leaves the loop, since the flag is then false
unfoldable pub looper_3_round : ℤ → ℕ → Ble → Prog Ble
looper_3_round wakeup_time_s fuel b = run_set_sk_v 0 >>= λ _.
    unless_stopped (bt_ck_k_sleep 5 b) λ off. run_set_sk_v 1 >>= λ _.
    unless_stopped (bt_ck_k_sleep 5 off) λ on.
      try_advertising_start true wakeup_time_s on >>= λ woken.
      unless_stopped (wait_rc_connected wakeup_time_s fuel woken >>= λ r. ret r.1)
        λ back. bt_ck_k_sleep 30 back

-- one round of `_bt_ck_looper_2`
unfoldable pub looper_2_round : Ble → Prog Ble
looper_2_round b = run_set_sk_v 0 >>= λ _.
    unless_stopped (bt_ck_k_sleep 5 b) λ off. run_set_sk_v 1 >>= λ _. bt_ck_k_sleep 5 off

-- one round of `_bt_ck_looper`
unfoldable pub looper_round : ℤ → ℕ → Ble → Prog Ble
looper_round wakeup_time_s fuel b = do_send_key 0x66 b >>= λ sent.
    unless_stopped (bt_ck_k_sleep 1 sent) λ off. do_send_key 0x66 off >>= λ sent'.
    get_rand_range 10 30 >>= λ time. unless_stopped (bt_ck_k_sleep time sent') λ on.
      try_advertising_start true wakeup_time_s on >>= λ woken.
      unless_stopped (wait_rc_connected wakeup_time_s fuel woken >>= λ r. ret r.1)
        λ back. get_rand_range 5 30 >>= λ time'. bt_ck_k_sleep time' back

-- `while (g_bt_ck_running)` over such a round, the fuel for the rounds and for the waits in them
unfoldable pub looper : (ℕ → Ble → Prog Ble) → ℕ → Ble → Prog Ble
looper round zero b = out_of_fuel
looper round (suc fuel) b = elim b.bt_ck_running [
  | true ↦ round fuel b >>= looper round fuel
  | false ↦ ret b
]

unfoldable pub bt_ck_looper_3 : ℤ → ℕ → Ble → Prog Ble
bt_ck_looper_3 wakeup_time_s fuel b =
    looper (looper_3_round wakeup_time_s) fuel (record b { bt_ck_running = true })

unfoldable pub cmd_auto_reboot_stop : Ble → Ble
cmd_auto_reboot_stop b = record b { bt_ck_running = false }

-- Some rounds of `bt_ck_looper_thrd`, which has no end: it waits for the semaphore, and checks.
unfoldable pub bt_ck_looper_thrd : ℤ → ℕ → ℕ → Ble → Prog Ble
bt_ck_looper_thrd wakeup_time_s fuel zero b = ret b
bt_ck_looper_thrd wakeup_time_s fuel (suc rounds) b = do
  later ← ask (bt (take_run_sem b))
  checked ← bt_ck_looper_3 wakeup_time_s fuel later
  bt_ck_looper_thrd wakeup_time_s fuel rounds checked

unfoldable pub cmd_auto_reboot_start : Ble → Prog Ble
cmd_auto_reboot_start b = do ask (bt give_run_sem); ret b
