-- ===== src/Ble/Threads.antt =====
-- The functions that the threads of the BLE part run, and the invariants that all of them keep.
pub mod Effects
mod Adverts
mod Peers
mod Requests
mod Looper
use esp32s3_szpi_sta.Base.{ℕ, ◌≡◌, Bool, true, false, List, [], ◌∷◌, ℤ}
use esp32s3_szpi_sta.Ble.State.{Ble}
use esp32s3_szpi_sta.Ble.Adv.{
  advertising_process, on_connected, on_disconnected, security_changed_cb, try_advertising_start,
  cmd_delete_paired, adv_mode_switch_handler, adv_mode_switch_delay_work_cancle, stop_command,
  cmd_start_adv, cmd_wakeup, continue_time_s,
}
use esp32s3_szpi_sta.Ble.Keys.{cmd_send_key, input_ccc_changed, write_ctrl_point}
use esp32s3_szpi_sta.Ble.Check.{bt_ck_looper_thrd, cmd_auto_reboot_start, cmd_auto_reboot_stop}
use esp32s3_szpi_sta.Ble.Interleave.{Sleeper, Keeps, System, system, Reach}
use esp32s3_szpi_sta.Ble.Interleave.Safety.{Reach-IsSafe}
use esp32s3_szpi_sta.Ble.Threads.Effects.{Moves}
use esp32s3_szpi_sta.Ble.Threads.Adverts.{
  stop-Keeps, continue-Keeps, try_start-Keeps, switch-Keeps, delete_paired-Keeps, cancle-Keeps,
}
use esp32s3_szpi_sta.Ble.Threads.Peers.{
  connected-Keeps, disconnected-Keeps, security-Keeps, send_key-Keeps,
}
use esp32s3_szpi_sta.Ble.Threads.Requests.{rpc-Keeps}
use esp32s3_szpi_sta.Ble.Threads.Looper.{thrd-Keeps}
use esp32s3_szpi_sta.HttpClient.Sockets.{ShortResponses}
use esp32s3_szpi_sta.Rpc.{Parse, rpc_execute}
use esp32s3_szpi_sta.Rpc.Keyed.{HaveKeys}
use esp32s3_szpi_sta.Zephyr.Calls.{Call, Answer, bt, adv_ended}
use esp32s3_szpi_sta.Zephyr.Prog.{ret, Trace, Env, ◌>>=◌}
use esp32s3_szpi_sta.Zephyr.Holds.{Admits, Answers}

-- the functions that the threads run; the controller has ended its advertising where it reports a
-- connection or a failed one
pub data Handler : Sleeper → Trace → Trace → Type 0 where
  adv_work : (t : Trace) → Handler advertising_process t t
  start :
      (is_wakeup : Bool) (time_s : ℤ) (t : Trace)
      → Handler (try_advertising_start is_wakeup time_s) t t
  start_adv : (argv : List (List ℕ)) (t : Trace) → Handler (cmd_start_adv argv) t t
  start_wakeup : (argv : List (List ℕ)) (t : Trace) → Handler (cmd_wakeup argv) t t
  stop : (t : Trace) → Handler stop_command t t
  mode_switch : (t : Trace) → Handler adv_mode_switch_handler t t
  cancle : (t : Trace) → Handler adv_mode_switch_delay_work_cancle t t
  delete_paired : (t : Trace) → Handler cmd_delete_paired t t
  connection : (err : ℕ) (t : Trace) → Handler (on_connected err) t ((bt adv_ended, tt) ∷ t)
  disconnection : (t : Trace) → Handler on_disconnected t t
  rpc :
      (parse : Parse) (json : List ℕ) (t : Trace)
      → HaveKeys (parse json).1.paras
      → Handler (rpc_execute parse json) t t
  send_key :
      (args : List (List ℕ)) (t : Trace) → Handler (λ b. cmd_send_key args b >>= λ r. ret r.1) t t
  ccc : (value : ℕ) (t : Trace) → Handler (λ b. ret (input_ccc_changed value b)) t t
  ctrl_point :
      (buf : List ℕ) (offset : ℕ) (t : Trace)
      → Handler (λ b. ret (write_ctrl_point buf offset b).1) t t
  reboot_start : (t : Trace) → Handler cmd_auto_reboot_start t t
  reboot_stop : (t : Trace) → Handler (λ b. ret (cmd_auto_reboot_stop b)) t t
  check_thread :
      (wakeup_time_s : ℤ) (fuel rounds : ℕ) (t : Trace)
      → Handler (bt_ck_looper_thrd wakeup_time_s fuel rounds) t t
  security : (err : ℕ) (t : Trace) → Handler (λ b. ret (security_changed_cb err b)) t t

-- Every function of the threads keeps what its calls and assignments keep.
module _ (D : Admits) (P : Ble → Trace → Type 0) (M : Moves D P)
    (short : (u : Trace) (c : Call) (r : Answer c) → D u c r → ShortResponses u c r) where
  Handler-Keeps :
      (h : Sleeper) (t u : Trace) → Handler h t u → (b : Ble) → P b t → Keeps D P (h b) u
  Handler-Keeps h t u (adv_work _) b m = continue-Keeps M b t m
  Handler-Keeps h t u (start w time _) b m = try_start-Keeps M w time b t m
  Handler-Keeps h t u (start_adv argv _) b m =
      unfold cmd_start_adv in try_start-Keeps M false (continue_time_s argv) b t m
  Handler-Keeps h t u (start_wakeup argv _) b m =
      unfold cmd_wakeup in try_start-Keeps M true (continue_time_s argv) b t m
  Handler-Keeps h t u (stop _) b m = unfold stop_command in stop-Keeps M _ b t m (λ r v n. n)
  Handler-Keeps h t u (mode_switch _) b m = switch-Keeps M b t m
  Handler-Keeps h t u (cancle _) b m = cancle-Keeps M b t m
  Handler-Keeps h t u (delete_paired _) b m = delete_paired-Keeps M b t m
  Handler-Keeps h t u (connection err _) b m = connected-Keeps M err b t m
  Handler-Keeps h t u (disconnection _) b m = disconnected-Keeps M b t m
  Handler-Keeps h t u (rpc parse json _ keys) b m = rpc-Keeps M parse json b t keys m
  Handler-Keeps h t u (send_key args _) b m = send_key-Keeps M args b t m
  Handler-Keeps h t u (ccc value _) b m = M.allowed value b t m
  Handler-Keeps h t u (ctrl_point buf offset _) b m = M.written buf offset b t m
  Handler-Keeps h t u (reboot_start _) b m = unfold cmd_auto_reboot_start in (λ _ _. M.given b t m)
  Handler-Keeps h t u (reboot_stop _) b m = unfold cmd_auto_reboot_stop in M.told b t m
  Handler-Keeps h t u (check_thread time fuel rounds _) b m =
      thrd-Keeps M short time fuel rounds b t m
  Handler-Keeps h t u (security err _) b m = security-Keeps M err b t m

  pub Reach-Keeps :
      {env : Env} {b : Ble} {t : Trace} {s : System}
      → Answers D env
      → P b t
      → Reach Handler env (system b t) s
      → P s.ble s.trace
  Reach-Keeps d h r = (Reach-IsSafe D P Handler Handler-Keeps d r (h, tt, tt)).0
