-- ===== src/Main/Handle.antt =====
-- The handling of events in src/main.c.
use esp32s3_szpi_sta.Base.{
  ℕ, zero, suc, Bool, true, false, ◌&&◌, ◌||◌, ◌==◌, ℤ, pos, negsuc, none, some, if◌then◌else◌,
}
use esp32s3_szpi_sta.Ble.State.{Ble}
use esp32s3_szpi_sta.Ble.Address.{ble_rc_init}
use esp32s3_szpi_sta.Main.Message.{EvtMsg}
use esp32s3_szpi_sta.Main.Queue.{
  evt_timer_out, evt_wifi_sta_start, evt_wifi_connected, evt_ble_start,
}
use esp32s3_szpi_sta.Sta.{sta_tryconnect}
use esp32s3_szpi_sta.Wscli.{wscli_ping}
use esp32s3_szpi_sta.Zephyr.Calls.{get, slist, free, kernel}
use esp32s3_szpi_sta.Zephyr.Prog.{Prog, ret, out_of_fuel, ◌>>=◌, ◌>>◌, ask}

-- STA_NETWORK_EN and IS_ENABLED(CONFIG_SETTINGS)
pub record Config : Type 0 where
  pub sta_network_en : Bool
  pub has_settings : Bool

-- `g_fds[].fd` by index, and the shared variables of the BLE part
pub record MainState : Type 0 where
  pub event_fd : ℤ
  pub socket_fd : ℤ
  pub ble : Ble

abbrev pub is_above_zero : ℤ → Bool
is_above_zero (pos zero) = false
is_above_zero (pos (suc n)) = true
is_above_zero (negsuc n) = false

-- the body of the loop of `evt_handle` for a message
unfoldable pub handle_event : Config → EvtMsg → MainState → Prog MainState
handle_event cfg msg m =
    if msg.type == evt_timer_out
    then (if cfg.sta_network_en && is_above_zero m.socket_fd
        then (do wscli_ping m.socket_fd; ret m)
        else ret m)
    else if msg.type == evt_wifi_sta_start
    then (if cfg.sta_network_en then (do sta_tryconnect; ret m) else ret m)
    else if msg.type == evt_wifi_connected || msg.type == evt_ble_start
    then (do ble' ← ble_rc_init cfg.has_settings m.ble; ret (record m { ble = ble' }))
    else ret m

-- Other threads may append while the loop runs, so the fuel is an argument.
unfoldable pub evt_handle : ℕ → Config → MainState → Prog MainState
evt_handle zero cfg m = out_of_fuel
evt_handle (suc fuel) cfg m = do
  node ← ask (slist get)
  elim node [
    | none ↦ ret m
    | some msg ↦ do later ← handle_event cfg msg m; ask (kernel free); evt_handle fuel cfg later
  ]
