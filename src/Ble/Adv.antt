-- ===== src/Ble/Adv.antt =====
-- The advertising and connection part of src/ble_rc.c. Each function takes the shared variables and
-- returns them as it leaves them.
use esp32s3_szpi_sta.Base.{
  ℕ, suc, ◌*◌, Bool, true, false, not, Option, none, some, ℤ, pos, negsuc, neg, is_neg, is_zero,
  foldl, take, List, ◌∷◌, atoi, ◌==◌, if◌then◌else◌,
}
use esp32s3_szpi_sta.Ble.State.{Link, disconnecte, connected, security_lv_ok, Addr, Ble}
use esp32s3_szpi_sta.Zephyr.Calls.{
  AdvParam, conn_fast, conn_dir, wakeup, adv_start, adv_stop, foreach_bond, conn_get_dst,
  set_security, param_update, unpair, work_submit, reschedule, cancel_delayable, wait, bt,
}
use esp32s3_szpi_sta.Zephyr.Prog.{Prog, ret, ◌>>=◌, ◌>>◌, ask}

-- BT_ID_DEFAULT
abbrev pub bt_id_default : ℤ
bt_id_default = pos 0

-- BT_HCI_ERR_ADV_TIMEOUT
abbrev pub adv_timeout : ℕ
adv_timeout = 0x3c

abbrev pub id_or_default : Ble → ℤ
id_or_default b = if is_neg b.id then bt_id_default else b.id

-- `adv_param.id = g_id`, made only if `g_id >= 0`
abbrev pub adv_id : Ble → Option ℤ
adv_id b = if is_neg b.id then none else some b.id

abbrev pub pair_param : Option Addr → AdvParam
pair_param none = conn_fast
pair_param (some addr) = conn_dir addr

unfoldable pub adv_param : Ble → AdvParam
adv_param b = if b.wakeup_adv_mode then wakeup b.fe_data else pair_param b.last_paired_addr

unfoldable pub advertising_continue : Ble → Prog Ble
unfolding adv_param
advertising_continue b = if b.is_adv_running then ret b else do
  err ← ask (bt (adv_start (adv_param b) (adv_id b)))
  ret (if is_zero err then record b { is_adv_running = true } else b)

unfoldable pub bond_find : Ble → Addr → Ble
bond_find b addr = record b { last_paired_addr = some addr }

unfoldable pub advertising_start : Ble → Prog Ble
advertising_start b = do
  bonds ← ask (bt (foreach_bond (id_or_default b)))
  let b' = foldl bond_find (record b { last_paired_addr = none }) bonds
  if b'.is_adv_running then ret b' else do ask (bt work_submit); ret b'

unfoldable pub advertising_stop : Ble → Prog (ℤ × Ble)
advertising_stop b = if not b.is_adv_running then ret (pos 0, b) else do
  err ← ask (bt adv_stop)
  if is_zero err then ret (pos 0, record b { is_adv_running = false }) else ret (negsuc 0, b)

-- the handler of `adv_work`
unfoldable pub advertising_process : Ble → Prog Ble
advertising_process b = advertising_continue b

-- the first three bytes of the peer's address
unfoldable pub update_fe_data : Addr → Ble → Ble
update_fe_data dst b = record b { fe_data = take 3 dst.val }

unfoldable pub note_peer : Option Addr → Ble → Ble
unfolding update_fe_data
note_peer none b = b
note_peer (some addr) b = record (update_fe_data addr b) { last_paired_addr = some addr }

-- the connection callback; `err` is the HCI error
unfoldable pub on_connected : ℕ → Ble → Prog Ble
on_connected err b = do
  dst ← ask (bt conn_get_dst)
  let b' = note_peer dst (record b { is_adv_running = false })
  if not (err == 0)
      then if err == adv_timeout then (do ask (bt (reschedule (pos 2000))); ret b') else ret b'
      else do ask (bt set_security); ask (bt param_update); ret (record b' { btrc_st = connected })

unfoldable pub try_unpair : Option Addr → Ble → Prog (Unit {0})
try_unpair addr b = do ask (bt (unpair (id_or_default b) addr)); ret tt

unfoldable pub on_disconnected : Ble → Prog Ble
on_disconnected b = do
  dst ← ask (bt conn_get_dst)
  elim dst [
    | none ↦ ret b
    | some addr ↦ do ask (bt (reschedule (pos 2000))); ret (record b { btrc_st = disconnecte })
  ]

unfoldable pub security_changed_cb : ℕ → Ble → Ble
security_changed_cb err b = if err == 0 then record b { btrc_st = security_lv_ok } else b

-- `time_s * 1000`, where it fits an `int`
abbrev pub in_ms : ℤ → ℤ
in_ms (pos s) = pos (s * 1000)
in_ms (negsuc s) = neg (suc s * 1000)

unfoldable pub try_advertising_start : Bool → ℤ → Ble → Prog Ble
try_advertising_start is_wakeup time_s b = do
  ask (bt cancel_delayable)
  (err, stopped) ← advertising_stop (record b { wakeup_adv_mode = is_wakeup })
  later ← ask (bt (wait 100 stopped))
  started ← advertising_start later
  if is_zero time_s then ret started else do ask (bt (reschedule (in_ms time_s))); ret started

-- `atoi(argv[1])`, or 5 seconds where there is no argument
abbrev pub continue_time_s : List (List ℕ) → ℤ
continue_time_s (cmd ∷ time ∷ args) = atoi time
continue_time_s _ = pos 5

unfoldable pub cmd_start_adv : List (List ℕ) → Ble → Prog Ble
cmd_start_adv argv b = try_advertising_start false (continue_time_s argv) b

unfoldable pub cmd_wakeup : List (List ℕ) → Ble → Prog Ble
cmd_wakeup argv b = try_advertising_start true (continue_time_s argv) b

unfoldable pub cmd_delete_paired : Ble → Prog Ble
cmd_delete_paired b = do
  try_unpair b.last_paired_addr b
  (err, stopped) ← advertising_stop b
  ret (record stopped { last_paired_addr = none })

abbrev pub is_disconnecte : Link → Bool
is_disconnecte disconnecte = true
is_disconnecte connected = false
is_disconnecte security_lv_ok = false

-- the handler of `adv_mode_switch_work`
unfoldable pub adv_mode_switch_handler : Ble → Prog Ble
adv_mode_switch_handler b = do
  (err, stopped) ← advertising_stop b
  later ← ask (bt (wait 100 stopped))
  let b' = record later { wakeup_adv_mode = false }
  if is_disconnecte b'.btrc_st then advertising_start b' else ret b'

unfoldable pub adv_mode_switch_delay_work_cancle : Ble → Prog Ble
adv_mode_switch_delay_work_cancle b = do
  ask (bt cancel_delayable)
  (err, stopped) ← advertising_stop b
  later ← ask (bt (wait 100 stopped))
  ret (record later { wakeup_adv_mode = false })

-- a call of `advertising_stop` that drops its result
unfoldable pub stop_command : Ble → Prog Ble
stop_command b = do (err, stopped) ← advertising_stop b; ret stopped
