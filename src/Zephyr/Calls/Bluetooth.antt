-- ===== src/Zephyr/Calls/Bluetooth.antt =====
-- Bluetooth, the work items and the semaphore of the BLE part: the functions that the firmware calls.
use esp32s3_szpi_sta.Base.{ℕ, ℤ, Option, List}
use esp32s3_szpi_sta.Ble.State.{Addr, Ble}

-- which parameters `bt_le_adv_start` is given
pub data AdvParam : Type 0 where
  conn_fast : AdvParam  -- BT_LE_ADV_CONN_FAST_1 with `ad` and `sd`
  conn_dir : Addr → AdvParam  -- BT_LE_ADV_CONN_DIR, with no data
  wakeup : List ℕ → AdvParam  -- BT_LE_ADV_PARAM, with `ad_wakeup`, which shows `fe_data`, and `sd`

pub data BtCall : Type 0 where
  adv_start : AdvParam → Option ℤ → BtCall  -- the second argument is `adv_param.id`, where it is set
  adv_stop : BtCall
  foreach_bond : ℤ → BtCall
  conn_get_dst set_security param_update : BtCall
  unpair : ℤ → Option Addr → BtCall
  id_create : Addr → BtCall
  bt_enable settings_load thread_start : BtCall
  notify : ℕ → List ℕ → BtCall  -- the index of the attribute, and the report
  work_submit : BtCall
  reschedule : ℤ → BtCall  -- milliseconds
  cancel_delayable : BtCall
  find_by_uuid : BtCall  -- the index of the attribute with the UUID of a report
  -- no call of the firmware: the controller ended the advertising, since a peer connected or since
  -- directed advertising timed out
  adv_ended : BtCall
  wait : ℕ → Ble → BtCall  -- a sleep, over which other threads use the shared variables
  -- `bt_ck_run_sem`: `k_sem_take` for ever, which waits likewise, and `k_sem_give`
  take_run_sem : Ble → BtCall
  give_run_sem : BtCall

abbrev pub BtAnswer : BtCall → Type 0
BtAnswer (foreach_bond id) = List Addr
BtAnswer conn_get_dst = Option Addr
BtAnswer find_by_uuid = Option ℕ
BtAnswer adv_ended = Unit {0}
BtAnswer settings_load = Unit {0}
BtAnswer thread_start = Unit {0}
BtAnswer work_submit = Unit {0}
BtAnswer (reschedule ms) = Unit {0}
BtAnswer cancel_delayable = Unit {0}
BtAnswer (wait ms b) = Ble
BtAnswer (take_run_sem b) = Ble
BtAnswer give_run_sem = Unit {0}
BtAnswer _ = ℤ
