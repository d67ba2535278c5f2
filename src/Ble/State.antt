-- ===== src/Ble/State.antt =====
-- The file-scope variables of src/ble_rc.c, which its callbacks, its work handlers, the shell and
-- the check thread share.
use esp32s3_szpi_sta.Base.{ℕ, Bool, Option, List, ℤ}

-- `g_btrc_st`
pub data Link : Type 0 where
  disconnecte connected security_lv_ok : Link

-- `bt_addr_le_t`: its type, and the bytes `a.val`
pub record Addr : Type 0 where
  pub type : ℕ
  pub val : List ℕ

pub record Ble : Type 0 where
  pub btrc_st : Link
  pub is_adv_running : Bool
  pub wakeup_adv_mode : Bool
  pub last_paired_addr : Option Addr  -- `none` is BT_ADDR_LE_NONE
  pub id : ℤ  -- `g_id`
  pub fe_data : List ℕ
  pub uuid_data : List ℕ
  pub report_val : List ℕ
  pub ctrl_point : List ℕ
  pub simulate_input_allow : ℕ
  pub bt_ck_running : Bool
