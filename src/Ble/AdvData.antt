-- ===== src/Ble/AdvData.antt =====
-- The advertising data and the scan response of src/ble_rc.c.
pub mod Shown
use esp32s3_szpi_sta.Base.{ℕ, List, [], ◌∷◌}
use esp32s3_szpi_sta.Zephyr.Calls.{AdvParam, conn_fast, conn_dir, wakeup}

-- `struct bt_data`
pub record BtData : Type 0 where
  pub type : ℕ
  pub bytes : List ℕ

-- BT_DATA_FLAGS, BT_DATA_UUID16_ALL, BT_DATA_NAME_COMPLETE, BT_DATA_GAP_APPEARANCE and
-- BT_DATA_MANUFACTURER_DATA
abbrev pub data_flags : ℕ
data_flags = 0x01

abbrev pub data_uuid16_all : ℕ
data_uuid16_all = 0x03

abbrev pub data_name_complete : ℕ
data_name_complete = 0x09

abbrev pub data_gap_appearance : ℕ
data_gap_appearance = 0x19

abbrev pub data_manufacturer_data : ℕ
data_manufacturer_data = 0xff

-- BT_LE_AD_GENERAL and BT_LE_AD_NO_BREDR, the appearance 384, and the UUID 0x1812 of HID
unfoldable pub ad : List BtData
ad =
    record { type = data_flags; bytes = 0x06 ∷ [] }
    ∷ record { type = data_gap_appearance; bytes = 0x80 ∷ 0x01 ∷ [] }
    ∷ record { type = data_uuid16_all; bytes = 0x12 ∷ 0x18 ∷ [] }
    ∷ []

-- over CONFIG_BT_DEVICE_NAME
unfoldable pub sd : List ℕ → List BtData
sd device_name = record { type = data_name_complete; bytes = device_name } ∷ []

abbrev mfg_data : List ℕ
mfg_data = 0x00 ∷ 0x01 ∷ []

-- over `fe_data`, of which 3 bytes are shown
unfoldable pub ad_wakeup : List ℕ → List BtData
ad_wakeup fe_data =
    record { type = data_flags; bytes = 0x06 ∷ [] }
    ∷ record { type = data_gap_appearance; bytes = 0x80 ∷ 0x01 ∷ [] }
    ∷ record { type = data_uuid16_all; bytes = 0x12 ∷ 0x18 ∷ [] }
    ∷ record { type = data_manufacturer_data; bytes = mfg_data }
    ∷ record { type = 0xfe; bytes = fe_data }
    ∷ []

-- the third argument of `bt_le_adv_start`, and the fifth
unfoldable pub adv_ad : AdvParam → List BtData
adv_ad conn_fast = ad
adv_ad (conn_dir addr) = []
adv_ad (wakeup fe_data) = ad_wakeup fe_data

unfoldable pub adv_sd : List ℕ → AdvParam → List BtData
adv_sd device_name conn_fast = sd device_name
adv_sd device_name (conn_dir addr) = []
adv_sd device_name (wakeup fe_data) = sd device_name
