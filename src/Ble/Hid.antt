-- ===== src/Ble/Hid.antt =====
-- The GATT service of src/ble_rc.c for HID over GATT: what its attributes are, and the callbacks by
-- which a peer reads them, over `bt_gatt_attr_read` as a parameter.
pub mod Peer
pub mod Descriptor
pub mod Typed
pub mod Sent
mod Examples
use esp32s3_szpi_sta.Base.{ℕ, ◌+◌, ◌*◌, ◌/◌, ◌%◌, Option, none, some, List, [], ◌∷◌, ℤ, length}
use esp32s3_szpi_sta.Ble.State.{Ble}
use esp32s3_szpi_sta.Ble.Keys.{input_ccc_changed, write_ctrl_point}
use esp32s3_szpi_sta.Zephyr.Calls.{ReadResult}

-- `bt_gatt_attr_read` of a value, for the room in the buffer and the offset
abbrev pub GattRead : Type 0
GattRead = List ℕ → ℕ → ℕ → ReadResult

-- a callback of an attribute that is read, for the room and the offset
abbrev pub ReadCallback : Type 0
ReadCallback = ℕ → ℕ → ReadResult

pub record HidsInfo : Type 0 where
  pub bcd_hid : ℕ
  pub b_country_code : ℕ
  pub flags : ℕ

-- `struct hids_info` in memory: packed, and little-endian
abbrev info_bytes : HidsInfo → List ℕ
info_bytes i = i.bcd_hid % 256 ∷ i.bcd_hid / 256 ∷ i.b_country_code ∷ i.flags ∷ []

pub record HidsReport : Type 0 where
  pub id : ℕ
  pub type : ℕ

-- `struct hids_report` in memory
abbrev report_bytes : HidsReport → List ℕ
report_bytes r = r.id ∷ r.type ∷ []

unfoldable pub info : HidsInfo
info = record { bcd_hid = 0x0111; b_country_code = 0x00; flags = 0x01 }

-- HIDS_INPUT
abbrev pub hids_input : ℕ
hids_input = 0x01

unfoldable pub input : HidsReport
input = record { id = 0x01; type = hids_input }

unfoldable pub report_map : List ℕ
report_map =
    0x05 ∷ 0x01 ∷ 0x09 ∷ 0x06 ∷ 0xa1 ∷ 0x01 ∷ 0x05 ∷ 0x07 ∷ 0x09 ∷ 0x06 ∷ 0xa1 ∷ 0x01 ∷ 0x85 ∷ 0x01
    ∷ 0x95 ∷ 0x03 ∷ 0x75 ∷ 0x10 ∷ 0x15 ∷ 0x00 ∷ 0x25 ∷ 0xfe ∷ 0x19 ∷ 0x00 ∷ 0x29 ∷ 0xfe ∷ 0x81
    ∷ 0x00 ∷ 0xc0 ∷ 0x06 ∷ 0x00 ∷ 0xff ∷ 0x09 ∷ 0x00 ∷ 0xa1 ∷ 0x01 ∷ 0x85 ∷ 0x06 ∷ 0x75 ∷ 0x08
    ∷ 0x95 ∷ 0x78 ∷ 0x15 ∷ 0x00 ∷ 0x25 ∷ 0xff ∷ 0x19 ∷ 0x00 ∷ 0x29 ∷ 0xff ∷ 0x81 ∷ 0x00 ∷ 0x85
    ∷ 0x07 ∷ 0x75 ∷ 0x08 ∷ 0x95 ∷ 0x78 ∷ 0x15 ∷ 0x00 ∷ 0x25 ∷ 0xff ∷ 0x19 ∷ 0x00 ∷ 0x29 ∷ 0xff
    ∷ 0x81 ∷ 0x00 ∷ 0x85 ∷ 0x08 ∷ 0x75 ∷ 0x08 ∷ 0x95 ∷ 0x78 ∷ 0x15 ∷ 0x00 ∷ 0x25 ∷ 0xff ∷ 0x19
    ∷ 0x00 ∷ 0x29 ∷ 0xff ∷ 0x81 ∷ 0x00 ∷ 0xc0 ∷ 0xc0 ∷ []

-- The attribute's `user_data` is an argument of the callbacks that read it.
unfoldable pub read_info : GattRead → HidsInfo → ReadCallback
read_info attr_read user_data len offset = attr_read (info_bytes user_data) len offset

unfoldable pub read_report_map : GattRead → ReadCallback
read_report_map attr_read len offset = attr_read report_map len offset

unfoldable pub read_report : GattRead → HidsReport → ReadCallback
read_report attr_read user_data len offset = attr_read (report_bytes user_data) len offset

unfoldable pub read_input_report : GattRead → ReadCallback
read_input_report attr_read len offset = attr_read [] len offset

pub data Uuid : Type 0 where
  hids hids_info hids_report_map hids_report hids_report_ref hids_ctrl_point : Uuid

pub data Property : Type 0 where
  chrc_read chrc_notify chrc_write_without_resp : Property

pub data Perm : Type 0 where
  perm_read perm_write : Perm

-- the attributes that the macros of a service declare; those of a characteristic are two
pub data Attr : Type 0 where
  primary_service : Uuid → Attr
  chrc : Uuid → List Property → Attr
  value : Uuid → List Perm → Option ReadCallback → Option (List ℕ → ℕ → Ble → ℤ × Ble) → Attr
  ccc : (ℕ → Ble → Ble) → List Perm → Attr

unfoldable pub hid_svc : GattRead → List Attr
hid_svc attr_read =
    primary_service hids
    ∷ chrc hids_info (chrc_read ∷ [])
    ∷ value hids_info (perm_read ∷ []) (some (read_info attr_read info)) none
    ∷ chrc hids_report_map (chrc_read ∷ [])
    ∷ value hids_report_map (perm_read ∷ []) (some (read_report_map attr_read)) none
    ∷ chrc hids_report (chrc_read ∷ chrc_notify ∷ [])
    ∷ value hids_report (perm_read ∷ []) (some (read_input_report attr_read)) none
    ∷ ccc input_ccc_changed (perm_read ∷ perm_write ∷ [])
    ∷ value hids_report_ref (perm_read ∷ []) (some (read_report attr_read input)) none
    ∷ chrc hids_ctrl_point (chrc_write_without_resp ∷ [])
    ∷ value hids_ctrl_point (perm_write ∷ []) none (some write_ctrl_point)
    ∷ []
