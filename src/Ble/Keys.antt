-- ===== src/Ble/Keys.antt =====
-- The HID service of src/ble_rc.c: the keys that it sends and the attributes that a peer writes.
pub mod Reports
use mathlib.Core.Option
use esp32s3_szpi_sta.Base.{
  ℕ, zero, suc, Option, none, some, ◌+◌, ◌-◌, ◌%◌, ◌≤◌, ◌<◌, ◌≡◌, refl, Bool, List, [], ◌∷◌, ◌++◌,
  ℤ, pos, negsuc, neg, take, drop, not, replicate, set, length, ltb, ◌==◌, if◌then◌else◌, strtol16,
  arith,
}
use esp32s3_szpi_sta.Ble.State.{Ble}
use esp32s3_szpi_sta.Zephyr.Calls.{notify, find_by_uuid, wait, bt}
use esp32s3_szpi_sta.Zephyr.Prog.{Prog, ret, ◌>>=◌, ◌>>◌, ask}

abbrev einval : ℕ
einval = 22

-- `simulate_input_allow` is 1 exactly if the peer has asked for notifications, BT_GATT_CCC_NOTIFY
unfoldable pub input_ccc_changed : ℕ → Ble → Ble
input_ccc_changed value b = record b { simulate_input_allow = if value == 1 then 1 else 0 }

-- `BT_GATT_ERR(BT_ATT_ERR_INVALID_OFFSET)`
abbrev pub invalid_offset : ℤ
invalid_offset = neg 0x07

-- The bytes of `buf` are copied behind the first `offset` of the control point.
unfoldable pub write_ctrl_point : List ℕ → ℕ → Ble → ℤ × Ble
write_ctrl_point buf offset b =
    if ltb (length b.ctrl_point) (offset + length buf) then (invalid_offset, b) else (
      pos (length buf),
      record b {
        ctrl_point = take offset b.ctrl_point ++ buf ++ drop (offset + length buf) b.ctrl_point;
      },
    )

-- a store into an array; one behind the end makes the list longer than the array is
abbrev store : List ℕ → ℕ → ℕ → List ℕ
store xs i v = take i xs ++ (v ∷ drop (i + 1) xs)

-- the report of a pressed key, and that of none
unfoldable pub pressed : ℕ → List ℕ
pressed key = store (replicate 8 0) 2 key

abbrev pub released : List ℕ
released = replicate 8 0

-- A press and a release by the attribute `i`: what `do_send_key` and `do_send_key2` have in common.
unfoldable pub send_by : ℕ → ℕ → Ble → Prog Ble
send_by i key b = do
  ask (bt (notify i (pressed key)))
  later ← ask (bt (wait 50 (record b { report_val = pressed key })))
  ask (bt (notify i released))
  ret (record later { report_val = released })

-- by `&hid_svc.attrs[6]`
unfoldable pub do_send_key : ℕ → Ble → Prog Ble
unfolding send_by
do_send_key key b = send_by 6 key b

-- `report_decl + 1`, for what was found
unfoldable pub get_attrs : Prog (Option ℕ)
get_attrs = do report_decl ← ask (bt find_by_uuid); ret (Option.map suc report_decl)

unfoldable pub do_send_key2 : ℕ → Ble → Prog (ℤ × Ble)
do_send_key2 key b = do
  rpt_val_att ← get_attrs
  elim rpt_val_att [
    | none ↦ ret (negsuc 0, b)
    | some i ↦ do sent ← send_by i key b; ret (pos 0, sent)
  ]

-- `(uint8_t)`
unfoldable pub to_u8 : ℤ → ℕ
to_u8 (pos n) = n % 256
to_u8 (negsuc n) = 255 - n % 256

unfoldable pub cmd_send_key : List (List ℕ) → Ble → Prog (ℤ × Ble)
cmd_send_key (cmd ∷ key ∷ args) b =
    do_send_key (to_u8 (strtol16 key)) b >>= λ sent. ret (pos 0, sent)
cmd_send_key _ b = ret (neg einval, b)
