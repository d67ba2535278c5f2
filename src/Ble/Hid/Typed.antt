-- ===== src/Ble/Hid/Typed.antt =====
-- What a host makes of the reports that src/ble_rc.c notifies, by the descriptor and the report
-- reference that it reads from the service.
use esp32s3_szpi_sta.Base.{
  ℕ, ◌<◌, ◌≡◌, ap, refl, some, List, [], ◌∷◌, ◌++◌, leb, ◌&&◌, if◌then◌else◌, arith, length,
}
use esp32s3_szpi_sta.Ble.Hid.{
  GattRead, hid_svc, report_map, read_info, info, read_input_report, hids_input, read_report_map,
  read_report, input,
}
use esp32s3_szpi_sta.Ble.Hid.Peer.{keys_seen, report_id, CopiesValue, read_attr, read_long_lem}
use esp32s3_szpi_sta.Ble.Hid.Descriptor.{
  little_endian, Globals, fields, values, shown, field_keys, keys, inputs, items,
}
use esp32s3_szpi_sta.Ble.Keys.{pressed, released}

abbrev report_1 : Globals
report_1 = record {
  logical_minimum = 0;
  logical_maximum = 254;
  report_size = 16;
  report_id = 1;
  report_count = 3;
}

length-report_map : length report_map ≡ 86
unfolding report_map
length-report_map = refl

report_map-fields : fields report_map 1 ≡ report_1 ∷ []
unfolding report_map fields inputs items little_endian
report_map-fields = refl

three :
    {a b c x y z : ℕ}
    → a ≡ x
    → b ≡ y
    → c ≡ z
    → let xs : List ℕ = a ∷ b ∷ c ∷ [] in xs ≡ x ∷ y ∷ z ∷ []
three {x = x} {y = y} {z = z} e f g = rw (e, f, g) refl

values-pressed :
    (key : ℕ) → key < 256 → values 16 3 (little_endian (pressed key)) ≡ 0 ∷ key ∷ 0 ∷ []
unfolding values little_endian pressed
values-pressed key h = three (omega arith) (omega arith) (omega arith)

-- what a key shows: only those between 1 and 254 are within the bounds of the report map
abbrev pub visible : ℕ → List ℕ
visible key = if leb 1 key && leb key 254 then key ∷ [] else []

shown-pressed : (key : ℕ) → shown report_1 (0 ∷ key ∷ 0 ∷ []) ++ [] ≡ visible key
unfolding shown
shown-pressed key = ground arith

keys-pressed : (key : ℕ) → key < 256 → keys (fields report_map 1) (pressed key) ≡ visible key
unfolding keys field_keys
keys-pressed key h = rw (report_map-fields, values-pressed key h) (shown-pressed key)

keys-released : keys (fields report_map 1) released ≡ []
unfolding keys field_keys values little_endian shown
keys-released = rw report_map-fields refl

module _ (attr_read : GattRead) (copies : CopiesValue attr_read) (mtu : ℕ) (p : 0 < mtu) (fuel : ℕ)
    (enough : 86 < fuel) where
  map-read : read_attr attr_read fuel mtu 4 ≡ some report_map
  unfolding hid_svc read_report_map
  map-read =
      let l = length-report_map in
      read_long_lem attr_read copies report_map mtu p fuel 0 (omega arith) (omega arith)

  report_id-read : report_id attr_read fuel mtu 6 ≡ some 1
  unfolding hid_svc read_report input
  report_id-read =
      rw (read_long_lem attr_read copies (1 ∷ 1 ∷ []) mtu p fuel 0 (omega arith) (omega arith)) refl

  pub keys_seen-pressed :
      (key : ℕ) → key < 256 → keys_seen attr_read fuel mtu 6 (pressed key) ≡ some (visible key)
  unfolding keys_seen
  keys_seen-pressed key h = rw (map-read, report_id-read) (ap some (keys-pressed key h))

  pub keys_seen-released : keys_seen attr_read fuel mtu 6 released ≡ some []
  unfolding keys_seen
  keys_seen-released = rw (map-read, report_id-read) (ap some keys-released)

  -- A peer that reads attributes piece by piece gets the values as they stand in the code: HID 1.11
  -- and its flags, the 86 bytes of the report map, an empty report, and report 1 as an input report.
  -- The connection carries at least a byte, `bt_gatt_attr_read` copies what fits, and the peer makes
  -- more than 86 requests.
  pub read_attr-values :
      (read_attr attr_read fuel mtu 2 ≡ some (0x11 ∷ 0x01 ∷ 0x00 ∷ 0x01 ∷ []))
      × (read_attr attr_read fuel mtu 4 ≡ some report_map)
      × (length report_map ≡ 86)
      × (read_attr attr_read fuel mtu 6 ≡ some [])
      × (read_attr attr_read fuel mtu 8 ≡ some (1 ∷ hids_input ∷ []))
  unfolding hid_svc read_info info read_report input read_input_report
  read_attr-values = (
    read_long_lem attr_read copies _ mtu p fuel 0 (omega arith) (omega arith),
    map-read,
    length-report_map,
    read_long_lem attr_read copies [] mtu p fuel 0 (omega arith) (omega arith),
    read_long_lem attr_read copies _ mtu p fuel 0 (omega arith) (omega arith),
  )
