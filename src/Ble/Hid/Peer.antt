-- ===== src/Ble/Hid/Peer.antt =====
-- How a peer reads an attribute of the service in src/ble_rc.c: with a request for each piece, of at
-- most as many bytes as the connection carries, until one is shorter.
use esp32s3_szpi_sta.Base.{
  ℕ, zero, suc, ◌+◌, ◌-◌, min, ◌==◌, ◌≤◌, ◌<◌, ◌≡◌, refl, ap, inl, inr, Option, none, some, List,
  [], ◌∷◌, ◌++◌, Bool-cases, ltb, ltb→lt, ltb→ge, if◌then◌else◌, length, take, drop, get_elem?,
  arith, take-all, drop-drop, ◌∙◌, length-take, length-drop, take-append-drop,
}
use esp32s3_szpi_sta.Ble.Hid.{
  GattRead, ReadCallback, Attr, primary_service, chrc, value, ccc, hids_report, hids_report_ref,
  hid_svc,
}
use esp32s3_szpi_sta.Ble.Hid.Descriptor.{keys, fields}
use esp32s3_szpi_sta.Zephyr.Calls.{failed, got}

-- What the documentation of `bt_gatt_attr_read` promises: within the value it copies what fits.
abbrev pub CopiesValue : GattRead → Type 0
CopiesValue attr_read =
    (bytes : List ℕ) (len offset : ℕ)
    → offset ≤ length bytes
    → attr_read bytes len offset ≡ got (take len (drop offset bytes))

-- the bytes behind a piece that was got, unless it was the last
abbrev after_piece : ℕ → List ℕ → Option (List ℕ) → Option (List ℕ)
after_piece mtu bs rest =
    if ltb (length bs) mtu
    then some bs
    else elim rest [ none ↦ none | some more ↦ some (bs ++ more) ]

-- the bytes of a value from an offset on, by at most so many requests as the first argument says
unfoldable pub read_long : ℕ → ReadCallback → ℕ → ℕ → Option (List ℕ)
read_long zero read mtu offset = none
read_long (suc fuel) read mtu offset =
    let rest = read_long fuel read mtu (offset + mtu) in
    elim (read mtu offset) [ failed e ↦ none | got bs ↦ after_piece mtu bs rest ]

abbrev callback : Option Attr → Option ReadCallback
callback none = none
callback (some (primary_service u)) = none
callback (some (chrc u ps)) = none
callback (some (value u ps read write)) = read
callback (some (ccc changed ps)) = none

-- the value of the attribute at an index
abbrev pub read_attr : GattRead → ℕ → ℕ → ℕ → Option (List ℕ)
read_attr attr_read fuel mtu i = elim (callback (get_elem? (hid_svc attr_read) i)) [
  | none ↦ none
  | some read ↦ read_long fuel read mtu 0
]

module _ (mtu offset : ℕ) (bytes : List ℕ) (near : offset ≤ length bytes) where
  length-piece : length (take mtu (drop offset bytes)) ≡ min mtu (length bytes - offset)
  length-piece = rw (length-take mtu (drop offset bytes)) (ap (min mtu) (length-drop offset bytes))

  last_piece :
      length (take mtu (drop offset bytes)) < mtu → take mtu (drop offset bytes) ≡ drop offset bytes
  last_piece short =
      take-all mtu (drop offset bytes) (omega (arith, length-piece, length-drop offset bytes))

  earlier_piece : take mtu (drop offset bytes) ++ drop (offset + mtu) bytes ≡ drop offset bytes
  earlier_piece = rw (← drop-drop offset mtu bytes) (take-append-drop mtu (drop offset bytes))

read_long-got :
    (fuel : ℕ) (read : ReadCallback) (mtu offset : ℕ) (bs : List ℕ)
    → read mtu offset ≡ got bs
    → read_long (suc fuel) read mtu offset
      ≡ after_piece mtu bs (read_long fuel read mtu (offset + mtu))
unfolding read_long
read_long-got fuel read mtu offset bs e = rw (read_long, e) refl

-- a value is read as it is, whatever the connection carries, where the requests are enough
pub read_long_lem :
    (attr_read : GattRead)
    → CopiesValue attr_read
    → (bytes : List ℕ) (mtu : ℕ) → 0 < mtu
    → (fuel offset : ℕ) → offset ≤ length bytes
    → length bytes < fuel + offset
    → read_long fuel (attr_read bytes) mtu offset ≡ some (drop offset bytes)
unfolding read_long
read_long_lem attr_read copies bytes mtu p zero offset near enough = absurd (omega arith)
read_long_lem attr_read copies bytes mtu p (suc fuel) offset near enough =
    read_long-got fuel (attr_read bytes) mtu offset _ (copies bytes mtu offset near)
    ∙ (elim (Bool-cases (ltb (length (take mtu (drop offset bytes))) mtu)) [
      | inl short ↦ rw short (ap some (last_piece mtu offset bytes near (ltb→lt _ _ short)))
      | inr full ↦ rw full (
          let long = ltb→ge _ _ full in
          let e = length-piece mtu offset bytes near in
          rw
            (read_long_lem attr_read copies bytes mtu p fuel (offset + mtu) (omega arith)
              (omega arith))
            (ap some (earlier_piece mtu offset bytes near)))
    ])

-- the index of the report reference behind an attribute, within its characteristic
abbrev reference_from : ℕ → List Attr → Option ℕ
reference_from i [] = none
reference_from i (value hids_report_ref ps read write ∷ rest) = some i
reference_from i (chrc u ps ∷ rest) = none
reference_from i (_ ∷ rest) = reference_from (suc i) rest

-- only the value of a report is notified
abbrev report_reference : ℕ → List Attr → Option Attr → Option ℕ
report_reference i rest (some (value hids_report ps read write)) = reference_from i rest
report_reference i rest _ = none

-- the report that a report reference names, where it is an input report
abbrev input_report_id : Option (List ℕ) → Option ℕ
input_report_id (some (id ∷ type ∷ [])) = if type == 1 then some id else none
input_report_id _ = none

-- The input report that the attribute at an index stands for, by the service as a peer reads it.
abbrev pub report_id : GattRead → ℕ → ℕ → ℕ → Option ℕ
report_id attr_read fuel mtu i =
    let svc = hid_svc attr_read in
    elim (report_reference (suc i) (drop (suc i) svc) (get_elem? svc i)) [
      | none ↦ none
      | some j ↦ input_report_id (read_attr attr_read fuel mtu j)
    ]

abbrev keys_by : Option ℕ → Option (List ℕ) → List ℕ → Option (List ℕ)
keys_by none descriptor report = none
keys_by (some id) none report = none
keys_by (some id) (some descriptor) report = some (keys (fields descriptor id) report)

-- the keys that a report of the attribute at an index shows to a peer, which has read the report map
unfoldable pub keys_seen : GattRead → ℕ → ℕ → ℕ → List ℕ → Option (List ℕ)
keys_seen attr_read fuel mtu i report =
    keys_by (report_id attr_read fuel mtu i) (read_attr attr_read fuel mtu 4) report
