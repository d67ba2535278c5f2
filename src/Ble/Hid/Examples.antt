-- ===== src/Ble/Hid/Examples.antt =====
-- A host that reads the HID service, piece by piece of 22 bytes, and the keys that it sees.
use esp32s3_szpi_sta.Base.{
  ◌<◌, ◌≡◌, refl, ◌⊎◌, none, some, List, ℕ, [], ◌∷◌, pos, neg, length, false, take, drop, get_elem?,
  replicate, codes, strtol16, arith,
}
use esp32s3_szpi_sta.Ble.State.{disconnecte, Ble}
use esp32s3_szpi_sta.Ble.Hid.{GattRead, hids_input, report_map}
use esp32s3_szpi_sta.Ble.Hid.Peer.{keys_seen, read_attr}
use esp32s3_szpi_sta.Ble.Hid.Typed.{visible, read_attr-values}
use esp32s3_szpi_sta.Ble.Hid.Sent.{seen, cmd_send_key-seen}
use esp32s3_szpi_sta.Ble.Keys.{released, cmd_send_key, to_u8}
use esp32s3_szpi_sta.Zephyr.Calls.{got}
use esp32s3_szpi_sta.Zephyr.Prog.{run}
use esp32s3_szpi_sta.Zephyr.Holds.{Ends}
use esp32s3_szpi_sta.Zephyr.Sample.{reader}

abbrev copying : GattRead
copying bytes len offset = got (take len (drop offset bytes))

abbrev idle : Ble
idle = record {
  btrc_st = disconnecte;
  is_adv_running = false;
  wakeup_adv_mode = false;
  last_paired_addr = none;
  id = neg 1;
  fe_data = replicate 3 0;
  uuid_data = replicate 2 0;
  report_val = replicate 8 0;
  ctrl_point = replicate 1 0;
  simulate_input_allow = 0;
  bt_ck_running = false;
}

-- `send 0x66`
abbrev send_power : List (List ℕ)
send_power = codes "send" ∷ codes "0x66" ∷ []

cmd_send_key-seen_example :
    let (o, u) = run (reader []) (cmd_send_key send_power idle) [] in
    let see = keys_seen copying 87 22 in
    Ends
      (λ r v.
        ((length send_power < 2) × (r ≡ (neg 22, idle)) × (v ≡ []))
        ⊎ ((arg : List ℕ) × (get_elem? send_power 1 ≡ some arg)
            × (r.0 ≡ pos 0)
            × (r.1.report_val ≡ released)
            × (seen see v ≡ some [] ∷ some (visible (to_u8 (strtol16 arg))) ∷ [])))
      o
      u
cmd_send_key-seen_example =
    cmd_send_key-seen copying (λ bytes len offset near. refl) 22 (omega arith) 87 (omega arith)
      (reader []) send_power idle []

read_attr-values_example :
    (read_attr copying 87 22 2 ≡ some (0x11 ∷ 0x01 ∷ 0x00 ∷ 0x01 ∷ []))
    × (read_attr copying 87 22 4 ≡ some report_map)
    × (length report_map ≡ 86)
    × (read_attr copying 87 22 6 ≡ some [])
    × (read_attr copying 87 22 8 ≡ some (1 ∷ hids_input ∷ []))
read_attr-values_example =
    read_attr-values copying (λ bytes len offset near. refl) 22 (omega arith) 87 (omega arith)
