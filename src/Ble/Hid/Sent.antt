-- ===== src/Ble/Hid/Sent.antt =====
-- What the command `send` of src/ble_rc.c shows to a host.
use esp32s3_szpi_sta.Base.{
  ℕ, suc, ◌<◌, ◌≡◌, refl, ◌⊎◌, inl, inr, Option, none, some, List, [], ◌∷◌, ℤ, pos, neg, length,
  get_elem?, strtol16, arith,
}
use esp32s3_szpi_sta.Ble.State.{Ble}
use esp32s3_szpi_sta.Ble.Hid.{GattRead, Attr, value, hids_report, hid_svc}
use esp32s3_szpi_sta.Ble.Hid.Peer.{CopiesValue, keys_seen}
use esp32s3_szpi_sta.Ble.Hid.Typed.{visible, keys_seen-pressed, keys_seen-released}
use esp32s3_szpi_sta.Ble.Keys.{
  released, send_by, do_send_key, cmd_send_key, to_u8, do_send_key2, get_attrs,
}
use esp32s3_szpi_sta.Ble.Keys.Reports.{to_u8-lt}
use esp32s3_szpi_sta.Zephyr.Calls.{bt, notify, find_by_uuid}
use esp32s3_szpi_sta.Zephyr.Prog.{Outcome, Trace, Env, run}
use esp32s3_szpi_sta.Zephyr.Holds.{Ends, Admits, Answers, run-Holds}

-- what the reports sent show, the newest first, where a report of an attribute shows what `see` says
abbrev pub seen : (ℕ → List ℕ → Option (List ℕ)) → Trace → List (Option (List ℕ))
seen see [] = []
seen see ((bt (notify i report), r) ∷ t) = see i report ∷ seen see t
seen see (_ ∷ t) = seen see t

-- `send` with fewer than two arguments fails with -EINVAL and sends nothing. With more it gives 0,
-- and a host that has read the service sees the key of the second argument, in base 16 and cut to
-- a byte, pressed and then no key pressed; keys other than 1 to 254 it does not see. The host's
-- connection carries at least a byte, it makes more than 86 requests for an attribute, and
-- `bt_gatt_attr_read` copies what fits.
pub cmd_send_key-seen :
    (attr_read : GattRead)
    → CopiesValue attr_read
    → (mtu : ℕ) → 0 < mtu
    → (fuel : ℕ) → 86 < fuel
    → (env : Env) (args : List (List ℕ)) (b : Ble) (t : Trace)
    → let (o, u) = run env (cmd_send_key args b) t in
      let see = keys_seen attr_read fuel mtu in
      Ends
        (λ r v.
          ((length args < 2) × (r ≡ (neg 22, b)) × (v ≡ t))
          ⊎ ((arg : List ℕ) × (get_elem? args 1 ≡ some arg)
              × (r.0 ≡ pos 0)
              × (r.1.report_val ≡ released)
              × (seen see v ≡ some [] ∷ some (visible (to_u8 (strtol16 arg))) ∷ seen see t)))
        o
        u
unfolding cmd_send_key do_send_key send_by run
cmd_send_key-seen attr_read copies mtu p fuel enough env [] b t = inl (omega arith, refl, refl)
cmd_send_key-seen attr_read copies mtu p fuel enough env (cmd ∷ []) b t =
    inl (omega arith, refl, refl)
cmd_send_key-seen attr_read copies mtu p fuel enough env (cmd ∷ key ∷ args) b t =
    let pressed_seen =
      keys_seen-pressed attr_read copies mtu p fuel enough (to_u8 (strtol16 key))
        (to_u8-lt (strtol16 key)) in
    inr (
      key,
      refl,
      refl,
      refl,
      rw (keys_seen-released attr_read copies mtu p fuel enough, pressed_seen) refl,
    )

-- the first attribute of the service whose UUID is that of a report: the characteristic itself has
-- another, which says that it is a characteristic
abbrev pub first_report : ℕ → List Attr → Option ℕ
first_report i [] = none
first_report i (value hids_report ps read write ∷ rest) = some i
first_report i (_ ∷ rest) = first_report (suc i) rest

-- `bt_gatt_find_by_uuid` gives the first attribute with the UUID
abbrev pub FindsFirst : GattRead → Admits
FindsFirst attr_read t (bt find_by_uuid) found = found ≡ first_report 0 (hid_svc attr_read)
FindsFirst attr_read _ _ _ = Unit

-- Where `bt_gatt_find_by_uuid` gives the first attribute with the UUID of a report, `do_send_key2`
-- reports success and notifies by an attribute that is no report: a host sees nothing of the press
-- and the release.
pub do_send_key2-unseen :
    (attr_read : GattRead) (fuel mtu : ℕ) (env : Env)
    → Answers (FindsFirst attr_read) env
    → (key : ℕ) (b : Ble) (t : Trace)
    → let (o, u) = run env (do_send_key2 key b) t in
      let see = keys_seen attr_read fuel mtu in
      Ends (λ r v. (r.0 ≡ pos 0) × (seen see v ≡ none ∷ none ∷ seen see t)) o u
unfolding do_send_key2 get_attrs send_by hid_svc keys_seen
do_send_key2-unseen attr_read fuel mtu env finds key b t =
    let see = keys_seen attr_read fuel mtu in
    let unseen : Outcome (ℤ × Ble) → Trace → Type 0 =
      Ends (λ r v. (r.0 ≡ pos 0) × (seen see v ≡ none ∷ none ∷ seen see t)) in
    run-Holds (FindsFirst attr_read) unseen env finds (do_send_key2 key b) t
      λ found e. rw e (λ sent _ later _ sent' _. (refl, refl))
