-- ===== src/Ble/Threads/Peers.antt =====
-- The callbacks of a connection and the HID service of src/ble_rc.c keep every invariant that their
-- calls and assignments keep.
use esp32s3_szpi_sta.Base.{
  refl, inl, inr, ℕ, none, some, false, List, [], ◌∷◌, ◌==◌, Bool-cases, strtol16,
}
use esp32s3_szpi_sta.Ble.State.{connected, disconnecte, security_lv_ok, Ble}
use esp32s3_szpi_sta.Ble.Adv.{
  on_connected, on_disconnected, note_peer, security_changed_cb, adv_timeout,
}
use esp32s3_szpi_sta.Ble.Keys.{cmd_send_key, do_send_key, send_by, to_u8}
use esp32s3_szpi_sta.Ble.Keys.Reports.{to_u8-lt}
use esp32s3_szpi_sta.Ble.Interleave.{Keeps}
use esp32s3_szpi_sta.Ble.Threads.Effects.{Moves}
use esp32s3_szpi_sta.Zephyr.Calls.{bt, adv_ended}
use esp32s3_szpi_sta.Zephyr.Prog.{ret, Trace, ◌>>=◌}
use esp32s3_szpi_sta.Zephyr.Holds.{Admits}

module _ {D : Admits} {P : Ble → Trace → Type 0} (M : Moves D P) where
  pub connected-Keeps :
      (err : ℕ) (b : Ble) (t : Trace)
      → P b t
      → Keeps D P (on_connected err b) ((bt adv_ended, tt) ∷ t)
  unfolding on_connected
  connected-Keeps err b t h = λ dst d.
      let off = record b { is_adv_running = false } in
      let b' = note_peer dst off in
      let k = M.noted dst off _ _ d (M.called off _ _ dst refl (M.adv_over b t h)) in
      elim (Bool-cases (err == 0)) [
        | inl e ↦ rw e (λ r _ r' _.
            M.linked connected b' _ (M.called b' _ _ r' refl (M.called b' _ _ r refl k)))
        | inr e ↦ rw e (elim (Bool-cases (err == adv_timeout)) [
          | inl e' ↦ rw e' (λ r _. M.called b' _ _ r refl k)
          | inr e' ↦ rw e' k
        ])
      ]

  pub disconnected-Keeps : (b : Ble) (t : Trace) → P b t → Keeps D P (on_disconnected b) t
  unfolding on_disconnected
  disconnected-Keeps b t h = elim [
    | none ↦ λ _. M.called b t _ none refl h
    | some addr ↦ λ _ r _.
        M.linked disconnecte b _ (M.called b _ _ r refl (M.called b t _ (some addr) refl h))
  ]

  pub security-Keeps : (err : ℕ) (b : Ble) (t : Trace) → P b t → P (security_changed_cb err b) t
  unfolding security_changed_cb
  security-Keeps err b t h = elim (Bool-cases (err == 0)) [
    | inl e ↦ rw e (M.linked security_lv_ok b t h)
    | inr e ↦ rw e h
  ]

  pub send_key-Keeps :
      (args : List (List ℕ)) (b : Ble) (t : Trace)
      → P b t
      → Keeps D P (cmd_send_key args b >>= λ r. ret r.1) t
  unfolding cmd_send_key do_send_key send_by
  send_key-Keeps [] b t h = h
  send_key-Keeps (cmd ∷ []) b t h = h
  send_key-Keeps (cmd ∷ key ∷ args) b t h = λ r _. (
    M.reported (to_u8 (strtol16 key)) b _ (to_u8-lt (strtol16 key)) (M.called b t _ r refl h),
    λ b' t' m r' _. M.unreported b' _ (M.called b' t' _ r' refl m),
  )
