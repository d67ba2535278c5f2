-- ===== src/Ble/Keys/Reports.antt =====
-- What a key press notifies, and what a peer can write.
use esp32s3_szpi_sta.Base.{
  ℕ, ◌+◌, ◌≤◌, ◌<◌, ◌≡◌, refl, ◌⊎◌, inl, inr, List, [], ◌∷◌, ◌++◌, ℤ, pos, negsuc, neg, take, drop,
  replicate, length, ltb, ltb→lt, ltb→ge, strtol16, Bool-cases, arith, length-append, length-take,
  length-drop, append_assoc, drop-append_of_length, take-append,
}
use esp32s3_szpi_sta.Ble.State.{Ble}
use esp32s3_szpi_sta.Zephyr.Calls.{bt, notify}
use esp32s3_szpi_sta.Zephyr.Prog.{Trace, Env, run}
use esp32s3_szpi_sta.Zephyr.Holds.{Ends}
use esp32s3_szpi_sta.Ble.Keys.{
  send_by, write_ctrl_point, invalid_offset, pressed, do_send_key, to_u8, cmd_send_key,
}

-- the reports sent, the newest first
abbrev pub notified : Trace → List (List ℕ)
notified [] = []
notified ((bt (notify i report), r) ∷ t) = report ∷ notified t
notified (_ ∷ t) = notified t

module _ (offset : ℕ) (buf old : List ℕ) (near : offset + length buf ≤ length old) where
  pub length-overwrite :
      length (take offset old ++ buf ++ drop (offset + length buf) old) ≡ length old
  length-overwrite =
      let front = length-append (take offset old) buf in
      let back = length-append (take offset old ++ buf) (drop (offset + length buf) old) in
      let l = length-take offset old in let r = length-drop (offset + length buf) old in omega arith

  take-overwrite :
      take (length buf) (drop offset (take offset old ++ buf ++ drop (offset + length buf) old))
      ≡ buf
  take-overwrite =
      let l = length-take offset old in
      rw (append_assoc (take offset old) buf (drop (offset + length buf) old)) (
        rw
          (drop-append_of_length offset (take offset old) (buf ++ drop (offset + length buf) old)
            (omega arith))
          (take-append buf _))

-- A write by the peer either is refused, where it would pass the end of the control point, and
-- changes nothing, or it puts the bytes at their offset; the size stays as it is.
pub write_ctrl_point_lem :
    (buf : List ℕ) (offset : ℕ) (b : Ble)
    → ((length b.ctrl_point < offset + length buf)
        × (write_ctrl_point buf offset b ≡ (invalid_offset, b)))
      ⊎ ((offset + length buf ≤ length b.ctrl_point)
          × ((write_ctrl_point buf offset b).0 ≡ pos (length buf))
          × (length (write_ctrl_point buf offset b).1.ctrl_point ≡ length b.ctrl_point)
          × (take (length buf) (drop offset (write_ctrl_point buf offset b).1.ctrl_point) ≡ buf))
unfolding write_ctrl_point
write_ctrl_point_lem buf offset b =
    elim (Bool-cases (ltb (length b.ctrl_point) (offset + length buf))) [
      | inl far ↦ rw far (inl (ltb→lt _ _ far, refl))
      | inr near ↦ rw near (
          inr (
            ltb→ge _ _ near,
            refl,
            length-overwrite offset buf b.ctrl_point (ltb→ge _ _ near),
            take-overwrite offset buf b.ctrl_point (ltb→ge _ _ near),
          ))
    ]

pub to_u8-lt : (v : ℤ) → to_u8 v < 256
unfolding to_u8
to_u8-lt (pos n) = omega arith
to_u8-lt (negsuc n) = omega arith

-- `send_key` with fewer than two arguments notifies nothing and fails with -EINVAL. With more it
-- gives 0 and notifies two reports: one whose third byte is a key below 256 and all others 0, and
-- then one of zeros, which is the report that it leaves behind.
pub cmd_send_key_reports :
    (env : Env) (args : List (List ℕ)) (b : Ble) (t : Trace)
    → let (o, u) = run env (cmd_send_key args b) t in
      Ends
        (λ r v.
          ((length args < 2) × (r ≡ (neg 22, b)) × (v ≡ t))
          ⊎ ((2 ≤ length args)
              × (r.0 ≡ pos 0)
              × (r.1.report_val ≡ replicate 8 0)
              × (key : ℕ) × (key < 256)
              × (notified v ≡ replicate 8 0 ∷ (0 ∷ 0 ∷ key ∷ replicate 5 0) ∷ notified t)))
        o
        u
unfolding cmd_send_key do_send_key send_by pressed run
cmd_send_key_reports env [] b t = inl (omega arith, refl, refl)
cmd_send_key_reports env (cmd ∷ []) b t = inl (omega arith, refl, refl)
cmd_send_key_reports env (cmd ∷ key ∷ args) b t =
    inr (omega arith, refl, refl, to_u8 (strtol16 key), to_u8-lt (strtol16 key), refl)
