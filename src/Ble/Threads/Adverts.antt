-- ===== src/Ble/Threads/Adverts.antt =====
-- The advertising of src/ble_rc.c keeps every invariant that its calls and assignments keep.
use esp32s3_szpi_sta.Base.{
  refl, inl, inr, Bool, false, none, ℤ, pos, negsuc, is_zero, foldl, Bool-cases,
}
use esp32s3_szpi_sta.Ble.State.{Ble}
use esp32s3_szpi_sta.Ble.Adv.{
  advertising_continue, advertising_process, advertising_start, advertising_stop, bond_find,
  try_advertising_start, try_unpair, cmd_delete_paired, adv_mode_switch_handler,
  adv_mode_switch_delay_work_cancle, is_disconnecte,
}
use esp32s3_szpi_sta.Ble.Interleave.{Keeps}
use esp32s3_szpi_sta.Ble.Threads.Effects.{Moves, bonds-Moves}
use esp32s3_szpi_sta.Zephyr.Prog.{Prog, ret, Trace, ◌>>=◌, bind-ret}
use esp32s3_szpi_sta.Zephyr.Holds.{Admits}

module _ {D : Admits} {P : Ble → Trace → Type 0} (M : Moves D P) where
  pub stop-Keeps :
      (f : ℤ × Ble → Prog Ble) (b : Ble) (t : Trace)
      → P b t
      → ((r : ℤ × Ble) (u : Trace) → P r.1 u → Keeps D P (f r) u)
      → Keeps D P (advertising_stop b >>= f) t
  unfolding advertising_stop
  stop-Keeps f b t h rest = elim (Bool-cases b.is_adv_running) [
    | inl on ↦ simp (on) (λ r d. elim (Bool-cases (is_zero r)) [
      | inl e ↦ simp (e) (rest (pos 0, _) _ (M.stopped b t r on e h))
      | inr e ↦ simp (e) (rest (negsuc 0, _) _ (M.not_stopped b t r on e h))
    ])
    | inr off ↦ simp (off) (rest _ _ h)
  ]

  start-Keeps :
      (f : Ble → Prog Ble) (b : Ble) (t : Trace)
      → P b t
      → ((b' : Ble) (u : Trace) → P b' u → Keeps D P (f b') u)
      → Keeps D P (advertising_start b >>= f) t
  unfolding advertising_start
  start-Keeps f b t h rest = λ bonds d.
      let b0 = record b { last_paired_addr = none } in
      let b1 = foldl bond_find b0 bonds in
      let found = bonds-Moves M b0 _ bonds (M.bonded none b _ (M.called b t _ bonds refl h)) in
      elim (Bool-cases b1.is_adv_running) [
        | inl on ↦ simp (on) (rest b1 _ found)
        | inr off ↦ simp (off) (λ r d'. rest b1 _ (M.called b1 _ _ r refl found))
      ]

  pub continue-Keeps : (b : Ble) (t : Trace) → P b t → Keeps D P (advertising_process b) t
  unfolding advertising_process advertising_continue
  continue-Keeps b t h = elim (Bool-cases b.is_adv_running) [
    | inl on ↦ simp (on) h
    | inr off ↦ simp (off) (λ r d. elim (Bool-cases (is_zero r)) [
      | inl e ↦ simp (e) (M.started b t _ _ r off e h)
      | inr e ↦ simp (e) (M.not_started b t _ _ r off e h)
    ])
  ]

  pub try_start-Keeps :
      (w : Bool) (time : ℤ) (b : Ble) (t : Trace)
      → P b t
      → Keeps D P (try_advertising_start w time b) t
  unfolding try_advertising_start
  try_start-Keeps w time b t h = λ r d.
      stop-Keeps _ (record b { wakeup_adv_mode = w }) _ (M.moded w b _ (M.called b t _ r refl h))
        λ s u k. (
          k,
          λ b' t' m. start-Keeps _ b' _ m λ b2 v n. elim (Bool-cases (is_zero time)) [
            | inl e ↦ rw e n
            | inr e ↦ rw e (λ r' d'. M.called b2 v _ r' refl n)
          ],
        )

  pub switch-Keeps : (b : Ble) (t : Trace) → P b t → Keeps D P (adv_mode_switch_handler b) t
  unfolding adv_mode_switch_handler
  switch-Keeps b t h = stop-Keeps _ b t h λ r u m. (
    m,
    λ b' t' m'.
        let b2 = record b' { wakeup_adv_mode = false } in
        let m2 = M.moded false b' t' m' in
        elim (Bool-cases (is_disconnecte b'.btrc_st)) [
          | inl e ↦
              rw e (rw (← bind-ret (advertising_start b2)) (start-Keeps ret b2 t' m2 (λ x v n. n)))
          | inr e ↦ rw e m2
        ],
  )

  pub delete_paired-Keeps : (b : Ble) (t : Trace) → P b t → Keeps D P (cmd_delete_paired b) t
  unfolding cmd_delete_paired try_unpair
  delete_paired-Keeps b t h =
      λ r d. stop-Keeps _ b _ (M.called b t _ r refl h) λ s u m. M.bonded none s.1 u m

  pub cancle-Keeps :
      (b : Ble) (t : Trace) → P b t → Keeps D P (adv_mode_switch_delay_work_cancle b) t
  unfolding adv_mode_switch_delay_work_cancle
  cancle-Keeps b t h = λ r d.
      stop-Keeps _ b _ (M.called b t _ r refl h) λ s u m. (m, λ b' t' m'. M.moded false b' t' m')
