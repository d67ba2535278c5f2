-- ===== src/Ble/Threads/Requests.antt =====
-- A request of the server keeps every invariant that the advertising keeps.
use esp32s3_szpi_sta.Base.{
  ℕ, inl, inr, List, Bool-cases, Option-cases, is_neg, atoi, strn_eq, str_eq, codes,
}
use esp32s3_szpi_sta.Ble.State.{Ble}
use esp32s3_szpi_sta.Zephyr.Prog.{Prog, Trace}
use esp32s3_szpi_sta.Ble.Adv.{stop_command}
use esp32s3_szpi_sta.Rpc.{
  Parameter, Parse, required, get_v_by_k, ble_adv, func_ble_adv, route, rpc_execute,
}
use esp32s3_szpi_sta.Rpc.Keyed.{HaveKeys, HaveKeys-get_v}
use esp32s3_szpi_sta.Ble.Interleave.{Keeps}
use esp32s3_szpi_sta.Ble.Threads.Effects.{Moves}
use esp32s3_szpi_sta.Zephyr.Holds.{Admits}
use esp32s3_szpi_sta.Ble.Threads.Adverts.{stop-Keeps, try_start-Keeps}

module _ {D : Admits} {P : Ble → Trace → Type 0} (M : Moves D P) where
  required-Keeps :
      (paras : List Parameter) (key : List ℕ) (b : Ble) (t : Trace) (body : List ℕ → Prog Ble)
      → HaveKeys paras
      → P b t
      → ((v : List ℕ) → Keeps D P (body v) t)
      → Keeps D P (required (get_v_by_k paras) key b body) t
  required-Keeps paras key b t body h m next =
      let (o, found) = HaveKeys-get_v paras key h in
      rw found (elim (Option-cases o) [ inl e ↦ rw e m | inr (v, e) ↦ rw e (next v) ])

  ble_adv-Keeps :
      (paras : List Parameter) (b : Ble) (t : Trace)
      → HaveKeys paras
      → P b t
      → Keeps D P (func_ble_adv paras b) t
  unfolding func_ble_adv ble_adv stop_command
  ble_adv-Keeps paras b t h m = required-Keeps paras (codes "op") b t _ h m λ op.
      elim (Bool-cases (strn_eq 5 op (codes "start"))) [
        | inl e ↦ rw e (
            required-Keeps paras (codes "duration") b t _ h m λ duration.
              required-Keeps paras (codes "mode") b t _ h m
                λ mode. try_start-Keeps M _ (atoi duration) b t m)
        | inr e ↦ rw e (elim (Bool-cases (strn_eq 5 op (codes "stop"))) [
          | inl e' ↦ rw e' (stop-Keeps M _ b t m (λ r v n. n))
          | inr e' ↦ rw e' m
        ])
      ]

  pub rpc-Keeps :
      (parse : Parse) (json : List ℕ) (b : Ble) (t : Trace)
      → HaveKeys (parse json).1.paras
      → P b t
      → Keeps D P (rpc_execute parse json b) t
  unfolding rpc_execute route
  rpc-Keeps parse json b t h m = elim (Bool-cases (is_neg (parse json).0)) [
    | inl e ↦ rw e m
    | inr e ↦ rw e (elim (Option-cases (parse json).1.func) [
      | inl f ↦ rw f m
      | inr (func, f) ↦ rw f (elim (Bool-cases (str_eq func (codes "ble_adv"))) [
        | inl r ↦ rw r (ble_adv-Keeps (parse json).1.paras b t h m)
        | inr r ↦ rw r m
      ])
    ])
  ]
