-- ===== src/Ble/AdvData/Shown.antt =====
-- What a scanner sees of an advertisement of src/ble_rc.c.
use esp32s3_szpi_sta.Base.{
  Bool-cases, inl, inr, ℕ, zero, suc, ◌≤◌, ◌≡◌, refl, ap, Option, none, some, true, List, [], ◌∷◌,
  ◌++◌, ◌==◌, if◌then◌else◌, length, take, drop, arith, length-append, take-append, drop-append,
  length-take,
}
use esp32s3_szpi_sta.Ble.State.{Addr, Ble}
use esp32s3_szpi_sta.Ble.Adv.{adv_timeout, adv_param, on_connected, note_peer, update_fe_data}
use esp32s3_szpi_sta.Ble.AdvData.{BtData, adv_ad, adv_sd, ad, sd, ad_wakeup}
use esp32s3_szpi_sta.Zephyr.Calls.{bt, conn_get_dst}
use esp32s3_szpi_sta.Zephyr.Prog.{Trace, Env, run, Holds}
use esp32s3_szpi_sta.Zephyr.Holds.{Admits, Answers, Ends, run-Holds, Holds-weaken}

-- the bytes on air: for each structure its length with the type, the type, and the data
abbrev pub on_air : List BtData → List ℕ
on_air [] = []
on_air (d ∷ ds) = suc (length d.bytes) ∷ d.type ∷ (d.bytes ++ on_air ds)

-- the structures of a payload; a length of 0 ends it
abbrev pub structures : ℕ → List ℕ → List BtData
structures zero bs = []
structures (suc fuel) (suc n ∷ type ∷ bs) =
    record { type = type; bytes = take n bs } ∷ structures fuel (drop n bs)
structures (suc fuel) _ = []

-- the data of the first structure of a type
abbrev pub data_of : ℕ → List BtData → Option (List ℕ)
data_of type [] = none
data_of type (d ∷ ds) = let rest = data_of type ds in if d.type == type then some d.bytes else rest

-- A scanner reads the structures as they were given, in a payload of at most 31 bytes.
abbrev pub IsReadable : List BtData → Type 0
IsReadable ds = (length (on_air ds) ≤ 31) × (structures 31 (on_air ds) ≡ ds)

three-IsReadable : (fe : List ℕ) → length fe ≡ 3 → IsReadable (ad_wakeup fe)
unfolding ad_wakeup
three-IsReadable (a ∷ b ∷ c ∷ []) e = (omega arith, refl)
three-IsReadable [] e = absurd (omega arith)
three-IsReadable (a ∷ []) e = absurd (omega arith)
three-IsReadable (a ∷ b ∷ []) e = absurd (omega arith)
three-IsReadable (a ∷ b ∷ c ∷ d ∷ fe) e = absurd (omega arith)

name-IsReadable : (name : List ℕ) → length name ≤ 29 → IsReadable (sd name)
unfolding sd
name-IsReadable name h =
    (omega (arith, length-append name []), rw (take-append name [], drop-append name []) refl)

ad-IsReadable : IsReadable ad
unfolding ad
ad-IsReadable = (omega arith, refl)

-- `bt_conn_get_dst` gives the address of the peer
abbrev pub PeerIs : Addr → Admits
PeerIs addr t (bt conn_get_dst) found = found ≡ some addr
PeerIs addr _ _ _ = Unit

-- what the wakeup advertisement shows
abbrev pub IsShown : List ℕ → List ℕ → Ble → Trace → Type 0
IsShown device_name peer b v =
    let param = adv_param (record b { wakeup_adv_mode = true }) in
    IsReadable (adv_ad param)
    × IsReadable (adv_sd device_name param)
    × (data_of 0xfe (adv_ad param) ≡ some (take 3 peer))

shown :
    (device_name : List ℕ) (addr : Addr) (b : Ble) (v : Trace)
    → length device_name ≤ 29
    → length addr.val ≡ 6
    → b.fe_data ≡ take 3 addr.val
    → IsShown device_name addr.val b v
unfolding adv_param adv_ad adv_sd ad_wakeup
shown device_name addr b v n six e = (
  three-IsReadable b.fe_data (rw e (let l = length-take 3 addr.val in omega arith)),
  name-IsReadable device_name n,
  ap some e,
)

connected-fe_data :
    (addr : Addr) (err : ℕ) (b : Ble) (t : Trace)
    → Holds (PeerIs addr) (on_connected err b) t (Ends (λ b' v. b'.fe_data ≡ take 3 addr.val))
unfolding on_connected note_peer update_fe_data
connected-fe_data addr err b t = λ dst e. rw e (elim (Bool-cases (err == 0)) [
  | inl ok ↦ rw ok (λ _ _ _ _. refl)
  | inr bad ↦ rw bad (elim (Bool-cases (err == adv_timeout)) [
    | inl over ↦ rw over (λ _ _. refl)
    | inr not_over ↦ rw not_over refl
  ])
])

-- After a connection with a peer, or an attempt that failed, a wakeup advertisement shows, in a
-- structure of type 0xfe, the first three bytes of the peer's address; and a scanner reads it and its
-- scan response as they were given, in at most 31 bytes each. The address has six bytes, and the name
-- of the device at most 29.
pub on_connected-shown :
    (env : Env) (addr : Addr) (device_name : List ℕ) (err : ℕ) (b : Ble) (t : Trace)
    → Answers (PeerIs addr) env
    → length addr.val ≡ 6
    → length device_name ≤ 29
    → let (o, u) = run env (on_connected err b) t in Ends (IsShown device_name addr.val) o u
on_connected-shown env addr device_name err b t peer six n =
    run-Holds (PeerIs addr) (Ends (IsShown device_name addr.val)) env peer (on_connected err b) t (
      Holds-weaken (PeerIs addr) (λ b' v. b'.fe_data ≡ take 3 addr.val)
        (IsShown device_name addr.val) (on_connected err b) t
        (λ b' v e. shown device_name addr b' v n six e) (connected-fe_data addr err b t))
