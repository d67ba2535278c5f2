-- ===== src/Rpc/Keyed.antt =====
-- Requests in which every parameter has a key.
use mathlib.Core.Path.{subst}
use esp32s3_szpi_sta.Base.{
  ℕ, ◌≡◌, refl, inl, inr, Bool-cases, Option-cases, Option, none, some, List, [], ◌∷◌, str_eq,
}
use esp32s3_szpi_sta.Zephyr.Prog.{ret}
use esp32s3_szpi_sta.Rpc.{Parameter, get_v_by_k}

abbrev pub IsGiven : Option (List ℕ) → Type 0
IsGiven none = ⊥
IsGiven (some k) = Unit

abbrev pub HasKey : Parameter → Type 0
HasKey para = IsGiven para.k

abbrev pub HaveKeys : List Parameter → Type 0
HaveKeys [] = Unit
HaveKeys (para ∷ paras) = HasKey para × HaveKeys paras

-- the search finds something or nothing, and compares no null pointer
pub HaveKeys-get_v :
    (paras : List Parameter) (key : List ℕ)
    → HaveKeys paras
    → (o : Option (List ℕ)) × (get_v_by_k paras key ≡ ret o)
unfolding get_v_by_k
HaveKeys-get_v [] key h = (none, refl)
HaveKeys-get_v (para ∷ paras) key (h, hs) = elim (Option-cases para.k) [
  | inl e ↦ absurd (subst IsGiven e h)
  | inr (k, e) ↦ elim (Bool-cases (str_eq k key)) [
    | inl m ↦ (para.v, rw e (rw m refl))
    | inr m ↦ let (o, found) = HaveKeys-get_v paras key hs in (o, rw e (rw m found))
  ]
]
