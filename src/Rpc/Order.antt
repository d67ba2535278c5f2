-- ===== src/Rpc/Order.antt =====
-- The order of the parameters of a request.
use mathlib.Core.Path.{subst, fun_ext}
use mathlib.Core.List.{Permᴰ as Perm}
use mathlib.Core.List.Permᴰ.{nil, cons, swap, trans}
use esp32s3_szpi_sta.Base.{
  ℕ, ◌+◌, ◌≤◌, ◌≡◌, refl, sym, ap, ◌∙◌, inl, inr, Bool, true, false, none, some, List, [], ◌∷◌,
  is_neg, codes, str_eq, if◌then◌else◌, Bool-cases, arith,
}
use esp32s3_szpi_sta.Ble.State.{Ble}
use esp32s3_szpi_sta.Zephyr.Prog.{ret}
use esp32s3_szpi_sta.Rpc.Keyed.{HasKey, HaveKeys}
use esp32s3_szpi_sta.Rpc.{Parameter, Parse, get_v_by_k, func_ble_adv, ble_adv, route, rpc_execute}

-- whether the parameter has that key
abbrev pub has_key : List ℕ → Parameter → Bool
has_key key para = elim para.k [ none ↦ false | some k ↦ str_eq k key ]

abbrev pub count_key : List ℕ → List Parameter → ℕ
count_key key [] = 0
count_key key (para ∷ paras) = (if has_key key para then 1 else 0) + count_key key paras

-- each parameter has a key, and no two have the same one
abbrev pub AreDistinct : List Parameter → Type 0
AreDistinct paras = HaveKeys paras × ((key : List ℕ) → count_key key paras ≤ 1)

count_key-Perm :
    (key : List ℕ) {xs ys : List Parameter} → Perm xs ys → count_key key xs ≡ count_key key ys
count_key-Perm key nil = refl
count_key-Perm key (cons {b} e p) = rw e (omega (arith, count_key-Perm key p))
count_key-Perm key (swap e e') = rw e (rw e' (omega arith))
count_key-Perm key (trans p q) = count_key-Perm key p ∙ count_key-Perm key q

HaveKeys-Perm : {xs ys : List Parameter} → Perm xs ys → HaveKeys xs → HaveKeys ys
HaveKeys-Perm nil h = h
HaveKeys-Perm (cons e p) (h, hs) = rw⁻¹ e (h, HaveKeys-Perm p hs)
HaveKeys-Perm (swap e e') (h, (h', hs)) = rw⁻¹ e (rw⁻¹ e' (h', (h, hs)))
HaveKeys-Perm (trans p q) h = HaveKeys-Perm q (HaveKeys-Perm p h)

AreDistinct-Perm : {xs ys : List Parameter} → Perm xs ys → AreDistinct xs → AreDistinct ys
AreDistinct-Perm p (h, d) = (HaveKeys-Perm p h, λ key. omega (arith, count_key-Perm key p, d key))

get_v-has :
    (key : List ℕ) (para : Parameter) (paras : List Parameter)
    → has_key key para ≡ true
    → get_v_by_k (para ∷ paras) key ≡ ret para.v
unfolding get_v_by_k
get_v-has key para paras h = ground arith

get_v-skip :
    (key : List ℕ) (para : Parameter) (paras : List Parameter)
    → HasKey para
    → has_key key para ≡ false
    → get_v_by_k (para ∷ paras) key ≡ get_v_by_k paras key
unfolding get_v_by_k
get_v-skip key para paras k h = ground arith

AreDistinct-tail :
    (para : Parameter) (paras : List Parameter) → AreDistinct (para ∷ paras) → AreDistinct paras
AreDistinct-tail para paras ((k, ks), d) = (ks, λ key. omega (arith, d key))

get_v-swap :
    (key : List ℕ) (a b : Parameter) (l : List Parameter)
    → AreDistinct (a ∷ b ∷ l)
    → get_v_by_k (a ∷ b ∷ l) key ≡ get_v_by_k (b ∷ a ∷ l) key
get_v-swap key a b l ((ka, (kb, kl)), d) = elim (Bool-cases (has_key key a)) [
  | inl ha ↦ elim (Bool-cases (has_key key b)) [
    | inl hb ↦ absurd (ground (arith, d key))
    | inr hb ↦ get_v-has key a _ ha ∙ sym (get_v-skip key b _ kb hb ∙ get_v-has key a _ ha)
  ]
  | inr ha ↦ elim (Bool-cases (has_key key b)) [
    | inl hb ↦ get_v-skip key a _ ka ha ∙ get_v-has key b _ hb ∙ sym (get_v-has key b _ hb)
    | inr hb ↦
        get_v-skip key a _ ka ha
        ∙ get_v-skip key b _ kb hb
        ∙ sym (get_v-skip key b _ kb hb ∙ get_v-skip key a _ ka ha)
  ]
]

get_v-Perm :
    {xs ys : List Parameter}
    → Perm xs ys
    → AreDistinct xs
    → (key : List ℕ) → get_v_by_k xs key ≡ get_v_by_k ys key
get_v-Perm nil d key = refl
get_v-Perm (cons {b} {l₁} {l₂} e p) d key = rw e (
    let d' = subst (λ x. AreDistinct (x ∷ l₁)) e d in
    elim (Bool-cases (has_key key b)) [
      | inl h ↦ get_v-has key b l₁ h ∙ sym (get_v-has key b l₂ h)
      | inr h ↦
          get_v-skip key b l₁ d'.0.0 h
          ∙ get_v-Perm p (AreDistinct-tail b l₁ d') key
          ∙ sym (get_v-skip key b l₂ d'.0.0 h)
    ])
get_v-Perm (swap {a} {b} {l} e e') d key = rw⁻¹ e (rw⁻¹ e' (get_v-swap key a b l d))
get_v-Perm (trans p q) d key = get_v-Perm p d key ∙ get_v-Perm q (AreDistinct-Perm p d) key

-- The order of a request's parameters does not matter: where two requests name the same function
-- with the same parameters in another order, where every parameter has a key, and where no two have
-- the same key, executing the one is executing the other.
pub rpc_execute-order :
    (parse : Parse) (json json' func : List ℕ) (b : Ble)
    → is_neg (parse json).0 ≡ is_neg (parse json').0
    → (parse json).1.func ≡ some func
    → (parse json').1.func ≡ some func
    → Perm (parse json).1.paras (parse json').1.paras
    → AreDistinct (parse json).1.paras
    → rpc_execute parse json b ≡ rpc_execute parse json' b
unfolding rpc_execute route func_ble_adv
rpc_execute-order parse json json' func b e f f' p d =
    let same : get_v_by_k (parse json).1.paras ≡ get_v_by_k (parse json').1.paras =
      fun_ext (get_v-Perm p d) in
    rw e (
      rw f (
        rw f' (
          ap
            (λ get.
              if is_neg (parse json').0
              then ret b
              else if str_eq func (codes "ble_adv")
              then ble_adv get b
              else ret b)
            same)))
