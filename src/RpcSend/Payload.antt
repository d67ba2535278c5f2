-- ===== src/RpcSend/Payload.antt =====
-- The parameters of a message.
use esp32s3_szpi_sta.Base.{
  ℕ, zero, suc, ◌-◌, ◌≡◌, refl, sym, ap, ◌∙◌, inl, inr, List, [], ◌∷◌, ◌++◌, length, take, leb,
  Bool-cases, arith, append-nil, append_assoc, length-append,
}
use esp32s3_szpi_sta.RpcSend.{ParaItem, MsgPayload, max_paras_count, payload_paras_add}

-- the items added one after the other
abbrev pub add_all : MsgPayload → List ParaItem → MsgPayload
add_all payload [] = payload
add_all payload (item ∷ items) = add_all (payload_paras_add payload item.k item.v).1 items

take-zero : (n : ℕ) (items : List ParaItem) → n ≡ 0 → take n items ≡ []
take-zero zero items e = refl
take-zero (suc n) items e = absurd (omega arith)

take-nil : (n : ℕ) → take {A = ParaItem} n [] ≡ []
take-nil zero = refl
take-nil (suc n) = refl

take-zero-eq : (n : ℕ) (xs ys : List ParaItem) → n ≡ 0 → take n xs ≡ take n ys
take-zero-eq n xs ys e = take-zero n xs e ∙ sym (take-zero n ys e)

-- Items added to a message are kept in their order, up to ten in all; items behind those leave its
-- parameters as they are.
pub add_all-paras :
    (payload : MsgPayload) (items : List ParaItem)
    → (add_all payload items).paras
      ≡ payload.paras ++ take (max_paras_count - length payload.paras) items
unfolding payload_paras_add
add_all-paras payload [] =
    sym (append-nil payload.paras)
    ∙ ap (λ xs. payload.paras ++ xs) (sym (take-nil (max_paras_count - length payload.paras)))
add_all-paras payload (item ∷ items) =
    elim (Bool-cases (leb max_paras_count (length payload.paras))) [
      | inl e ↦
          let none_left : max_paras_count - length payload.paras ≡ 0 = ground arith in
          simp (e) (
            add_all-paras payload items
            ∙ ap (λ xs. payload.paras ++ xs) (take-zero-eq _ items (item ∷ items) none_left))
      | inr e ↦
          let longer = length-append payload.paras (item ∷ []) in
          let left : max_paras_count - length payload.paras
              ≡ suc (max_paras_count - length (payload.paras ++ (item ∷ []))) =
            ground (arith, longer) in
          rw left (
            simp (e) (
              add_all-paras (record payload { paras = payload.paras ++ (item ∷ []) }) items
              ∙ append_assoc payload.paras (item ∷ []) _))
    ]
