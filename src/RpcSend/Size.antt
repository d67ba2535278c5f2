-- ===== src/RpcSend/Size.antt =====
-- The size of a message.
use esp32s3_szpi_sta.Base.{
  ℕ, zero, suc, Option, none, some, is_zero, ◌≤◌, ◌<◌, ◌≡◌, refl, ◌⊎◌, inl, inr, Bool, true, false,
  not, ◌||◌, List, [], ◌∷◌, ℤ, pos, negsuc, is_neg, length, if◌then◌else◌, Bool-cases, arith,
}
use esp32s3_szpi_sta.RpcSend.{
  MsgPayload, Encode, payload_to_josn_str, build, build_action_hello, build_status_ble_ready,
}

-- the text stays in the buffer that is offered
abbrev pub StaysIn : Encode → Type 0
StaysIn encode = (payload : MsgPayload) (n : ℕ) → length (encode payload n).1 ≤ n

-- a failure, or the length of a text that ends inside of the buffer
abbrev pub IsMessage : ℕ → ℤ × List ℕ → Type 0
IsMessage buf_len (rc, text) =
    (rc ≡ negsuc 0) ⊎ ((rc ≡ pos (length text)) × (length text < buf_len))

-- What a builder is to do: with a length that is not negative, a message; with a negative one it
-- fails with -1 if there is no buffer, and leaves the buffer otherwise.
abbrev pub IsBuilt : Bool → ℤ → Option (ℤ × List ℕ) → Type 0
IsBuilt has_buf (pos n) none = ⊥
IsBuilt has_buf (pos n) (some r) = IsMessage n r
IsBuilt false (negsuc n) r = r ≡ some (negsuc 0, [])
IsBuilt true (negsuc n) r = r ≡ none

guarded-IsBuilt :
    (encode : Encode) (func k v : List ℕ) (has_buf : Bool) (buf_len : ℤ)
    → StaysIn encode
    → IsBuilt has_buf buf_len (
        if not has_buf || is_zero buf_len
        then some (negsuc 0, [])
        else build encode func k v buf_len)
unfolding build payload_to_josn_str
guarded-IsBuilt encode func k v false (pos n) s = inl refl
guarded-IsBuilt encode func k v false (negsuc n) s = refl
guarded-IsBuilt encode func k v true (negsuc n) s = refl
guarded-IsBuilt encode func k v true (pos zero) s = inl refl
guarded-IsBuilt encode func k v true (pos (suc n)) s =
    let payload : MsgPayload = record { func = func; paras = record { k = k; v = v } ∷ [] } in
    let fits = s payload n in
    elim (Bool-cases (is_neg (encode payload n).0)) [
      | inl e ↦ rw e (inl refl)
      | inr e ↦ rw e (inr (refl, omega (arith, fits)))
    ]

-- Where the encoder's text stays in what it is offered, both messages, for a length that is not
-- negative, either fail with -1 or give the length of their text, and that text with its final 0 fits
-- the buffer. A negative length is not refused: with a buffer, it is cleared beyond its end.
pub builders-IsBuilt :
    (encode : Encode) (has_buf : Bool) (buf_len : ℤ)
    → StaysIn encode
    → IsBuilt has_buf buf_len (build_action_hello encode has_buf buf_len)
      × IsBuilt has_buf buf_len (build_status_ble_ready encode has_buf buf_len)
unfolding build_action_hello build_status_ble_ready
builders-IsBuilt encode has_buf buf_len s =
    (guarded-IsBuilt encode _ _ _ has_buf buf_len s, guarded-IsBuilt encode _ _ _ has_buf buf_len s)
