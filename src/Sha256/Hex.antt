-- ===== src/Sha256/Hex.antt =====
-- The printed digest can be read back.
use esp32s3_szpi_sta.Base.{
  ℕ, ◌+◌, ◌-◌, ◌*◌, ◌/◌, ◌%◌, ◌<◌, ◌≡◌, refl, ap, List, [], ◌∷◌, ltb, if◌then◌else◌, arith, length,
}
use esp32s3_szpi_sta.Sha256.{hex_digit, sha256_str}

-- the value of a hexadecimal digit in lower case
abbrev pub digit_value : ℕ → ℕ
digit_value c = if ltb c 58 then c - 48 else c - 87

-- the bytes that a text of pairs of digits stands for
abbrev pub parse_hex : List ℕ → List ℕ
parse_hex (a ∷ b ∷ cs) = (digit_value a * 16 + digit_value b) ∷ parse_hex cs
parse_hex _ = []

abbrev pub AreBytes : List ℕ → Type 0
AreBytes [] = Unit
AreBytes (b ∷ bs) = (b < 256) × AreBytes bs

pub digit_value-hex_digit : (n : ℕ) → n < 16 → digit_value (hex_digit n) ≡ n
unfolding hex_digit
digit_value-hex_digit n h = ground arith

-- Reading the printed text back gives the bytes, and it has two digits for each byte.
pub parse_hex-sha256_str :
    (bs : List ℕ)
    → AreBytes bs
    → (parse_hex (sha256_str bs) ≡ bs) × (length (sha256_str bs) ≡ 2 * length bs)
unfolding sha256_str
parse_hex-sha256_str [] h = (refl, refl)
parse_hex-sha256_str (b ∷ bs) (h, hs) =
    let (back, two) = parse_hex-sha256_str bs hs in
    (
      rw
          (
            digit_value-hex_digit (b / 16) (omega arith),
            digit_value-hex_digit (b % 16) (omega arith),
            back,
          )
          (ap (λ x. x ∷ bs) (omega arith)),
      omega (arith, two),
    )
