-- ===== src/Lfs/Printed.antt =====
-- The text that `print_pattern` of src/lfs.c prints, and how it is read back.
use esp32s3_szpi_sta.Base.{
  ℕ, zero, suc, ◌+◌, ◌-◌, ◌*◌, ◌/◌, ◌%◌, ◌<◌, ◌≡◌, refl, sym, ap, ◌∙◌, Bool, true, false, ◌||◌,
  List, [], ◌∷◌, ◌++◌, length, ◌==◌, if◌then◌else◌, arith, append_assoc, append-nil,
}
use esp32s3_szpi_sta.Lfs.{byte_at}
use esp32s3_szpi_sta.Sha256.{hex_digit}
use esp32s3_szpi_sta.Sha256.Hex.{digit_value, digit_value-hex_digit, AreBytes}

-- `%02x`
unfoldable pub two_digits : ℕ → List ℕ
two_digits b = hex_digit (b / 16) ∷ hex_digit (b % 16) ∷ []

-- `%02x ` for `n` bytes from the `i`th on
unfoldable pub spaced : ℕ → ℕ → List ℕ → List ℕ
spaced zero i p = []
spaced (suc n) i p = two_digits (byte_at p i) ++ (b' ' ∷ spaced n (i + 1) p)

abbrev newline : ℕ
newline = 10

-- the loop over the lines, for that many rounds, with an empty line behind each 512 bytes
unfoldable pub lines : ℕ → ℕ → ℕ → List ℕ → List ℕ
lines zero k i p = []
lines (suc rounds) k i p =
    spaced 15 i p
    ++ (two_digits (byte_at p (i + 15))
        ++ ((newline ∷ (if (k + 1) % 32 == 0 then newline ∷ [] else []))
            ++ lines rounds (k + 1) (i + 16) p))

-- the text for the whole of `p`, whose length is `size`
unfoldable pub print_pattern : List ℕ → List ℕ
print_pattern p =
    let j = length p / 16 in
    lines j 0 0 p ++ (spaced (length p - j * 16) (j * 16) p ++ (newline ∷ []))

abbrev is_blank : ℕ → Bool
is_blank c = c == b' ' || c == newline

-- the bytes that pairs of digits stand for, with blanks between them
unfoldable pub read_text : List ℕ → List ℕ
read_text [] = []
read_text (a ∷ []) = []
read_text (a ∷ b ∷ cs) = elim (is_blank a) [
  | true ↦ read_text (b ∷ cs)
  | false ↦ (digit_value a * 16 + digit_value b) ∷ read_text cs
]

hex_digit-not_blank : (n : ℕ) → n < 16 → is_blank (hex_digit n) ≡ false
unfolding hex_digit
hex_digit-not_blank n h = ground arith

read_text-pair :
    (a b : ℕ) (cs : List ℕ)
    → is_blank a ≡ false
    → read_text (a ∷ b ∷ cs) ≡ (digit_value a * 16 + digit_value b) ∷ read_text cs
unfolding read_text
read_text-pair a b cs e = rw (read_text, e) refl

read_text-two_digits :
    (b : ℕ) (xs : List ℕ) → b < 256 → read_text (two_digits b ++ xs) ≡ b ∷ read_text xs
unfolding two_digits
read_text-two_digits b xs h =
    let high = digit_value-hex_digit (b / 16) (omega arith) in
    let low = digit_value-hex_digit (b % 16) (omega arith) in
    read_text-pair _ _ xs (hex_digit-not_blank (b / 16) (omega arith))
    ∙ ap (λ x. x ∷ read_text xs) (omega arith)

read_text-blank : (c : ℕ) (xs : List ℕ) → is_blank c ≡ true → read_text (c ∷ xs) ≡ read_text xs
unfolding read_text
read_text-blank c [] h = refl
read_text-blank c (x ∷ xs) h = rw (read_text, h) refl

-- the bytes that are printed, `n` of them from the `i`th on
abbrev picks : ℕ → ℕ → List ℕ → List ℕ
picks zero i p = []
picks (suc n) i p = byte_at p i ∷ picks n (i + 1) p

picks-next : (n i : ℕ) (x : ℕ) (p : List ℕ) → picks n (suc i) (x ∷ p) ≡ picks n i p
picks-next zero i x p = refl
picks-next (suc n) i x p =
    let e : suc i + 1 ≡ suc (i + 1) = omega arith in
    ap (λ ys. byte_at p i ∷ ys) (ap (λ k. picks n k (x ∷ p)) e ∙ picks-next n (i + 1) x p)

picks-all : (p : List ℕ) → picks (length p) 0 p ≡ p
picks-all [] = refl
picks-all (x ∷ p) = ap (λ ys. x ∷ ys) (picks-next (length p) 0 x p ∙ picks-all p)

picks-add : (m n i : ℕ) (p : List ℕ) → picks (m + n) i p ≡ picks m i p ++ picks n (i + m) p
picks-add zero n i p =
    let e : 0 + n ≡ n = omega arith in
    let f : i ≡ i + 0 = omega arith in ap (λ k. picks k i p) e ∙ ap (λ k. picks n k p) f
picks-add (suc m) n i p =
    let e : suc m + n ≡ suc (m + n) = omega arith in
    let f : i + 1 + m ≡ i + suc m = omega arith in
    ap (λ k. picks k i p) e
    ∙ ap (λ ys. byte_at p i ∷ ys)
        (picks-add m n (i + 1) p ∙ ap (λ k. picks m (i + 1) p ++ picks n k p) f)

byte_at-lt : (p : List ℕ) (i : ℕ) → AreBytes p → byte_at p i < 256
byte_at-lt [] i h = omega arith
byte_at-lt (b ∷ p) zero h = h.0
byte_at-lt (b ∷ p) (suc i) h = byte_at-lt p i h.1

read_text-spaced :
    (n i : ℕ) (p xs : List ℕ)
    → AreBytes p
    → read_text (spaced n i p ++ xs) ≡ picks n i p ++ read_text xs
unfolding spaced two_digits
read_text-spaced zero i p xs h = refl
read_text-spaced (suc n) i p xs h =
    read_text-two_digits (byte_at p i) _ (byte_at-lt p i h)
    ∙ ap (λ ys. byte_at p i ∷ ys)
        (read_text-blank b' ' (spaced n (i + 1) p ++ xs) refl ∙ read_text-spaced n (i + 1) p xs h)

read_text-break :
    (last : Bool) (xs : List ℕ)
    → read_text ((newline ∷ (if last then newline ∷ [] else [])) ++ xs) ≡ read_text xs
read_text-break true xs =
    read_text-blank newline (newline ∷ xs) refl ∙ read_text-blank newline xs refl
read_text-break false xs = read_text-blank newline xs refl

-- a line, and what follows it
picks-line :
    (rounds i : ℕ) (p r : List ℕ)
    → picks 15 i p ++ (byte_at p (i + 15) ∷ (picks (rounds * 16) (i + 16) p ++ r))
      ≡ picks (suc rounds * 16) i p ++ r
picks-line rounds i p r =
    let n = rounds * 16 in
    let e : i + 16 ≡ i + 15 + 1 = omega arith in
    let f : 15 + suc n ≡ suc rounds * 16 = omega arith in
    ap (λ k. picks 15 i p ++ (byte_at p (i + 15) ∷ (picks n k p ++ r))) e
    ∙ sym (append_assoc (picks 15 i p) (byte_at p (i + 15) ∷ picks n (i + 15 + 1) p) r)
    ∙ ap (λ ys. ys ++ r) (sym (picks-add 15 (suc n) i p))
    ∙ ap (λ m. picks m i p ++ r) f

read_text-lines :
    (rounds k i : ℕ) (p xs : List ℕ)
    → AreBytes p
    → read_text (lines rounds k i p ++ xs) ≡ picks (rounds * 16) i p ++ read_text xs
unfolding lines
read_text-lines zero k i p xs h = refl
read_text-lines (suc rounds) k i p xs h =
    let last = (k + 1) % 32 == 0 in
    simp append_assoc (
      read_text-spaced 15 i p _ h
      ∙ ap (λ ys. picks 15 i p ++ ys)
          (read_text-two_digits (byte_at p (i + 15)) _ (byte_at-lt p (i + 15) h)
            ∙ ap (λ ys. byte_at p (i + 15) ∷ ys)
                (read_text-break last (lines rounds (k + 1) (i + 16) p ++ xs)
                  ∙ read_text-lines rounds (k + 1) (i + 16) p xs h))
      ∙ picks-line rounds i p (read_text xs))

-- Reading back what is printed of an array of bytes gives every byte, once and in order.
pub print_pattern-read : (p : List ℕ) → AreBytes p → read_text (print_pattern p) ≡ p
unfolding print_pattern read_text
print_pattern-read p h =
    let j = length p / 16 in
    let n = length p - j * 16 in
    let zero_on : j * 16 ≡ 0 + j * 16 = omega arith in
    let whole : j * 16 + n ≡ length p = omega arith in
    read_text-lines j 0 0 p (spaced n (j * 16) p ++ (newline ∷ [])) h
    ∙ ap (λ ys. picks (j * 16) 0 p ++ ys)
        (read_text-spaced n (j * 16) p (newline ∷ []) h
          ∙ append-nil (picks n (j * 16) p)
          ∙ ap (λ k. picks n k p) zero_on)
    ∙ sym (picks-add (j * 16) n 0 p)
    ∙ ap (λ m. picks m 0 p) whole
    ∙ picks-all p
