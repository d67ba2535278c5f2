-- ===== src/Base/Text.antt =====
-- The C library's comparisons and conversions of 0-terminated strings, over the bytes before the 0.
use Prim.Native.Nat.{ℕ, zero, suc, ◌+◌, ◌-◌, ◌*◌}
use mathlib.Core.Bool.{Bool, true, false, ◌&&◌, ◌||◌}
use mathlib.Core.List.{List, [], ◌∷◌}
use esp32s3_szpi_sta.Base.Tests.{ltb, leb, ◌==◌, if◌then◌else◌}
use esp32s3_szpi_sta.Base.Int.{ℤ, pos, neg}

-- `strcmp(a, b) == 0`
abbrev pub str_eq : List ℕ → List ℕ → Bool
str_eq [] [] = true
str_eq [] (y ∷ ys) = false
str_eq (x ∷ xs) [] = false
str_eq (x ∷ xs) (y ∷ ys) = x == y && str_eq xs ys

-- `strncmp(a, b, n) == 0`: the first `n` characters, and none behind a 0
abbrev pub strn_eq : ℕ → List ℕ → List ℕ → Bool
strn_eq zero xs ys = true
strn_eq (suc n) [] [] = true
strn_eq (suc n) [] (y ∷ ys) = false
strn_eq (suc n) (x ∷ xs) [] = false
strn_eq (suc n) (x ∷ xs) (y ∷ ys) = x == y && strn_eq n xs ys

-- `isspace`
abbrev is_space : ℕ → Bool
is_space c = c == 32 || (leb 9 c && leb c 13)

abbrev is_digit : ℕ → Bool
is_digit c = leb 48 c && leb c 57

-- the value of the digits at the front, behind `n`
abbrev pub decimal : ℕ → List ℕ → ℕ
decimal n [] = n
decimal n (c ∷ cs) = let rest = decimal (n * 10 + (c - 48)) cs in if is_digit c then rest else n

abbrev pub skip_spaces : List ℕ → List ℕ
skip_spaces [] = []
skip_spaces (c ∷ cs) = let rest = skip_spaces cs in if is_space c then rest else c ∷ cs

abbrev signed : List ℕ → ℤ
signed [] = pos 0
signed (c ∷ cs) =
    if c == b'-'
    then neg (decimal 0 cs)
    else if c == b'+'
    then pos (decimal 0 cs)
    else pos (decimal 0 (c ∷ cs))

-- `atoi`, where the value fits an `int`
unfoldable pub atoi : List ℕ → ℤ
atoi s = signed (skip_spaces s)

-- the value of a digit of base 16, or 16 for none
abbrev hex_value : ℕ → ℕ
hex_value c =
    if is_digit c
    then c - 48
    else if leb 97 c && leb c 102
    then c - 87
    else if leb 65 c && leb c 70
    then c - 55
    else 16

abbrev hex_digits : ℕ → List ℕ → ℕ
hex_digits n [] = n
hex_digits n (c ∷ cs) =
    let rest = hex_digits (n * 16 + hex_value c) cs in if hex_value c == 16 then n else rest

-- `0x` is skipped only in front of a digit
abbrev hex_prefix : List ℕ → ℕ
hex_prefix (z ∷ x ∷ d ∷ cs) =
    if z == b'0' && (x == b'x' || x == b'X') && ltb (hex_value d) 16
    then hex_digits 0 (d ∷ cs)
    else hex_digits 0 (z ∷ x ∷ d ∷ cs)
hex_prefix cs = hex_digits 0 cs

abbrev hex_signed : List ℕ → ℤ
hex_signed [] = pos 0
hex_signed (c ∷ cs) =
    if c == b'-'
    then neg (hex_prefix cs)
    else if c == b'+'
    then pos (hex_prefix cs)
    else pos (hex_prefix (c ∷ cs))

-- `strtol(s, NULL, 16)`, where the value fits a `long`
unfoldable pub strtol16 : List ℕ → ℤ
strtol16 s = hex_signed (skip_spaces s)
