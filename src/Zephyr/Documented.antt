-- ===== src/Zephyr/Documented.antt =====
-- What the documentation of the called functions promises of their answers.
use esp32s3_szpi_sta.Base.{
  ℕ, ◌+◌, ◌^◌, ◌<◌, ◌≤◌, ◌≡◌, refl, sym, ap, ◌∙◌, false, List, [], ◌∷◌, ◌++◌, length, is_neg, arith,
  length-append, append-nil,
}
use esp32s3_szpi_sta.Zephyr.Calls.{got, stat, read, fs}
use esp32s3_szpi_sta.Zephyr.Prog.{Trace}
use esp32s3_szpi_sta.Zephyr.Holds.{Admits}
use esp32s3_szpi_sta.Zephyr.Usage.{consumed, opened}

-- `fs_read` gives no more bytes than were asked for, and a size fits in `size_t`.
abbrev pub Fits : Admits
Fits t (fs (stat p)) (rc, e) = e.size < 2 ^ 32
Fits t (fs (read n)) (got bs) = length bs ≤ n
Fits _ _ _ = Unit

-- `bs` are the next bytes of a file that holds `content`, at most `n`, and none only at the end.
abbrev pub Continues : List ℕ → Trace → ℕ → List ℕ → Type 0
Continues content t n bs =
    (rest : List ℕ) × (content ≡ consumed t ++ bs ++ rest)
    × (length bs ≤ n)
    × (bs ≡ [] → 0 < n → rest ≡ [])

abbrev pub IsPrefix : List ℕ → List ℕ → Type 0
IsPrefix xs content = (rest : List ℕ) × (content ≡ xs ++ rest)

-- The file `path` holds `content`: where it is the one that was opened last, and the bytes read so
-- far are its beginning, a read goes on from there; and `fs_stat` of it tells its length. Of other
-- files nothing is said.
abbrev pub ReadsFile : List ℕ → List ℕ → Admits
ReadsFile path content t (fs (stat p)) (rc, e) =
    p ≡ path → is_neg rc ≡ false → e.size ≡ length content
ReadsFile path content t (fs (read n)) (got bs) =
    opened t ≡ path → IsPrefix (consumed t) content → Continues content t n bs
ReadsFile path content _ _ _ = Unit

pub prefix_full :
    (xs rest content : List ℕ) → content ≡ xs ++ rest → length content ≤ length xs → xs ≡ content
prefix_full xs [] content e h = sym (e ∙ append-nil xs)
prefix_full xs (x ∷ rest) content e h =
    absurd (omega (arith, ap length e, length-append xs (x ∷ rest)))

pub length-pieces :
    (xs bs rest content : List ℕ)
    → content ≡ xs ++ bs ++ rest
    → length content ≡ length xs + length bs + length rest
length-pieces xs bs rest content e =
    omega (arith, ap length e, length-append (xs ++ bs) rest, length-append xs bs)

-- A read that hands over nothing where bytes were asked for has reached the end.
pub Continues-end :
    (content : List ℕ) (t : Trace) (n : ℕ) → 0 < n → Continues content t n [] → consumed t ≡ content
Continues-end content t n h (rest, e, m, d) =
    prefix_full (consumed t) rest content (e ∙ ap (λ xs. xs ++ rest) (append-nil (consumed t))) (
      omega (
        arith,
        ap length (e ∙ ap (λ xs. consumed t ++ [] ++ xs) (d refl h)),
        length-append (consumed t ++ []) [],
        length-append (consumed t) [],
      ))
