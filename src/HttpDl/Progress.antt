-- ===== src/HttpDl/Progress.antt =====
-- The progress bar.
use native.Mathlib.Nat.{div-le_of_le-mul, mul-div-le, mul-div_left, mul_comm}
use native.Mathlib.Numerals.{unary_clauses}
use mathlib.Core.Path.{subst}
use mathlib.Core.Logic.{◌↔◌}
use esp32s3_szpi_sta.Base.{
  ℕ, zero, suc, ◌+◌, ◌*◌, ◌/◌, ◌-◌, ◌≤◌, ◌<◌, ◌≡◌, refl, ap, ◌∙◌, ◌∷◌, ◌++◌, pos, replicate, ltb,
  arith, Bool-cases, inl, inr, ltb→lt, ltb→ge,
}
use esp32s3_szpi_sta.HttpDl.{percent, filled, bar_from, bar}

bar_from-spaces : (n i f : ℕ) → f ≤ i → bar_from n i f ≡ replicate n b' '
bar_from-spaces zero i f h = refl
bar_from-spaces (suc n) i f h = ground (arith, bar_from-spaces n (i + 1) f (omega arith))

bar_from-filled :
    (k i f : ℕ)
    → i ≤ f
    → f ≤ i + k
    → bar_from k i f ≡ replicate (f - i) b'=' ++ replicate (i + k - f) b' '
bar_from-filled zero i f l h =
    let left : f - i ≡ 0 = omega arith in
    let right : i + 0 - f ≡ 0 = omega arith in rw left (rw right refl)
bar_from-filled (suc k) i f l h = elim (Bool-cases (ltb i f)) [
  | inl e ↦
      let lt = ltb→lt i f e in
      let left : f - i ≡ suc (f - (i + 1)) = omega arith in
      let right : i + suc k - f ≡ i + 1 + k - f = omega arith in
      rw e (
        rw left (
          rw right
            (ap (λ cs. b'=' ∷ cs) (bar_from-filled k (i + 1) f (omega arith) (omega arith)))))
  | inr e ↦
      let ge = ltb→ge i f e in
      let left : f - i ≡ 0 = omega arith in
      let right : i + suc k - f ≡ suc k = omega arith in
      rw left (rw right (bar_from-spaces (suc k) i f ge))
]

percent_le : (w s : ℕ) → w ≤ s → w * 100 / s ≤ 100
percent_le w s h = div-le_of_le-mul s (omega arith)

percent_whole : (w s : ℕ) → w ≤ s → percent w s ≡ pos (w * 100 / s)
unfolding percent
percent_whole w s h = let le = percent_le w s h in ground arith

percent_full : (w s : ℕ) → w ≤ s → w * 100 / s ≡ 100 → w ≡ s
percent_full w s h e =
    let covered = mul-div-le (w * 100) s in
    let covered' : s * 100 ≤ w * 100 = subst (λ q. s * q ≤ w * 100) e covered in omega arith

full_percent : (s : ℕ) → 0 < s → s * 100 / s ≡ 100
full_percent s p = rw (mul_comm s 100) (mul-div_left 100 p)

-- Where no more is counted than the size announced, and the size is not 0, the bar has 20
-- characters: a '=' for each whole 5 percent, rounded down, and spaces behind them; it is full
-- exactly if everything has been counted.
pub bar_lem :
    (total_written total_size : ℕ)
    → 0 < total_size
    → total_written ≤ total_size
    → let n = total_written * 100 / total_size / 5 in
      (n ≤ 20)
      × (bar total_written total_size ≡ replicate n b'=' ++ replicate (20 - n) b' ')
      × ((n ≡ 20) ↔ (total_written ≡ total_size))
unfolding bar
bar_lem w s p h =
    let le = percent_le w s h in
    let n = w * 100 / s / 5 in
    let zero_off : n - 0 ≡ n = omega arith in
    let cells = bar_from-filled 20 0 n (omega arith) (omega arith) in
    let cells' : bar_from 20 0 n ≡ replicate n b'=' ++ replicate (20 - n) b' ' =
      simp unary_clauses at cells in
    (
      omega arith,
      ap (λ q. bar_from 20 0 (filled q)) (percent_whole w s h) ∙ cells',
      (λ full. percent_full w s h (omega arith), λ e. rw e (rw (full_percent s p) refl)),
    )
