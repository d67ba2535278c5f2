-- ===== src/Lfs/Pattern/Loops.antt =====
-- The loops that make and change the test pattern, byte by byte.
use esp32s3_szpi_sta.Base.{
  ℕ, zero, suc, ◌+◌, ◌*◌, ◌%◌, ◌≤◌, ◌<◌, ◌≡◌, ◌≢◌, refl, sym, ap, ◌∙◌, ◌⊎◌, inl, inr, List, [], ◌∷◌,
  length, set, replicate, ltb, ◌==◌, if◌then◌else◌, Bool-cases, length-set, arith,
}
use esp32s3_szpi_sta.Lfs.{byte_at, add_at, incr_loop, init_loop}

pub byte_at-set : (p : List ℕ) (i v : ℕ) → i < length p → byte_at (set p i v) i ≡ v
byte_at-set [] i v h = absurd (omega (arith, h))
byte_at-set (b ∷ p) zero v h = refl
byte_at-set (b ∷ p) (suc i) v h = byte_at-set p i v (omega (arith, h))

pub byte_at-set_other : (p : List ℕ) (i j v : ℕ) → i ≢ j → byte_at (set p i v) j ≡ byte_at p j
byte_at-set_other [] i j v h = refl
byte_at-set_other (b ∷ p) zero zero v h = absurd (h refl)
byte_at-set_other (b ∷ p) zero (suc j) v h = refl
byte_at-set_other (b ∷ p) (suc i) zero v h = refl
byte_at-set_other (b ∷ p) (suc i) (suc j) v h = byte_at-set_other p i j v (λ e. h (ap suc e))

pub byte_at-replicate : (n b j : ℕ) → j < n → byte_at (replicate n b) j ≡ b
byte_at-replicate zero b j h = absurd (omega (arith, h))
byte_at-replicate (suc n) b zero h = refl
byte_at-replicate (suc n) b (suc j) h = byte_at-replicate n b j (omega (arith, h))

pub init_loop-length : (fuel i v : ℕ) (p : List ℕ) → length (init_loop fuel i v p) ≡ length p
init_loop-length zero i v p = refl
init_loop-length (suc fuel) i v p = elim (Bool-cases (ltb i (length p))) [
  | inl l ↦ rw l (init_loop-length fuel (i + 8) ((v + 1) % 256) (set p i v) ∙ length-set p i v)
  | inr l ↦ rw l refl
]

-- the bytes in front are left
pub init_loop-before :
    (fuel i v : ℕ) (p : List ℕ) (j : ℕ) → j < i → byte_at (init_loop fuel i v p) j ≡ byte_at p j
init_loop-before zero i v p j h = refl
init_loop-before (suc fuel) i v p j h = elim (Bool-cases (ltb i (length p))) [
  | inl l ↦ rw l (
      init_loop-before fuel (i + 8) ((v + 1) % 256) (set p i v) j (omega arith)
      ∙ byte_at-set_other p i j v (λ e. omega arith))
  | inr l ↦ rw l refl
]

-- a round of the loop of `init_pattern`
pub init_loop-round :
    (fuel i v : ℕ) (p : List ℕ)
    → i < length p
    → init_loop (suc fuel) i v p ≡ init_loop fuel (i + 8) ((v + 1) % 256) (set p i v)
init_loop-round fuel i v p h = ground arith

-- every eighth byte counts on
pub init_loop-eighth :
    (fuel i v : ℕ) (p : List ℕ) (k : ℕ)
    → i + 8 * k < length p
    → length p ≤ i + fuel
    → v < 256
    → byte_at (init_loop fuel i v p) (i + 8 * k) ≡ (v + k) % 256
init_loop-eighth zero i v p k h f w = absurd (omega arith)
init_loop-eighth (suc fuel) i v p zero h f w =
    let later = init_loop fuel (i + 8) ((v + 1) % 256) (set p i v) in
    ap (λ q. byte_at q (i + 0)) (init_loop-round fuel i v p (omega arith))
    ∙ ap (byte_at later) (let e : i + 0 ≡ i = omega arith in e)
    ∙ init_loop-before fuel (i + 8) ((v + 1) % 256) (set p i v) i (omega arith)
    ∙ byte_at-set p i v (omega arith)
    ∙ (let e : v ≡ (v + 0) % 256 = omega arith in e)
init_loop-eighth (suc fuel) i v p (suc k) h f w =
    let later = init_loop fuel (i + 8) ((v + 1) % 256) (set p i v) in
    ap (λ q. byte_at q (i + 8 * suc k)) (init_loop-round fuel i v p (omega arith))
    ∙ ap (byte_at later) (let e : i + 8 * suc k ≡ i + 8 + 8 * k = omega arith in e)
    ∙ init_loop-eighth fuel (i + 8) ((v + 1) % 256) (set p i v) k
        (let e = length-set p i v in omega arith) (let e = length-set p i v in omega arith)
        (omega arith)
    ∙ (let e : ((v + 1) % 256 + k) % 256 ≡ (v + suc k) % 256 = omega arith in e)

-- and those between are left
pub init_loop-between :
    (fuel i v : ℕ) (p : List ℕ) (k r : ℕ)
    → i + 8 * k + r < length p
    → 0 < r
    → r < 8
    → byte_at (init_loop fuel i v p) (i + 8 * k + r) ≡ byte_at p (i + 8 * k + r)
init_loop-between zero i v p k r l h w = refl
init_loop-between (suc fuel) i v p zero r l h w =
    ap (λ q. byte_at q (i + 0 + r)) (init_loop-round fuel i v p (omega arith))
    ∙ init_loop-before fuel (i + 8) ((v + 1) % 256) (set p i v) (i + 0 + r) (omega arith)
    ∙ byte_at-set_other p i (i + 0 + r) v (λ e. omega arith)
init_loop-between (suc fuel) i v p (suc k) r l h w =
    let later = init_loop fuel (i + 8) ((v + 1) % 256) (set p i v) in
    let e : i + 8 * suc k + r ≡ i + 8 + 8 * k + r = omega arith in
    ap (λ q. byte_at q (i + 8 * suc k + r)) (init_loop-round fuel i v p (omega arith))
    ∙ ap (byte_at later) e
    ∙ init_loop-between fuel (i + 8) ((v + 1) % 256) (set p i v) k r
        (let e' = length-set p i v in omega arith) h w
    ∙ byte_at-set_other p i (i + 8 + 8 * k + r) v (λ e'. omega arith)
    ∙ ap (byte_at p) (sym e)

pub incr_loop-length :
    (n i fill inc : ℕ) (p : List ℕ) → length (incr_loop n i fill inc p) ≡ length p
incr_loop-length zero i fill inc p = refl
incr_loop-length (suc n) i fill inc p = elim (Bool-cases (i % 8 == 0)) [
  | inl e ↦ rw e (incr_loop-length n (i + 1) fill inc (add_at p i inc) ∙ length-set p i _)
  | inr e ↦ rw e (incr_loop-length n (i + 1) fill inc (set p i fill) ∙ length-set p i fill)
]

-- what a round of `incr_pattern` does to the byte at `j`
abbrev pub stepped : ℕ → ℕ → ℕ → ℕ → ℕ
stepped j fill inc b = if j % 8 == 0 then (b + inc) % 256 else fill

-- the bytes outside of the rounds are left
pub incr_loop-outside :
    (n i fill inc : ℕ) (p : List ℕ) (j : ℕ)
    → (j < i) ⊎ (i + n ≤ j)
    → byte_at (incr_loop n i fill inc p) j ≡ byte_at p j
incr_loop-outside zero i fill inc p j h = refl
incr_loop-outside (suc n) i fill inc p j h =
    let away : i ≢ j = λ e. elim h [ inl l ↦ omega arith | inr l ↦ omega arith ] in
    let out : (j < i + 1) ⊎ (i + 1 + n ≤ j) = elim h [
      | inl l ↦ inl (omega arith)
      | inr l ↦ inr (omega arith)
    ] in
    elim (Bool-cases (i % 8 == 0)) [
      | inl e ↦ rw e (
          incr_loop-outside n (i + 1) fill inc (add_at p i inc) j out
          ∙ byte_at-set_other p i j _ away)
      | inr e ↦ rw e (
          incr_loop-outside n (i + 1) fill inc (set p i fill) j out
          ∙ byte_at-set_other p i j fill away)
    ]

-- a round of the loop of `incr_pattern`
pub incr_loop-round :
    (n i fill inc : ℕ) (p : List ℕ)
    → incr_loop (suc n) i fill inc p
      ≡ incr_loop n (i + 1) fill inc (set p i (stepped i fill inc (byte_at p i)))
incr_loop-round n i fill inc p = elim (Bool-cases (i % 8 == 0)) [
  | inl e ↦ rw e refl
  | inr e ↦ rw e refl
]

-- and those within are stepped
pub incr_loop-inside :
    (n i fill inc : ℕ) (p : List ℕ) (j : ℕ)
    → i ≤ j
    → j < i + n
    → j < length p
    → byte_at (incr_loop n i fill inc p) j ≡ stepped j fill inc (byte_at p j)
incr_loop-inside zero i fill inc p j h k l = absurd (omega arith)
incr_loop-inside (suc n) i fill inc p j h k l =
    let p' = set p i (stepped i fill inc (byte_at p i)) in
    ap (λ q. byte_at q j) (incr_loop-round n i fill inc p) ∙ elim (Bool-cases (i == j)) [
      | inl same ↦
          let e : i ≡ j = ground arith in
          incr_loop-outside n (i + 1) fill inc p' j (inl (omega arith))
          ∙ ap (λ x. byte_at (set p x (stepped x fill inc (byte_at p x))) j) e
          ∙ byte_at-set p j _ l
      | inr other ↦
          let lt : i < j = ground arith in
          let ne : i ≢ j = λ e. omega arith in
          incr_loop-inside n (i + 1) fill inc p' j (omega arith) (omega arith)
            (let e = length-set p i (stepped i fill inc (byte_at p i)) in omega arith)
          ∙ ap (stepped j fill inc) (byte_at-set_other p i j _ ne)
    ]
