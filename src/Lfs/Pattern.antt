-- ===== src/Lfs/Pattern.antt =====
-- The test pattern, after any number of boots.
mod Loops
use esp32s3_szpi_sta.Base.{
  ℕ, zero, suc, ◌+◌, ◌-◌, ◌*◌, ◌/◌, ◌%◌, ◌≤◌, ◌<◌, ◌≡◌, ◌≢◌, refl, sym, ap, ◌∙◌, ◌⊎◌, inl, inr,
  ◌||◌, List, [], ◌∷◌, length, set, replicate, ltb, ◌==◌, if◌then◌else◌, Bool-cases, length-set,
  length-replicate, arith,
}
use esp32s3_szpi_sta.Lfs.{byte_at, add_at, incr_loop, incr_pattern, init_loop, init_pattern}
use esp32s3_szpi_sta.Lfs.Pattern.Loops.{
  byte_at-set, byte_at-set_other, byte_at-replicate, init_loop-length, init_loop-before,
  init_loop-round, init_loop-eighth, init_loop-between, incr_loop-length, stepped,
  incr_loop-outside, incr_loop-round, incr_loop-inside,
}

-- the byte between the counters, for the first byte of the pattern
abbrev fill_for : ℕ → ℕ
fill_for b = if b % 2 == 0 then 0xAA else 0x55

incr_pattern-length : (p : List ℕ) (inc : ℕ) → length (incr_pattern p inc) ≡ length p
unfolding incr_pattern
incr_pattern-length p inc =
    length-set (incr_loop (length p - 1) 0 (fill_for (byte_at p 0)) inc p) (length p - 1) _
    ∙ incr_loop-length (length p - 1) 0 (fill_for (byte_at p 0)) inc p

incr_pattern-last :
    (p : List ℕ) (inc : ℕ)
    → 0 < length p
    → byte_at (incr_pattern p inc) (length p - 1) ≡ (byte_at p (length p - 1) + inc) % 256
unfolding incr_pattern
incr_pattern-last p inc h =
    let q = incr_loop (length p - 1) 0 (fill_for (byte_at p 0)) inc p in
    byte_at-set q (length p - 1) _
      (let e = incr_loop-length (length p - 1) 0 (fill_for (byte_at p 0)) inc p in omega arith)
    ∙ ap (λ b. (b + inc) % 256)
        (incr_loop-outside (length p - 1) 0 (fill_for (byte_at p 0)) inc p (length p - 1)
          (inr (omega arith)))

incr_pattern-front :
    (p : List ℕ) (inc j : ℕ)
    → j < length p - 1
    → byte_at (incr_pattern p inc) j ≡ stepped j (fill_for (byte_at p 0)) inc (byte_at p j)
unfolding incr_pattern
incr_pattern-front p inc j h =
    let fill = fill_for (byte_at p 0) in
    byte_at-set_other (incr_loop (length p - 1) 0 fill inc p) (length p - 1) j _ (λ e. omega arith)
    ∙ incr_loop-inside (length p - 1) 0 fill inc p j (omega arith) (omega arith) (omega arith)

-- the pattern after that many boots
abbrev pub boots : ℕ → List ℕ → List ℕ
boots zero p = p
boots (suc n) p = incr_pattern (boots n p) 1

-- What is then in the byte at `j` of `size`: the last one and every eighth count the boots, and the
-- others change between 0x55 and 0xAA.
abbrev pub expected : ℕ → ℕ → ℕ → ℕ
expected size n j =
    if j == size - 1
    then (0xAA + n) % 256
    else if j % 8 == 0
    then (1 + j / 8 + n) % 256
    else if (n == 0) || (n % 2 == 1)
    then 0x55
    else 0xAA

init_pattern-length : (size : ℕ) → length (init_pattern size) ≡ size
unfolding init_pattern
init_pattern-length size =
    length-set (init_loop size 0 1 (replicate size 0x55)) (size - 1) 0xAA
    ∙ init_loop-length size 0 1 (replicate size 0x55)
    ∙ length-replicate size 0x55

pub boots-length : (size n : ℕ) → length (boots n (init_pattern size)) ≡ size
boots-length size zero = init_pattern-length size
boots-length size (suc n) =
    incr_pattern-length (boots n (init_pattern size)) 1 ∙ boots-length size n

init_pattern-at : (size j : ℕ) → j < size → byte_at (init_pattern size) j ≡ expected size 0 j
unfolding init_pattern
init_pattern-at size j h =
    let p : List ℕ = replicate size 0x55 in
    let n : length p ≡ size = length-replicate size 0x55 in
    let q = init_loop size 0 1 p in
    elim (Bool-cases (j == size - 1)) [
      | inl last ↦
          let e : size - 1 ≡ j = ground arith in
          rw last (
            ap (λ x. byte_at (set q x 0xAA) j) e
            ∙ byte_at-set q j 0xAA (let l = init_loop-length size 0 1 p in omega arith))
      | inr front ↦
          let other : byte_at (set q (size - 1) 0xAA) j ≡ byte_at q j =
            byte_at-set_other q (size - 1) j 0xAA (λ e. ground arith) in
          rw front (
            other ∙ elim (Bool-cases (j % 8 == 0)) [
              | inl eighth ↦
                  let e : j ≡ 0 + 8 * (j / 8) = ground arith in
                  rw eighth (
                    ap (byte_at q) e
                    ∙ init_loop-eighth size 0 1 p (j / 8) (omega arith) (omega arith) (omega arith)
                    ∙ (let z : (1 + j / 8) % 256 ≡ (1 + j / 8 + 0) % 256 = omega arith in z))
              | inr between ↦
                  let e : j ≡ 0 + 8 * (j / 8) + j % 8 = omega arith in
                  let r : 0 < j % 8 = ground arith in
                  rw between (
                    ap (byte_at q) e
                    ∙ init_loop-between size 0 1 p (j / 8) (j % 8) (omega arith) r (omega arith)
                    ∙ byte_at-replicate size 0x55 _ (omega arith))
            ])
    ]

-- the first byte counts the boots too
expected-first : (size n : ℕ) → 1 < size → expected size n 0 ≡ (1 + n) % 256
expected-first size n g = ground arith

-- a boot makes what is expected behind `n` boots that which is expected behind one more
expected-suc :
    (size n j : ℕ)
    → j < size - 1
    → stepped j (fill_for ((1 + n) % 256)) 1 (expected size n j) ≡ expected size (suc n) j
expected-suc size n j h = ground arith

boots-at :
    (size n j : ℕ)
    → 1 < size
    → j < size
    → byte_at (boots n (init_pattern size)) j ≡ expected size n j
boots-at size zero j g h = init_pattern-at size j h
boots-at size (suc n) j g h =
    let p = boots n (init_pattern size) in
    let l = boots-length size n in
    let at = boots-at size n j g h in
    elim (Bool-cases (j == size - 1)) [
      | inl last ↦
          let e : j ≡ length p - 1 = ground arith in
          rw last (
            ap (byte_at (incr_pattern p 1)) e
            ∙ incr_pattern-last p 1 (omega arith)
            ∙ ap (λ x. (byte_at p x + 1) % 256) (sym e)
            ∙ ap (λ b. (b + 1) % 256) at
            ∙ (let z : (expected size n j + 1) % 256 ≡ (0xAA + suc n) % 256 = ground arith in z))
      | inr front ↦
          let first = boots-at size n 0 g (omega arith) ∙ expected-first size n g in
          incr_pattern-front p 1 j (ground arith)
          ∙ ap (λ b. stepped j (fill_for b) 1 (byte_at p j)) first
          ∙ ap (stepped j (fill_for ((1 + n) % 256)) 1) at
          ∙ expected-suc size n j (ground arith)
    ]

-- For a test file of more than one byte: after `n` boots, the first of which makes the pattern, and
-- each further one changes it by `incr_pattern`, the pattern has its length, and each of its bytes is
-- that of `expected`: the last is 0xAA and each eighth its number, both counted on by the boots modulo
-- 256, and the others are 0x55 or 0xAA in turn.
pub boots-expected :
    (size n j : ℕ)
    → 1 < size
    → j < size
    → (length (boots n (init_pattern size)) ≡ size)
      × (byte_at (boots n (init_pattern size)) j ≡ expected size n j)
boots-expected size n j g h = (boots-length size n, boots-at size n j g h)
