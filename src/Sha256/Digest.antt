-- ===== src/Sha256/Digest.antt =====
-- What the digest of a file is computed from, and what every path gives back.
use esp32s3_szpi_sta.Base.{
  ℕ, zero, suc, ◌+◌, ◌-◌, ◌<◌, ◌≡◌, refl, sym, ap, ◌∙◌, true, false, List, [], ◌∷◌, ◌++◌, ℤ, pos,
  negsuc, inl, inr, Bool-cases, is_zero, arith, length, length-append, append-nil,
}
use esp32s3_szpi_sta.Zephyr.Calls.{failed, got, finish_failed, finished, fs, read, psa, hash_update}
use esp32s3_szpi_sta.Zephyr.Prog.{Trace, Holds}
use esp32s3_szpi_sta.Zephyr.Holds.{Ends}
use esp32s3_szpi_sta.Zephyr.Usage.{opened, opens, closes, setups, endings, consumed, hashed, digest}
use esp32s3_szpi_sta.Zephyr.Documented.{
  ReadsFile, IsPrefix, Continues, Continues-end, length-pieces,
}
use esp32s3_szpi_sta.Sha256.{
  Result, calculate_file_sha256, update_loop, finish, give_up, read_buffer_size,
}

module _ (content : List ℕ) (s : Trace) where
  -- The file is closed and the hash ended as often as they were opened and set up since `s`. A
  -- result 0 comes with the digest of the whole file, and any other leaves the output `out` as it is.
  abbrev pub IsDigest : List ℕ → Result → Trace → Type 0
  IsDigest out r u =
      (opens u + closes s ≡ opens s + closes u)
      × (setups u + endings s ≡ setups s + endings u)
      × (is_zero r.0 ≡ true → (hashed u ≡ content) × (digest u ≡ r.1))
      × (is_zero r.0 ≡ false → r.1 ≡ out)

module _ (path content : List ℕ) (s : Trace) where
  -- the file is open, the hash is set up, and it was fed all that was read
  abbrev IsFed : Trace → Type 0
  IsFed t =
      (opens t + closes s ≡ suc (opens s + closes t))
      × (setups t + endings s ≡ suc (setups s + endings t))
      × (hashed t ≡ consumed t)
      × IsPrefix (consumed t) content
      × (opened t ≡ path)

  give_up-IsDigest :
      (e : ℕ) (out : List ℕ) (t : Trace)
      → (opens t + closes s ≡ suc (opens s + closes t))
      → (setups t + endings s ≡ suc (setups s + endings t))
      → Holds (ReadsFile path content) (give_up (negsuc e) out) t (Ends (IsDigest content s out))
  unfolding give_up
  give_up-IsDigest e out t o h = λ _ _ _ _. (omega arith, omega arith, λ z. cc, λ z. refl)

  finish-IsDigest :
      (out : List ℕ) (t : Trace)
      → IsFed t
      → consumed t ≡ content
      → Holds (ReadsFile path content) (finish out) t (Ends (IsDigest content s out))
  unfolding finish
  finish-IsDigest out t (o, h, same, p, f) e = elim [
    | finish_failed status ↦ λ _. give_up-IsDigest _ out _ o h
    | finished d ↦ λ _ _ _. (omega arith, omega arith, λ z. (same ∙ e, refl), λ z. cc)
  ]

  update-IsFed :
      (t : Trace) (bs : List ℕ) (n : ℕ) (status : ℤ)
      → IsFed t
      → Continues content t n bs
      → IsFed ((psa (hash_update bs), status) ∷ (fs (read n), got bs) ∷ t)
  update-IsFed t bs n status (o, h, same, p, f) (rest, e, m, d) =
      (o, h, ap (λ ys. ys ++ bs) same, (rest, e), f)

  -- Each round reads at least a byte, so the length of the file bounds the rounds.
  update_loop-IsDigest :
      (fuel : ℕ) (out : List ℕ) (t : Trace)
      → length content - length (consumed t) < fuel
      → IsFed t
      → Holds (ReadsFile path content) (update_loop fuel out) t (Ends (IsDigest content s out))
  unfolding update_loop
  update_loop-IsDigest zero out t h c = absurd (omega arith)
  update_loop-IsDigest (suc fuel) out t h c = elim [
    | failed e ↦ λ _. give_up-IsDigest e out _ c.0 c.1
    | got [] ↦ λ d.
        finish-IsDigest out _
          (c.0, c.1, c.2 ∙ sym (append-nil (consumed t)), ((d c.4 c.3).0, (d c.4 c.3).1), c.4)
          (append-nil (consumed t)
            ∙ Continues-end content t read_buffer_size (omega arith) (d c.4 c.3))
    | got (b ∷ bs) ↦ λ d status _. elim (Bool-cases (is_zero status)) [
      | inl fine ↦ rw fine (
          update_loop-IsDigest fuel out _
            (omega (
              arith,
              length-pieces (consumed t) (b ∷ bs) (d c.4 c.3).0 content (d c.4 c.3).1,
              length-append (consumed t) (b ∷ bs),
            ))
            (update-IsFed t (b ∷ bs) _ status c (d c.4 c.3)))
      | inr bad ↦ rw bad (give_up-IsDigest _ out _ c.0 c.1)
    ]
  ]

pub calculate-Holds :
    (fuel : ℕ) (content path out : List ℕ) (t : Trace)
    → length content < fuel
    → Holds
        (ReadsFile path content)
        (calculate_file_sha256 fuel path out)
        t
        (Ends (IsDigest content t out))
unfolding calculate_file_sha256
calculate-Holds fuel content path out t h = elim [
  | negsuc e ↦ λ _. (omega arith, omega arith, λ z. cc, λ z. refl)
  | pos (suc n) ↦ λ _. (omega arith, omega arith, λ z. cc, λ z. refl)
  | pos zero ↦ λ _. elim [
    | negsuc e ↦ λ _. (omega arith, omega arith, λ z. cc, λ z. refl)
    | pos n ↦ λ _. elim [
      | negsuc e ↦ λ _ _ _. (omega arith, omega arith, λ z. cc, λ z. refl)
      | pos (suc m) ↦ λ _ _ _. (omega arith, omega arith, λ z. cc, λ z. refl)
      | pos zero ↦ λ _.
          update_loop-IsDigest path content t fuel out _ (omega arith)
            (omega arith, omega arith, refl, (content, refl), refl)
    ]
  ]
]
