-- ===== src/Upgrade/Image.antt =====
-- What the upgrade writes: the file, piece by piece, into flash that was erased for it.
use esp32s3_szpi_sta.Base.{
  ℕ, zero, suc, ◌+◌, ◌-◌, ◌%◌, ◌^◌, ◌≤◌, ◌<◌, ◌≡◌, refl, sym, ap, ◌∙◌, Bool, true, false, List, [],
  ◌∷◌, ◌++◌, ℤ, pos, negsuc, inl, inr, ltb, ltb→lt, ltb→ge, Bool-cases, is_neg, is_zero,
  not_neg_zero, ◌||◌, ◌==◌, arith, length, length-append,
}
use esp32s3_szpi_sta.Zephyr.Calls.{failed, got, kernel, malloc, fs, read, flash, write_area}
use esp32s3_szpi_sta.Zephyr.Prog.{Outcome, done, faulted, unfinished, Trace, Env, run, Holds}
use esp32s3_szpi_sta.Zephyr.Holds.{Answers, Ends, run-Holds, Holds-mono, Holds-then}
use esp32s3_szpi_sta.Zephyr.Usage.{
  area, opened, consumed, written, erased, IsLaid, reboots, requests,
}
use esp32s3_szpi_sta.Zephyr.Documented.{
  ReadsFile, IsPrefix, Continues, Continues-end, length-pieces, prefix_full,
}
use esp32s3_szpi_sta.Upgrade.{
  size_mod, chunk_size, copy, bytes_to_read, write_ota_file_to_partition, transfer, cleanup,
  not_file, write_opened, erase_size,
}

-- The size is rounded up to whole sectors of 4096 bytes, by less than a sector, unless the sum
-- wraps.
pub erase_size_bounds :
    (size : ℕ)
    → size + 4095 < 2 ^ 32
    → (size ≤ erase_size size) × (erase_size size < size + 4096) × (erase_size size % 4096 ≡ 0)
unfolding erase_size
erase_size_bounds size h = omega arith

module _ (path content : List ℕ) (id rebooted requested : ℕ) where
  -- no reboot and no upgrade was asked for
  abbrev pub IsQuiet : Trace → Type 0
  IsQuiet t = (reboots t ≡ rebooted) × (requests t ≡ requested)

  -- after a number of rounds all that was read is written, behind one another
  abbrev IsCopied : ℕ → Trace → Type 0
  IsCopied off t =
      (written t ≡ consumed t)
      × (length (written t) ≡ off)
      × (length content ≤ erased t)
      × IsLaid t
      × IsPrefix (consumed t) content
      × IsQuiet t
      × (opened t ≡ path)
      × (area t ≡ id)

  -- Where the result is 0, all of `content` is in the area `id`.
  abbrev pub IsInstalled : ℤ → Trace → Type 0
  IsInstalled rc u =
      IsLaid u × (is_zero rc ≡ true → (area u ≡ id) × (written u ≡ content)) × IsQuiet u

  abbrev Reads : ℕ → Trace → List ℕ → Type 0
  Reads off t bs = Continues content t (bytes_to_read (length content) off) bs

  IsCopied-fits :
      (off : ℕ) (t : Trace) (bs : List ℕ)
      → IsCopied off t
      → Reads off t bs
      → off + length bs ≤ length content
  IsCopied-fits off t bs (same, here, c, l, p, q, o, a) (rest, e, m, d) =
      omega (arith, length-pieces (consumed t) bs rest content e, ap length same)

  IsCopied-step :
      (off : ℕ) (t : Trace) (bs : List ℕ) (r : ℕ)
      → length content < 2 ^ 32
      → IsCopied off t
      → Reads off t bs
      → IsCopied ((off + length bs) % size_mod) (
          (flash (write_area off bs), pos r)
          ∷ (fs (read (bytes_to_read (length content) off)), got bs)
          ∷ t)
  IsCopied-step off t bs r w c d = (
    ap (λ ys. ys ++ bs) c.0,
    omega (arith, IsCopied-fits off t bs c d, length-append (written t) bs, c.1),
    c.2,
    (sym c.1, omega (arith, IsCopied-fits off t bs c d, c.2), c.3),
    (d.0, d.1),
    c.5,
    c.6,
    c.7,
  )

  asks_some : (off : ℕ) → off < length content → 0 < bytes_to_read (length content) off
  unfolding bytes_to_read
  asks_some off h = omega arith

  copy-IsInstalled :
      (fuel off : ℕ) (t : Trace)
      → length content - off < fuel
      → length content < 2 ^ 32
      → IsCopied off t
      → Holds (ReadsFile path content) (copy fuel (length content) off) t (Ends IsInstalled)
  unfolding copy
  copy-IsInstalled zero off t h w c = absurd (omega arith)
  copy-IsInstalled (suc fuel) off t h w c = elim (Bool-cases (ltb off (length content))) [
    | inl more ↦ rw more (elim [
      | failed e ↦ λ d. (c.3, λ z. cc, c.5)
      | got [] ↦ λ d. (
        c.3,
        λ z. (c.7, c.0 ∙ Continues-end content t _ (asks_some off (ltb→lt off _ more)) (d c.6 c.4)),
        c.5,
      )
      | got (x ∷ bs) ↦ λ d. elim [
        | negsuc e ↦ λ _. (
          (sym c.1, omega (arith, IsCopied-fits off t (x ∷ bs) c (d c.6 c.4), c.2), c.3),
          λ z. cc,
          c.5,
        )
        | pos n ↦ λ _.
            copy-IsInstalled fuel _ _
              (omega (arith, IsCopied-fits off t (x ∷ bs) c (d c.6 c.4), ltb→lt off _ more)) w
              (IsCopied-step off t (x ∷ bs) n w c (d c.6 c.4))
      ]
    ])
    | inr over ↦ rw over (
      c.3,
      λ z. (
        c.7,
        c.0
            ∙ prefix_full (consumed t) c.4.0 content c.4.1
                (omega (arith, ltb→ge off _ over, c.1, ap length c.0)),
      ),
      c.5,
    )
  ]

  cleanup-IsInstalled :
      (read_buf : Bool) (rc : ℤ) (t : Trace)
      → IsInstalled rc t
      → Holds (ReadsFile path content) (cleanup read_buf rc) t (Ends IsInstalled)
  unfolding cleanup
  cleanup-IsInstalled false rc t h = λ _ _ _ _. h
  cleanup-IsInstalled true rc t h = λ _ _ _ _ _ _. h

  transfer-IsInstalled :
      (t : Trace)
      → length content < 2 ^ 32
      → IsCopied 0 t
      → Holds (ReadsFile path content) (transfer (length content)) t (Ends IsInstalled)
  unfolding transfer
  transfer-IsInstalled t w c = elim [
    | false ↦ λ _. cleanup-IsInstalled false _ _ (c.3, λ z. cc, c.5)
    | true ↦ λ _.
        Holds-then (ReadsFile path content) IsInstalled _
          (copy (suc (length content)) (length content) 0) (cleanup true) _
          (copy-IsInstalled (suc (length content)) 0 ((kernel (malloc chunk_size), true) ∷ t)
            (omega arith) w c)
          (λ rc u h. cleanup-IsInstalled true rc u h)
  ]

  opened-IsInstalled :
      (size : ℕ) (t : Trace)
      → length content + 4095 < 2 ^ 32
      → size ≡ length content
      → IsQuiet t
      → Holds (ReadsFile path content) (write_opened path id size) t (Ends IsInstalled)
  unfolding write_opened
  opened-IsInstalled size t w e q = rw e (elim [
    | negsuc n ↦ λ _. (tt, λ z. cc, q)
    | pos n ↦ λ _. elim [
      | negsuc m ↦ λ _ _ _. (tt, λ z. cc, q)
      | pos m ↦ λ _. elim [
        | negsuc k ↦ λ _. cleanup-IsInstalled false _ _ ((refl, tt), λ z. cc, q)
        | pos k ↦ λ _. transfer-IsInstalled _ (omega (arith, w)) (
          refl,
          refl,
          omega (arith, erase_size_bounds (length content) w),
          (refl, tt),
          (content, refl),
          q,
          refl,
          refl,
        )
      ]
    ]
  ])

  pub write_ota-Holds :
      (t : Trace)
      → length content + 4095 < 2 ^ 32
      → IsLaid t
      → IsQuiet t
      → Holds (ReadsFile path content) (write_ota_file_to_partition path id) t (Ends IsInstalled)
  unfolding write_ota_file_to_partition
  write_ota-Holds t w laid q = λ r d. elim (Bool-cases (is_neg r.0)) [
    | inl bad ↦ rw bad (laid, λ z. absurd (not_neg_zero r.0 bad z), q)
    | inr good ↦ rw good (elim (Bool-cases (not_file r.1.type || r.1.size == 0)) [
      | inl bad ↦ rw bad (laid, λ z. cc, q)
      | inr good' ↦ rw good' (opened-IsInstalled r.1.size _ w (d refl good) q)
    ])
  ]

-- The file of that path is shorter than 4 GB less a sector and its reads deliver `content`. Then
-- every write goes just behind the last one, from the start of the area on, and into what this
-- upgrade erased from that start on, and none of it is erased again, on every path; and if the
-- result is 0, the area opened is the one of that id and the bytes written to it are `content`, all
-- of it.
pub write_ota-writes_file :
    (env : Env) (content path : List ℕ) (id : ℕ) (t : Trace)
    → length content + 4095 < 2 ^ 32
    → Answers (ReadsFile path content) env
    → IsLaid t
    → let (o, u) = run env (write_ota_file_to_partition path id) t in
      Ends (λ rc v. IsLaid v × (is_zero rc ≡ true → (area v ≡ id) × (written v ≡ content))) o u
write_ota-writes_file env content path id t w d laid =
    run-Holds (ReadsFile path content)
      (Ends (λ rc v. IsLaid v × (is_zero rc ≡ true → (area v ≡ id) × (written v ≡ content)))) env d
      _ t
      (Holds-mono (ReadsFile path content) (write_ota_file_to_partition path id) t forget
        (write_ota-Holds path content id (reboots t) (requests t) t w laid (refl, refl)))
  where
    forget :
        (o : Outcome ℤ) (u : Trace)
        → Ends (IsInstalled path content id (reboots t) (requests t)) o u
        → Ends (λ rc v. IsLaid v × (is_zero rc ≡ true → (area v ≡ id) × (written v ≡ content))) o u
    forget (done a) u h = (h.0, h.1)
    forget faulted u h = h
    forget unfinished u h = h
