-- ===== src/Upgrade/Truncated.antt =====
-- A file that ends before the size that its directory entry tells.
use esp32s3_szpi_sta.Base.{
  ℕ, suc, ◌<◌, ◌≡◌, refl, Bool, true, false, List, [], ◌∷◌, ℤ, pos, negsuc, inl, inr, Bool-cases,
  is_neg, ◌==◌, ◌||◌, arith, ltb,
}
use esp32s3_szpi_sta.Zephyr.Calls.{fs, flash, kernel, file, stat, read, got, open_file, malloc}
use esp32s3_szpi_sta.Zephyr.Prog.{Trace, Env, run, Holds}
use esp32s3_szpi_sta.Zephyr.Holds.{Admits, Answers, Ends, run-Holds, Holds-then}
use esp32s3_szpi_sta.Zephyr.Usage.{written}
use esp32s3_szpi_sta.Upgrade.{
  chunk_size, write_ota_file_to_partition, write_opened, transfer, copy, cleanup, not_file,
}

-- `fs_stat` tells a size, every read is at the end of the file already, and nothing fails
abbrev pub IsCut : ℕ → Admits
IsCut size t (fs (stat p)) (rc, e) = (rc ≡ pos 0) × (e.type ≡ file) × (e.size ≡ size)
IsCut size t (fs (read n)) r = r ≡ got []
IsCut size t (fs (open_file p f)) rc = is_neg rc ≡ false
IsCut size t (flash c) rc = is_neg rc ≡ false
IsCut size t (kernel (malloc n)) r = r ≡ true
IsCut size _ _ _ = Unit

abbrev Accepted : ℤ → Trace → Type 0
Accepted rc u = (rc ≡ pos 0) × (written u ≡ [])

IsCut-copy :
    (size : ℕ) (t : Trace)
    → written t ≡ []
    → Holds (IsCut size) (copy (suc size) size 0) t (Ends Accepted)
unfolding copy
IsCut-copy size t w = elim (Bool-cases (ltb 0 size)) [
  | inl more ↦ rw more (λ r d. rw d (refl, w))
  | inr over ↦ rw over (refl, w)
]

IsCut-cleanup :
    (size : ℕ) (read_buf : Bool) (rc : ℤ) (t : Trace)
    → Accepted rc t
    → Holds (IsCut size) (cleanup read_buf rc) t (Ends Accepted)
unfolding cleanup
IsCut-cleanup size false rc t h = λ _ _ _ _. h
IsCut-cleanup size true rc t h = λ _ _ _ _ _ _. h

IsCut-transfer :
    (size : ℕ) (t : Trace) → written t ≡ [] → Holds (IsCut size) (transfer size) t (Ends Accepted)
unfolding transfer
IsCut-transfer size t w = elim [
  | false ↦ λ d. cc
  | true ↦ λ _.
      Holds-then (IsCut size) Accepted _ (copy (suc size) size 0) (cleanup true) _
        (IsCut-copy size ((kernel (malloc chunk_size), true) ∷ t) w)
        (λ rc u h. IsCut-cleanup size true rc u h)
]

IsCut-opened :
    (path : List ℕ) (id size : ℕ) (t : Trace)
    → Holds (IsCut size) (write_opened path id size) t (Ends Accepted)
unfolding write_opened
IsCut-opened path id size t = elim [
  | negsuc e ↦ λ d. cc
  | pos n ↦ λ _. elim [
    | negsuc e ↦ λ d. cc
    | pos m ↦ λ _. elim [ negsuc e ↦ λ d. cc | pos k ↦ λ _. IsCut-transfer size _ refl ]
  ]
]

IsCut-Holds :
    (path : List ℕ) (id size : ℕ) (t : Trace)
    → 0 < size
    → Holds (IsCut size) (write_ota_file_to_partition path id) t (Ends Accepted)
unfolding write_ota_file_to_partition
IsCut-Holds path id size t h = λ r d. elim (Bool-cases (is_neg r.0)) [
  | inl bad ↦ absurd (ground (arith, d.0))
  | inr good ↦ rw good (elim (Bool-cases (not_file r.1.type || r.1.size == 0)) [
    | inl bad ↦ absurd (ground (arith, d.1, d.2))
    | inr good' ↦ rw (good', d.2) (IsCut-opened path id size _)
  ])
]

-- Where nothing fails and the reads of the file end at once, the upgrade answers 0, as after a
-- success, whatever size above 0 the directory entry tells, and has written no byte to the area.
pub write_ota-truncated :
    (env : Env) (path : List ℕ) (id size : ℕ) (t : Trace)
    → 0 < size
    → Answers (IsCut size) env
    → let (o, u) = run env (write_ota_file_to_partition path id) t in
      Ends (λ rc v. (rc ≡ pos 0) × (written v ≡ [])) o u
write_ota-truncated env path id size t h d =
    run-Holds (IsCut size) (Ends Accepted) env d _ t (IsCut-Holds path id size t h)
