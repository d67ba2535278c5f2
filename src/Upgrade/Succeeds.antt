-- ===== src/Upgrade/Succeeds.antt =====
-- The upgrade where nothing fails.
use esp32s3_szpi_sta.Base.{
  ℕ, zero, suc, ◌+◌, ◌^◌, ◌<◌, ◌≡◌, refl, ap, false, true, List, [], ◌∷◌, ℤ, pos, negsuc, inl, inr,
  ltb, Bool-cases, is_neg, is_zero, ◌==◌, ◌||◌, arith, length, if◌then◌else◌,
}
use esp32s3_szpi_sta.Zephyr.Calls.{
  Call, Answer, failed, got, file, kernel, malloc, fs, stat, open_file, read, flash, boot,
  request_upgrade, fetch_active_slot,
}
use esp32s3_szpi_sta.Zephyr.Prog.{ret, ◌>>=◌, Trace, Env, run, Holds}
use esp32s3_szpi_sta.Zephyr.Partial.{IfDone, IfDone-then, Ends-IfDone}
use esp32s3_szpi_sta.Zephyr.Holds.{
  Admits, Answers, Ends, run-Holds, Holds-mono, Holds-both, Holds-narrow, Holds-then,
}
use esp32s3_szpi_sta.Zephyr.Usage.{area, opened, consumed, written, IsLaid, reboots, requests}
use esp32s3_szpi_sta.Zephyr.Documented.{ReadsFile, IsPrefix, Continues}
use esp32s3_szpi_sta.Upgrade.{
  copy, write_ota_file_to_partition, transfer, cleanup, not_file, write_opened, trigger_upgrade,
  perform_ota_upgrade_from_file, get_upgrade_target_partition_id,
}
use esp32s3_szpi_sta.Upgrade.Image.{IsInstalled, write_ota-Holds}

-- The file `path` holds `content` and can be read, there is memory, and flash and MCUboot do what they are
-- asked.
abbrev pub Works : List ℕ → List ℕ → Admits
Works path content t (fs (stat p)) (rc, e) =
    (rc ≡ pos 0) × (e.type ≡ file) × (p ≡ path → e.size ≡ length content)
Works path content t (fs (read n)) (failed e) = ⊥
Works path content t (fs (read n)) (got bs) =
    opened t ≡ path → IsPrefix (consumed t) content → Continues content t n bs
Works path content t (fs (open_file p f)) rc = is_neg rc ≡ false
Works path content t (flash c) rc = is_neg rc ≡ false
Works path content t (kernel (malloc n)) r = r ≡ true
Works path content t (boot request_upgrade) rc = is_neg rc ≡ false
Works path content _ _ _ = Unit

Works-ReadsFile :
    (path content : List ℕ) (t : Trace) (c : Call) (r : Answer c)
    → Works path content t c r
    → ReadsFile path content t c r
Works-ReadsFile path content t (fs (stat p)) (rc, e) d = λ same _. d.2 same
Works-ReadsFile path content t (fs (read n)) (failed e) d = tt
Works-ReadsFile path content t (fs (read n)) (got bs) d = d
Works-ReadsFile path content t _ r d = tt

abbrev IsZero : ℤ → Trace → Type 0
IsZero rc u = rc ≡ pos 0

copy-IsZero :
    (path content : List ℕ) (fuel size off : ℕ) (t : Trace)
    → Holds (Works path content) (copy fuel size off) t (IfDone IsZero)
unfolding copy
copy-IsZero path content zero size off t = tt
copy-IsZero path content (suc fuel) size off t = elim (Bool-cases (ltb off size)) [
  | inl more ↦ rw more (elim [
    | failed e ↦ λ d. absurd d
    | got [] ↦ λ d. refl
    | got (b ∷ bs) ↦ λ d rc d'. rw d' (copy-IsZero path content fuel size _ _)
  ])
  | inr over ↦ rw over refl
]

transfer-IsZero :
    (path content : List ℕ) (size : ℕ) (t : Trace)
    → Holds (Works path content) (transfer size) t (IfDone IsZero)
unfolding transfer cleanup
transfer-IsZero path content size t = elim [
  | false ↦ λ d. absurd cc
  | true ↦ λ _.
      let D = Works path content in
      IfDone-then D IsZero IsZero (copy (suc size) size 0) (cleanup true) _
        (copy-IsZero path content (suc size) size 0 _) (λ rc u z. rw z (λ _ _ _ _ _ _. refl))
]

write_ota-IsZero :
    (content path : List ℕ) (id : ℕ) (t : Trace)
    → 0 < length content
    → Holds (Works path content) (write_ota_file_to_partition path id) t (IfDone IsZero)
unfolding write_ota_file_to_partition write_opened
write_ota-IsZero content path id t some_bytes = λ r d. elim (Bool-cases (is_neg r.0)) [
  | inl bad ↦ absurd (ground (arith, d.0))
  | inr good ↦ rw good (elim (Bool-cases (not_file r.1.type || r.1.size == 0)) [
    | inl bad ↦ absurd (ground (arith, d.1, d.2 refl))
    | inr good' ↦
        rw good'
          (λ rc d1. rw d1 (λ rc' d2. rw d2 (λ rc3 d3. rw d3 (transfer-IsZero path content _ _))))
  ])
]

-- the device was asked once to boot the image, all of it in slot 0, and was restarted once
abbrev pub IsUpgraded : ℕ → List ℕ → Trace → Trace → Type 0
IsUpgraded slot0 content t u =
    (reboots u ≡ suc (reboots t))
    × (requests u ≡ suc (requests t))
    × IsLaid u
    × (area u ≡ slot0)
    × (written u ≡ content)

trigger-IsUpgraded :
    (path content : List ℕ) (slot0 : ℕ) (t u : Trace)
    → IsInstalled path content slot0 (reboots t) (requests t) (pos 0) u
    → Holds (Works path content) trigger_upgrade u (Ends (λ _. IsUpgraded slot0 content t))
unfolding trigger_upgrade
trigger-IsUpgraded path content slot0 t u h = elim [
  | negsuc e ↦ λ d. absurd cc
  | pos n ↦ λ _ _ _ _ _. (ap suc h.2.0, omega (arith, h.2.1), h.0, (h.1 refl).0, (h.1 refl).1)
]

write_ota-IsWritten :
    (content path : List ℕ) (id : ℕ) (s t : Trace)
    → 0 < length content
    → length content + 4095 < 2 ^ 32
    → IsLaid t
    → (reboots t ≡ reboots s) × (requests t ≡ requests s)
    → Holds
        (Works path content)
        (write_ota_file_to_partition path id)
        t
        (Ends (λ rc v. IsInstalled path content id (reboots s) (requests s) rc v × (rc ≡ pos 0)))
write_ota-IsWritten content path id s t some_bytes w laid q =
    let D = Works path content in
    let m = write_ota_file_to_partition path id in
    let R = IsInstalled path content id (reboots s) (requests s) in
    Holds-mono D m t (Ends-IfDone R IsZero) (
      Holds-both D (Ends R) (IfDone IsZero) m t
        (Holds-narrow (ReadsFile path content) D (Ends R) m t (Works-ReadsFile path content)
          (write_ota-Holds path content id (reboots s) (requests s) t w laid q))
        (write_ota-IsZero content path id t some_bytes))

pub perform-Works :
    (content path : List ℕ) (slot0 : ℕ) (t : Trace)
    → 0 < length content
    → length content + 4095 < 2 ^ 32
    → IsLaid t
    → Holds
        (Works path content)
        (perform_ota_upgrade_from_file slot0 path)
        t
        (Ends (λ _. IsUpgraded slot0 content t))
unfolding perform_ota_upgrade_from_file get_upgrade_target_partition_id
perform-Works content path slot0 t some_bytes w laid = λ active _.
    elim (Bool-cases (active == slot0)) [ inl e ↦ rw e (rest active) | inr e ↦ rw e (rest active) ]
  where
    rest :
        (active : ℕ)
        → Holds
            (Works path content)
            (write_ota_file_to_partition path slot0 >>= λ rc.
              if is_zero rc then trigger_upgrade else ret tt)
            ((boot fetch_active_slot, active) ∷ t)
            (Ends (λ _. IsUpgraded slot0 content t))
    rest active =
        Holds-then (Works path content)
          (λ rc v. IsInstalled path content slot0 (reboots t) (requests t) rc v × (rc ≡ pos 0)) _
          (write_ota_file_to_partition path slot0)
          (λ rc. if is_zero rc then trigger_upgrade else ret tt) _
          (write_ota-IsWritten content path slot0 t ((boot fetch_active_slot, active) ∷ t)
            some_bytes w laid (refl, refl))
          (λ rc u (h, e). rw e (trigger-IsUpgraded path content slot0 t u (rw e at h)))

-- an empty file is refused
pub perform-Works_empty :
    (path : List ℕ) (slot0 : ℕ) (t : Trace)
    → Holds
        (Works path [])
        (perform_ota_upgrade_from_file slot0 path)
        t
        (Ends (λ _ u. reboots u ≡ reboots t))
unfolding perform_ota_upgrade_from_file get_upgrade_target_partition_id write_ota_file_to_partition
perform-Works_empty path slot0 t = λ active _ r d. elim (Bool-cases (is_neg r.0)) [
  | inl bad ↦ absurd (ground (arith, d.0))
  | inr good ↦ rw good (elim (Bool-cases (not_file r.1.type || r.1.size == 0)) [
    | inl empty ↦ rw empty refl
    | inr full ↦ absurd (ground (arith, d.1, d.2 refl))
  ])
]

-- Where nothing fails, the upgrade takes place: the file of that path holds `content`, which is not
-- empty and shorter than 4 GB less a sector, its reads deliver it, there is memory, and flash and
-- MCUboot do what they are asked. Then the upgrade from that path ends, and has asked MCUboot once to
-- boot the image, with all of `content` in slot 0, from its start on, piece behind piece, in what it
-- had erased, and has restarted the device once.
pub perform-IsUpgraded :
    (env : Env) (content path : List ℕ) (slot0 : ℕ) (t : Trace)
    → 0 < length content
    → length content + 4095 < 2 ^ 32
    → Answers (Works path content) env
    → IsLaid t
    → let (o, u) = run env (perform_ota_upgrade_from_file slot0 path) t in
      Ends (λ _. IsUpgraded slot0 content t) o u
perform-IsUpgraded env content path slot0 t some_bytes w d laid =
    run-Holds (Works path content) (Ends (λ _. IsUpgraded slot0 content t)) env d _ t
      (perform-Works content path slot0 t some_bytes w laid)
