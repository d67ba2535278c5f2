-- ===== src/Upgrade/Reboot.antt =====
-- When the upgrade restarts the device, and which slot it writes to.
use esp32s3_szpi_sta.Base.{
  ℕ, zero, suc, ◌+◌, ◌^◌, ◌<◌, ◌≡◌, ◌⊎◌, refl, ap, Bool-cases, ◌==◌, List, ◌∷◌, ℤ, pos, negsuc, inl,
  inr, is_neg, is_zero, if◌then◌else◌, arith, length,
}
use esp32s3_szpi_sta.Zephyr.Calls.{boot, fetch_active_slot, img_confirmed, write_img_confirmed}
use esp32s3_szpi_sta.Zephyr.Prog.{done, ◌>>=◌, Trace, Env, run, Holds, ret}
use esp32s3_szpi_sta.Zephyr.Holds.{Answers, Ends, run-Holds, Holds-then}
use esp32s3_szpi_sta.Zephyr.Usage.{area, written, IsLaid, reboots, requests}
use esp32s3_szpi_sta.Zephyr.Documented.{ReadsFile}
use esp32s3_szpi_sta.Upgrade.{
  get_upgrade_target_partition_id, write_ota_file_to_partition, trigger_upgrade,
  perform_ota_upgrade_from_file, upgrade_check_image,
}
use esp32s3_szpi_sta.Upgrade.Image.{IsInstalled, write_ota-Holds}

-- Whichever slot is active, the target is slot 0.
pub target_is_slot0 :
    (env : Env) (slot0 : ℕ) (t : Trace)
    → (run env (get_upgrade_target_partition_id slot0) t).0 ≡ done slot0
unfolding get_upgrade_target_partition_id run
target_is_slot0 env slot0 t = ground arith

-- either no restart, or one restart of a device that holds the image in slot 0 and was asked to boot
-- it
abbrev pub IsRestarted : ℕ → List ℕ → Trace → Trace → Type 0
IsRestarted slot0 content t u =
    (reboots u ≡ reboots t)
    ⊎ ((reboots u ≡ suc (reboots t))
        × (requests u ≡ suc (requests t))
        × IsLaid u
        × (area u ≡ slot0)
        × (written u ≡ content))

trigger-IsRestarted :
    (path content : List ℕ) (slot0 : ℕ) (t u : Trace) (rc : ℤ)
    → IsInstalled path content slot0 (reboots t) (requests t) rc u
    → Holds
        (ReadsFile path content)
        (if is_zero rc then trigger_upgrade else ret tt)
        u
        (Ends (λ _. IsRestarted slot0 content t))
unfolding trigger_upgrade
trigger-IsRestarted path content slot0 t u (negsuc e) h = inl h.2.0
trigger-IsRestarted path content slot0 t u (pos (suc n)) h = inl h.2.0
trigger-IsRestarted path content slot0 t u (pos zero) h = elim [
  | negsuc e ↦ λ _. inl h.2.0
  | pos n ↦ λ _ _ _ _ _. inr (ap suc h.2.0, omega (arith, h.2.1), h.0, (h.1 refl).0, (h.1 refl).1)
]

pub perform-Holds :
    (content path : List ℕ) (slot0 : ℕ) (t : Trace)
    → length content + 4095 < 2 ^ 32
    → IsLaid t
    → Holds
        (ReadsFile path content)
        (perform_ota_upgrade_from_file slot0 path)
        t
        (Ends (λ _. IsRestarted slot0 content t))
unfolding perform_ota_upgrade_from_file get_upgrade_target_partition_id
perform-Holds content path slot0 t w laid = λ active _. elim (Bool-cases (active == slot0)) [
  | inl e ↦ rw e (rest active)
  | inr e ↦ rw e (rest active)
]
  where
    rest :
        (active : ℕ)
        → Holds
            (ReadsFile path content)
            (write_ota_file_to_partition path slot0 >>= λ rc.
              if is_zero rc then trigger_upgrade else ret tt)
            ((boot fetch_active_slot, active) ∷ t)
            (Ends (λ _. IsRestarted slot0 content t))
    rest active =
        Holds-then (ReadsFile path content)
          (IsInstalled path content slot0 (reboots t) (requests t)) _
          (write_ota_file_to_partition path slot0)
          (λ rc. if is_zero rc then trigger_upgrade else ret tt) _
          (write_ota-Holds path content slot0 (reboots t) (requests t)
            ((boot fetch_active_slot, active) ∷ t) w laid (refl, refl))
          (λ rc u h. trigger-IsRestarted path content slot0 t u rc h)

-- The reads of the file of that path deliver `content`. An upgrade from that path ends, and restarts
-- the device at most once, and only after it wrote the whole of `content` into slot 0, whichever slot
-- is active, from its start on, piece behind piece, into what it had erased, and MCUboot accepted the
-- request to boot it.
pub perform-IsRestarted :
    (env : Env) (content path : List ℕ) (slot0 : ℕ) (t : Trace)
    → length content + 4095 < 2 ^ 32
    → Answers (ReadsFile path content) env
    → IsLaid t
    → let (o, u) = run env (perform_ota_upgrade_from_file slot0 path) t in
      Ends (λ _. IsRestarted slot0 content t) o u
perform-IsRestarted env content path slot0 t w d laid =
    run-Holds (ReadsFile path content) (Ends (λ _. IsRestarted slot0 content t)) env d _ t
      (perform-Holds content path slot0 t w laid)

-- The start-up check answers 0 if the running image is confirmed, or if it could be confirmed now;
-- an image that is confirmed already is not written to, and a failure to confirm it gives -1.
pub upgrade_check_image_lem :
    (env : Env) (t : Trace)
    → let ok = env t (boot img_confirmed) in
      let t' : Trace = (boot img_confirmed, ok) ∷ t in
      let rc = env t' (boot write_img_confirmed) in
      run env upgrade_check_image t ≡ (
        if ok
        then (done (pos 0), t')
        else (done (if is_neg rc then negsuc 0 else pos 0), (boot write_img_confirmed, rc) ∷ t'))
unfolding upgrade_check_image run
upgrade_check_image_lem env t = ground arith
