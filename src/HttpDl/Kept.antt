-- ===== src/HttpDl/Kept.antt =====
-- An upgrade, as src/upgrade.c has it, leaves the files of src/http_dl.c as they are.
use esp32s3_szpi_sta.Base.{
  ℕ, zero, suc, refl, Bool, true, false, not, ◌||◌, List, [], ◌∷◌, ℤ, is_neg, is_zero, ltb, ◌==◌,
}
use esp32s3_szpi_sta.HttpDl.Quiet.{stores}
use esp32s3_szpi_sta.Upgrade.{
  cleanup, copy, transfer, write_opened, write_ota_file_to_partition, trigger_upgrade,
  get_upgrade_target_partition_id, perform_ota_upgrade_from_file, not_file,
}
use esp32s3_szpi_sta.Zephyr.Calls.{failed, got}
use esp32s3_szpi_sta.Zephyr.Avoids.{Avoids, Avoids-if, Avoids-bind}

cleanup-Avoids : (read_buf : Bool) (rc : ℤ) → Avoids stores (cleanup read_buf rc)
unfolding cleanup
cleanup-Avoids true rc = (refl, λ _. (refl, λ _. (refl, λ _. tt)))
cleanup-Avoids false rc = (refl, λ _. (refl, λ _. tt))

copy-Avoids : (fuel size off : ℕ) → Avoids stores (copy fuel size off)
unfolding copy
copy-Avoids zero size off = tt
copy-Avoids (suc fuel) size off =
    Avoids-if stores (ltb off size) _ _
      (
        refl,
        elim [
          | failed e ↦ tt
          | got [] ↦ tt
          | got (b ∷ bs) ↦
              (refl, λ rc. Avoids-if stores (is_neg rc) _ _ tt (copy-Avoids fuel size _))
        ],
      )
      tt

opened-Avoids : (path : List ℕ) (id size : ℕ) → Avoids stores (write_opened path id size)
unfolding write_opened transfer
opened-Avoids path id size = (
  refl,
  λ rc. Avoids-if stores (is_neg rc) _ _ tt (
    refl,
    λ rc'.
        Avoids-if stores (is_neg rc') _ _ (refl, λ _. tt)
          (
            refl,
            λ rc2. Avoids-if stores (is_neg rc2) _ _ (cleanup-Avoids false rc2) (
              refl,
              λ read_buf. Avoids-if stores (not read_buf) _ _ (cleanup-Avoids false _) (
                  Avoids-bind stores (copy (suc size) size 0) _ (copy-Avoids (suc size) size 0)
                    (λ rc3. cleanup-Avoids true rc3)),
            ),
          ),
  ),
)

pub perform-Avoids :
    (slot0 : ℕ) (path : List ℕ) → Avoids stores (perform_ota_upgrade_from_file slot0 path)
unfolding perform_ota_upgrade_from_file get_upgrade_target_partition_id write_ota_file_to_partition
    trigger_upgrade
perform-Avoids slot0 path = (
  refl,
  λ active.
      Avoids-bind stores (write_ota_file_to_partition path _) _
        (
          refl,
          λ status. Avoids-if stores (is_neg status.0) _ _ tt (
              Avoids-if stores (not_file status.1.type || status.1.size == 0) _ _ tt
                (opened-Avoids path _ status.1.size)),
        )
        (λ rc.
          Avoids-if stores (is_zero rc) _ _
            (refl, λ rc'. Avoids-if stores (is_neg rc') _ _ tt (refl, λ _. (refl, λ _. tt))) tt),
)
