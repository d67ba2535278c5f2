-- ===== src/Upgrade/Resources.antt =====
-- Every path of the upgrade gives back what it took.
use esp32s3_szpi_sta.Base.{
  ℕ, zero, suc, ◌+◌, ◌-◌, ◌^◌, ◌<◌, ◌≡◌, refl, Bool, true, false, List, [], ◌∷◌, ℤ, pos, negsuc,
  inl, inr, ltb, ltb→lt, Bool-cases, is_neg, ◌||◌, if◌then◌else◌, ◌==◌, arith,
}
use esp32s3_szpi_sta.Zephyr.Calls.{failed, got, kernel, malloc}
use esp32s3_szpi_sta.Zephyr.Prog.{Outcome, Trace, Env, run, Holds}
use esp32s3_szpi_sta.Zephyr.Holds.{Answers, Ends, run-Holds, Holds-then}
use esp32s3_szpi_sta.Zephyr.Usage.{opens, closes, area_opens, area_closes, mallocs, frees}
use esp32s3_szpi_sta.Zephyr.Documented.{Fits}
use esp32s3_szpi_sta.Upgrade.{
  chunk_size, copy, bytes_to_read, write_ota_file_to_partition, transfer, cleanup, not_file,
  write_opened,
}

-- `u` holds as many open files, open areas and heap blocks as `t`
abbrev pub IsBalanced : Trace → Trace → Type 0
IsBalanced t u =
    (opens u + closes t ≡ opens t + closes u)
    × (area_opens u + area_closes t ≡ area_opens t + area_closes u)
    × (mallocs u + frees t ≡ mallocs t + frees u)

abbrev Settled : Trace → Outcome ℤ → Trace → Type 0
Settled t = Ends (λ rc. IsBalanced t)

copy-Settled :
    (fuel size off : ℕ) (t s : Trace)
    → size - off < fuel
    → size < 2 ^ 32
    → IsBalanced s t
    → Holds Fits (copy fuel size off) t (Settled s)
unfolding copy bytes_to_read
copy-Settled zero size off t s h w b = absurd (omega arith)
copy-Settled (suc fuel) size off t s h w b = elim (Bool-cases (ltb off size)) [
  | inl more ↦ rw more (elim [
    | failed e ↦ λ d. b
    | got [] ↦ λ d. b
    | got (x ∷ bs) ↦ λ d. elim [
      | negsuc e ↦ λ _. b
      | pos n ↦ λ _. copy-Settled fuel size _ _ s (omega (arith, ltb→lt _ _ more)) w b
    ]
  ])
  | inr over ↦ rw over b
]

-- `t` has one open file and one open area more than `s`
abbrev HasBoth : Trace → Trace → Type 0
HasBoth s t =
    (opens t + closes s ≡ suc (opens s + closes t))
    × (area_opens t + area_closes s ≡ suc (area_opens s + area_closes t))

cleanup-Settled :
    (read_buf : Bool) (rc : ℤ) (s t : Trace)
    → HasBoth s t
    → mallocs t + frees s ≡ mallocs s + frees t + (if read_buf then 1 else 0)
    → Holds Fits (cleanup read_buf rc) t (Settled s)
unfolding cleanup
cleanup-Settled false rc s t h m = λ _ _ _ _. omega arith
cleanup-Settled true rc s t h m = λ _ _ _ _ _ _. omega arith

transfer-Settled :
    (size : ℕ) (s t : Trace)
    → size < 2 ^ 32
    → HasBoth s t
    → mallocs t + frees s ≡ mallocs s + frees t
    → Holds Fits (transfer size) t (Settled s)
unfolding transfer
transfer-Settled size s t w h m = elim [
  | false ↦ λ _. cleanup-Settled false _ s _ h (omega arith)
  | true ↦ λ _.
      Holds-then Fits (λ rc. IsBalanced ((kernel (malloc chunk_size), true) ∷ t)) _
        (copy (suc size) size 0) (cleanup true) _
        (copy-Settled (suc size) size 0 _ ((kernel (malloc chunk_size), true) ∷ t) (omega arith) w
          (refl, refl, refl))
        (λ rc u b. cleanup-Settled true rc s u (omega arith) (omega arith))
]

write_ota-Settled :
    (path : List ℕ) (id : ℕ) (t : Trace)
    → Holds Fits (write_ota_file_to_partition path id) t (Settled t)
unfolding write_ota_file_to_partition write_opened
write_ota-Settled path id t = λ r d. elim (Bool-cases (is_neg r.0)) [
  | inl bad ↦ rw bad (omega arith)
  | inr good ↦ rw good (elim (Bool-cases (not_file r.1.type || r.1.size == 0)) [
    | inl bad ↦ rw bad (omega arith)
    | inr good' ↦ rw good' (elim [
      | negsuc e ↦ λ _. omega arith
      | pos n ↦ λ _. elim [
        | negsuc e ↦ λ _ _ _. omega arith
        | pos m ↦ λ _. elim [
          | negsuc e ↦ λ _. cleanup-Settled false _ t _ (omega arith) (omega arith)
          | pos k ↦ λ _. transfer-Settled r.1.size t _ d (omega arith) (omega arith)
        ]
      ]
    ])
  ])
]

-- Against any environment that keeps to the documented sizes, the upgrade ends, and has closed the
-- file and the flash area and freed the buffer exactly as often as it took them.
pub write_ota-IsBalanced :
    (env : Env) (path : List ℕ) (id : ℕ) (t : Trace)
    → Answers Fits env
    → let (o, u) = run env (write_ota_file_to_partition path id) t in Ends (λ rc. IsBalanced t) o u
write_ota-IsBalanced env path id t d =
    run-Holds Fits (Settled t) env d _ t (write_ota-Settled path id t)
