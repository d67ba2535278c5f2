-- ===== src/HttpDl/Succeeds.antt =====
-- The command `http_dl` of src/http_dl.c and then `upgrade` of src/upgrade.c for the same file, where
-- only the network and the card may fail.
use esp32s3_szpi_sta.Base.{
  ℕ, suc, ◌+◌, ◌^◌, ◌≤◌, ◌<◌, ◌≡◌, refl, sym, ap, ◌∙◌, ◌⊎◌, inl, inr, false, true, List, [], ◌∷◌,
  ◌++◌, ℤ, pos, is_neg, length, drop, codes, arith, length-append, length-drop,
}
use esp32s3_szpi_sta.HttpDl.{cmd_http_dl}
use esp32s3_szpi_sta.HttpDl.Kept.{perform-Avoids}
use esp32s3_szpi_sta.HttpDl.Quiet.{stores}
use esp32s3_szpi_sta.HttpDl.Observed.{saved}
use esp32s3_szpi_sta.HttpDl.Filed.{file_after, StoresOver, ReadsFile-kept, IsKept, IsKept-call}
use esp32s3_szpi_sta.HttpDl.Upgraded.{update, IsUntouched, IsDownloaded, download-Holds}
use esp32s3_szpi_sta.Upgrade.{
  full_path, root_path, cmd_upgrade, image_path, perform_ota_upgrade_from_file,
}
use esp32s3_szpi_sta.Upgrade.Succeeds.{Works, IsUpgraded, perform-Works, perform-Works_empty}
use esp32s3_szpi_sta.Zephyr.Calls.{
  Call, Answer, file, failed, got, fs, stat, read, open_file, flash, kernel, malloc, boot,
  request_upgrade,
}
use esp32s3_szpi_sta.Zephyr.Prog.{ret, Trace, Env, run, Holds}
use esp32s3_szpi_sta.Zephyr.Holds.{
  Admits, Answers, Ends, Ends-and, run-Holds, Holds-then, Holds-mono, Holds-narrow, Holds-weaken,
}
use esp32s3_szpi_sta.Zephyr.Avoids.{Holds-avoids}
use esp32s3_szpi_sta.Zephyr.Documented.{ReadsFile}
use esp32s3_szpi_sta.Zephyr.Usage.{reboots, IsLaid}

-- no call fails but those of the network and writes into files
abbrev pub Thrives : Admits
Thrives t (fs (stat p)) (rc, e) = (rc ≡ pos 0) × (e.type ≡ file)
Thrives t (fs (read n)) (failed e) = ⊥
Thrives t (fs (open_file p f)) rc = is_neg rc ≡ false
Thrives t (flash c) rc = is_neg rc ≡ false
Thrives t (kernel (malloc n)) r = r ≡ true
Thrives t (boot request_upgrade) rc = is_neg rc ≡ false
Thrives _ _ _ = Unit

-- and the card works as in `StoresOver`
abbrev pub ThrivesOver : ℕ → List ℕ → List ℕ → Admits
ThrivesOver capacity target old t c r = StoresOver capacity target old t c r × Thrives t c r

Thrives-Works :
    (path content : List ℕ) (t : Trace) (c : Call) (r : Answer c)
    → ReadsFile path content t c r
    → Thrives t c r
    → Works path content t c r
Thrives-Works path content t (fs (stat p)) (rc, e) d k = (k.0, k.1, λ same. d same (ap is_neg k.0))
Thrives-Works path content t (fs (read n)) (failed e) d k = k
Thrives-Works path content t (fs (read n)) (got bs) d k = d
Thrives-Works path content t (fs (open_file p f)) r d k = k
Thrives-Works path content t (flash c) r d k = k
Thrives-Works path content t (kernel (malloc n)) r d k = k
Thrives-Works path content t (boot request_upgrade) r d k = k
Thrives-Works path content t _ r d k = tt

-- The file `target` is what was downloaded. The device was restarted once, with the whole of that
-- file in slot 0, unless it is empty.
abbrev pub IsBrought : ℕ → List ℕ → List ℕ → Trace → Trace → Type 0
IsBrought slot0 target old t v =
    IsDownloaded target t v
    × (((file_after old v ≡ []) × (reboots v ≡ reboots t))
        ⊎ IsUpgraded slot0 (file_after old v) t v)

brought :
    (slot0 : ℕ) (target old : List ℕ) (t u v : Trace)
    → IsUntouched t u
    → IsDownloaded target t u
    → IsKept u v
    → ((file_after old u ≡ []) × (reboots v ≡ reboots u)) ⊎ IsUpgraded slot0 (file_after old u) u v
    → IsBrought slot0 target old t v
brought slot0 target old t u v un (to, todo, sv, rest, e, all) k h = (
  (
    k.3 ∙ to,
    todo,
    k.1 ∙ sv,
    rest,
    e ∙ ap (λ ys. ys ++ rest) (sym k.0),
    λ same. all (sym k.2 ∙ same),
  ),
  elim h [
    | inl (empty, same) ↦ inl (ap (λ xs. xs ++ drop (length xs) old) k.0 ∙ empty, same ∙ un.0)
    | inr (rb, rq, laid, a, w) ↦ inr (
      rb ∙ ap suc un.0,
      rq ∙ ap suc un.1,
      laid,
      a,
      w ∙ ap (λ xs. xs ++ drop (length xs) old) (sym k.0),
    )
  ],
)

module _ (capacity fuel : ℕ) (target old : List ℕ) (more : capacity < fuel)
    (fits : length old ≤ capacity) (small : capacity + 4095 < 2 ^ 32) where
  -- what the upgrade does with the file as it stands
  installed :
      (slot0 : ℕ) (path content : List ℕ) (u : Trace)
      → content ≡ file_after old u
      → length content ≤ capacity
      → IsLaid u
      → Holds
          (Works path content)
          (perform_ota_upgrade_from_file slot0 path)
          u
          (Ends (λ _ v. ((content ≡ []) × (reboots v ≡ reboots u)) ⊎ IsUpgraded slot0 content u v))
  installed slot0 path [] u e room laid =
      Holds-weaken (Works path []) _ _ (perform_ota_upgrade_from_file slot0 path) u
        (λ _ v h. inl (refl, h)) (perform-Works_empty path slot0 u)
  installed slot0 path (x ∷ xs) u e room laid =
      Holds-weaken (Works path (x ∷ xs)) _ _ (perform_ota_upgrade_from_file slot0 path) u
        (λ _ v h. inr h) (perform-Works (x ∷ xs) path slot0 u (omega arith) (omega arith) laid)

  upgrade-Brings :
      (slot0 : ℕ) (name : List ℕ) (t u : Trace)
      → IsUntouched t u
      → IsDownloaded target t u
      → target ≡ full_path root_path name
      → length (saved u) ≤ capacity
      → Holds
          (ThrivesOver capacity target old)
          (cmd_upgrade slot0 (codes "upgrade" ∷ name ∷ []))
          u
          (Ends (λ rc v. IsBrought slot0 target old t v))
  unfolding cmd_upgrade image_path
  upgrade-Brings slot0 name t u un all named room =
      let E = ThrivesOver capacity target old in
      let content = file_after old u in
      let m = perform_ota_upgrade_from_file slot0 target in
      let R : Unit {0} → Trace → Type 0 =
        λ _ v. ((content ≡ []) × (reboots v ≡ reboots u)) ⊎ IsUpgraded slot0 content u v in
      let l = length-append (saved u) (drop (length (saved u)) old) in
      let d' = length-drop (length (saved u)) old in
      rw (sym named) (
        Holds-then E (λ r v. R r v × IsKept u v) (Ends (λ rc v. IsBrought slot0 target old t v)) m
          (λ _. ret (pos 0)) u
          (Holds-mono E m u (Ends-and R (IsKept u)) (
            Holds-avoids stores (Works target content) E (IsKept u) (Ends R) m u (IsKept-call u)
              (λ v c r k e.
                Thrives-Works target content v c r (ReadsFile-kept target old u v c r k e.0.1) e.1)
              (refl, refl, refl, refl) (perform-Avoids slot0 target)
              (installed slot0 target content u refl (omega arith) un.2)))
          (λ r v (h, k). brought slot0 target old t u v un all k h))

  update-Brings :
      (slot0 : ℕ) (hostname port path name : List ℕ) (t : Trace)
      → target ≡ full_path root_path name
      → IsLaid t
      → Holds
          (ThrivesOver capacity target old)
          (update fuel slot0 hostname port path name)
          t
          (Ends (λ rc v. IsBrought slot0 target old t v))
  update-Brings slot0 hostname port path name t named laid =
      let E = ThrivesOver capacity target old in
      let m = cmd_http_dl fuel (codes "http_dl" ∷ hostname ∷ port ∷ path ∷ name ∷ []) in
      let R : ℤ → Trace → Type 0 =
        λ rc u. IsUntouched t u × IsDownloaded target t u × (length (saved u) ≤ capacity) in
      Holds-then E R _ m _ t
        (Holds-narrow (StoresOver capacity target old) E (Ends R) m t (λ u c r e. e.0)
          (download-Holds capacity fuel target old more fits small hostname port path name t named
            laid))
        (λ rc u (un, d, room). upgrade-Brings slot0 name t u un d named room)

-- Where only the network and the writes of the download may fail, the device gets what was saved:
-- reads of the file under /SD: that is named give what was written, over what it held before, and no
-- read fails, a write that does not
-- fail writes everything and fits the card, files can be opened, there is memory, the directory tells
-- a file, and flash and MCUboot do what they are asked. Then `http_dl` and then `upgrade` for that name end. That file, the last one opened for
-- writing, then is the beginning of the bodies served, all of them if no write
-- failed, and behind them what it held before. If it is not empty, MCUboot was asked once to boot
-- it, with the whole of it in slot 0, from its start on, piece behind piece, in what was erased, and
-- the device was restarted once,
-- also where the download is not complete; if it is empty, the device was not restarted. The old
-- file fits the card, the card holds less than 4 GB less a sector, and the fuel is more than that.
pub update-IsBrought :
    (env : Env) (capacity fuel slot0 : ℕ) (old hostname port path name : List ℕ) (t : Trace)
    → capacity < fuel
    → length old ≤ capacity
    → capacity + 4095 < 2 ^ 32
    → Answers (ThrivesOver capacity (full_path root_path name) old) env
    → IsLaid t
    → let (o, u) = run env (update fuel slot0 hostname port path name) t in
      Ends (λ rc v. IsBrought slot0 (full_path root_path name) old t v) o u
update-IsBrought env capacity fuel slot0 old hostname port path name t more fits small d laid =
    let target = full_path root_path name in
    run-Holds (ThrivesOver capacity target old) (Ends (λ rc v. IsBrought slot0 target old t v)) env
      d (update fuel slot0 hostname port path name) t
      (update-Brings capacity fuel target old more fits small slot0 hostname port path name t refl
        laid)
