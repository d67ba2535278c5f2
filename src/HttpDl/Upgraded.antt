-- ===== src/HttpDl/Upgraded.antt =====
-- The command `http_dl` of src/http_dl.c and then `upgrade` of src/upgrade.c for the same file: which
-- image the device boots.
use esp32s3_szpi_sta.Base.{
  ℕ, suc, ◌+◌, ◌^◌, ◌≤◌, ◌<◌, ◌≡◌, refl, sym, ap, ◌∙◌, ◌⊎◌, inl, inr, false, List, [], ◌∷◌, ◌++◌, ℤ,
  pos, is_neg, length, drop, codes, arith, append-nil, length-append, length-drop,
}
use esp32s3_szpi_sta.HttpDl.{http_dl_file, cmd_http_dl}
use esp32s3_szpi_sta.HttpDl.Kept.{perform-Avoids}
use esp32s3_szpi_sta.HttpDl.Quiet.{stores, installs, http_dl_file-Avoids}
use esp32s3_szpi_sta.HttpDl.Observed.{saved, saved_to, served, failures}
use esp32s3_szpi_sta.HttpDl.Filed.{
  file_after, StoresOver, IsFiled, file-IsFiled, ReadsFile-kept, IsKept, IsKept-call,
}
use esp32s3_szpi_sta.Upgrade.{
  full_path, root_path, cmd_upgrade, image_path, perform_ota_upgrade_from_file,
}
use esp32s3_szpi_sta.Upgrade.Reboot.{IsRestarted, perform-Holds}
use esp32s3_szpi_sta.Zephyr.Calls.{Call, Answer, flash, boot}
use esp32s3_szpi_sta.Zephyr.Prog.{Prog, ret, ◌>>=◌, Trace, Env, run, Holds}
use esp32s3_szpi_sta.Zephyr.Holds.{
  Holds-if, Answers, Ends, Ends-and, run-Holds, Holds-then, Holds-mono,
}
use esp32s3_szpi_sta.Zephyr.Avoids.{Holds-avoids}
use esp32s3_szpi_sta.Zephyr.Documented.{ReadsFile}
use esp32s3_szpi_sta.Zephyr.Usage.{area, reboots, requests, written, IsLaid}

-- the device was not restarted, nor asked to boot another image
abbrev pub IsUntouched : Trace → Trace → Type 0
IsUntouched t u = (reboots u ≡ reboots t) × (requests u ≡ requests t) × IsLaid u

IsUntouched-call :
    (t u : Trace) (c : Call) (r : Answer c)
    → installs c ≡ false
    → IsUntouched t u
    → IsUntouched t ((c, r) ∷ u)
IsUntouched-call t u (flash c) r e k = cc
IsUntouched-call t u (boot c) r e k = cc
IsUntouched-call t u _ r e k = k

-- The file `target` was opened for writing, and holds the beginning of the bodies served, all of them if no write failed, and behind them
-- what it held before.
abbrev pub IsDownloaded : List ℕ → Trace → Trace → Type 0
IsDownloaded target t u =
    (saved_to u ≡ target)
    × (todo : List ℕ) × (served u ≡ served t ++ todo)
    × (rest : List ℕ) × (todo ≡ saved u ++ rest)
    × (failures u ≡ failures t → rest ≡ [])

-- Either no restart, or one restart of a device that holds what was downloaded in slot 0 and was
-- asked to boot it.
abbrev pub IsUpdated : ℕ → List ℕ → List ℕ → Trace → Trace → Type 0
IsUpdated slot0 target old t u =
    (reboots u ≡ reboots t)
    ⊎ ((reboots u ≡ suc (reboots t))
        × (requests u ≡ suc (requests t))
        × IsLaid u
        × (area u ≡ slot0)
        × (written u ≡ file_after old u)
        × IsDownloaded target t u)

filed-IsDownloaded :
    (capacity : ℕ) (target old : List ℕ) (t u : Trace) (r : ℤ × List ℕ)
    → IsFiled capacity target old t r u
    → IsDownloaded target t u × (length (saved u) ≤ capacity)
filed-IsDownloaded capacity target old t u r (to, inl (n, s, none_saved, none_served, f)) = (
  (to, [], none_served ∙ sym (append-nil (served t)), [], (rw none_saved refl), λ _. refl),
  rw none_saved (omega arith),
)
filed-IsDownloaded capacity target old t u r (to, inr (z, todo, sv, rest, e, all, room, p)) =
    ((to, todo, sv, rest, e, all), room)

updated :
    (slot0 : ℕ) (target old : List ℕ) (t u v : Trace)
    → IsUntouched t u
    → IsDownloaded target t u
    → IsKept u v
    → IsRestarted slot0 (file_after old u) u v
    → IsUpdated slot0 target old t v
updated slot0 target old t u v un d k (inl same) = inl (same ∙ un.0)
updated slot0 target old t u v un (to, todo, sv, rest, e, all) k (inr (rb, rq, laid, a, w)) = inr (
  rb ∙ ap suc un.0,
  rq ∙ ap suc un.1,
  laid,
  a,
  w ∙ ap (λ xs. xs ++ drop (length xs) old) (sym k.0),
  (
    k.3 ∙ to,
    todo,
    k.1 ∙ sv,
    rest,
    e ∙ ap (λ ys. ys ++ rest) (sym k.0),
    λ same. all (sym k.2 ∙ same),
  ),
)

-- `http_dl` with a name for the file, and then `upgrade` with that name
abbrev pub update : ℕ → ℕ → List ℕ → List ℕ → List ℕ → List ℕ → Prog ℤ
update fuel slot0 hostname port path name =
    cmd_http_dl fuel (codes "http_dl" ∷ hostname ∷ port ∷ path ∷ name ∷ []) >>= λ rc.
    cmd_upgrade slot0 (codes "upgrade" ∷ name ∷ [])

module _ (capacity fuel : ℕ) (target old : List ℕ) (more : capacity < fuel)
    (fits : length old ≤ capacity) (small : capacity + 4095 < 2 ^ 32) where
  pub download-Holds :
      (hostname port path name : List ℕ) (t : Trace)
      → target ≡ full_path root_path name
      → IsLaid t
      → Holds
          (StoresOver capacity target old)
          (cmd_http_dl fuel (codes "http_dl" ∷ hostname ∷ port ∷ path ∷ name ∷ []))
          t
          (Ends (λ rc u. IsUntouched t u × IsDownloaded target t u × (length (saved u) ≤ capacity)))
  unfolding cmd_http_dl
  download-Holds hostname port path name t named laid =
      let E = StoresOver capacity target old in
      let m = http_dl_file fuel hostname port path name in
      let R : ℤ × List ℕ → Trace → Type 0 = IsFiled capacity target old t in
      Holds-then E (λ r u. R r u × IsUntouched t u) _ m _ t
        (Holds-mono E m t (Ends-and R (IsUntouched t)) (
          Holds-avoids installs E E (IsUntouched t) (Ends R) m t (IsUntouched-call t)
            (λ u c r j e. e) (refl, refl, laid) (http_dl_file-Avoids fuel hostname port path name)
            (file-IsFiled capacity fuel target old more fits hostname port path name t named)))
        (λ r u (filed, un).
          let (d, room) = filed-IsDownloaded capacity target old t u r filed in
          Holds-if E _ (is_neg r.0) _ _ u (un, d, room) (un, d, room))

  upgrade-Holds :
      (slot0 : ℕ) (name : List ℕ) (t u : Trace)
      → IsUntouched t u
      → IsDownloaded target t u
      → target ≡ full_path root_path name
      → length (saved u) ≤ capacity
      → Holds
          (StoresOver capacity target old)
          (cmd_upgrade slot0 (codes "upgrade" ∷ name ∷ []))
          u
          (Ends (λ rc v. IsUpdated slot0 target old t v))
  unfolding cmd_upgrade image_path
  upgrade-Holds slot0 name t u un d named room =
      let E = StoresOver capacity target old in
      let m = perform_ota_upgrade_from_file slot0 target in
      let R : Unit {0} → Trace → Type 0 = λ _. IsRestarted slot0 (file_after old u) u in
      let l = length-append (saved u) (drop (length (saved u)) old) in
      let d' = length-drop (length (saved u)) old in
      rw (sym named) (
        Holds-then E (λ r v. R r v × IsKept u v) (Ends (λ rc v. IsUpdated slot0 target old t v)) m
          (λ _. ret (pos 0)) u
          (Holds-mono E m u (Ends-and R (IsKept u)) (
            Holds-avoids stores (ReadsFile target (file_after old u)) E (IsKept u) (Ends R) m u
              (IsKept-call u) (λ v c r k e. ReadsFile-kept target old u v c r k e.1)
              (refl, refl, refl, refl) (perform-Avoids slot0 target)
              (perform-Holds (file_after old u) target slot0 u (omega arith) un.2)))
          (λ r v (restarted, k). updated slot0 target old t u v un d k restarted))

  update-Holds :
      (slot0 : ℕ) (hostname port path name : List ℕ) (t : Trace)
      → target ≡ full_path root_path name
      → IsLaid t
      → Holds
          (StoresOver capacity target old)
          (update fuel slot0 hostname port path name)
          t
          (Ends (λ rc v. IsUpdated slot0 target old t v))
  update-Holds slot0 hostname port path name t named laid =
      Holds-then (StoresOver capacity target old)
        (λ rc u. IsUntouched t u × IsDownloaded target t u × (length (saved u) ≤ capacity)) _
        (cmd_http_dl fuel (codes "http_dl" ∷ hostname ∷ port ∷ path ∷ name ∷ [])) _ t
        (download-Holds hostname port path name t named laid)
        (λ rc u (un, d, room). upgrade-Holds slot0 name t u un d named room)

-- Where reads of the file under /SD: that is named give what was written, over what it held before,
-- and a write that does not fail writes everything and fits the card, `http_dl` and then `upgrade`
-- for that name end, whatever the network does. The device restarts at most once, and only after that
-- whole file was written into slot 0, from its start on, piece behind piece, into what was erased, and
-- MCUboot accepted the request to boot it; and that file, the last one opened for writing, is the
-- beginning of the bodies served, all of them if no write failed, and behind them what it held
-- before. The old file fits the card, the card holds less than 4 GB less a sector, and the fuel is
-- more than that.
pub update-IsUpdated :
    (env : Env) (capacity fuel slot0 : ℕ) (old hostname port path name : List ℕ) (t : Trace)
    → capacity < fuel
    → length old ≤ capacity
    → capacity + 4095 < 2 ^ 32
    → Answers (StoresOver capacity (full_path root_path name) old) env
    → IsLaid t
    → let (o, u) = run env (update fuel slot0 hostname port path name) t in
      Ends (λ rc v. IsUpdated slot0 (full_path root_path name) old t v) o u
update-IsUpdated env capacity fuel slot0 old hostname port path name t more fits small d laid =
    let target = full_path root_path name in
    run-Holds (StoresOver capacity target old) (Ends (λ rc v. IsUpdated slot0 target old t v)) env d
      (update fuel slot0 hostname port path name) t
      (update-Holds capacity fuel target old more fits small slot0 hostname port path name t refl
        laid)
