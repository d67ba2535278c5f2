-- ===== src/HttpDl/Filed.antt =====
-- The command `http_dl` of src/http_dl.c as a whole: what the file holds behind the download, and what
-- its digest is computed from.
use mathlib.Core.Path.{subst}
use esp32s3_szpi_sta.Base.{
  ℕ, ◌+◌, ◌≤◌, ◌<◌, ◌≡◌, refl, sym, ap, ◌∙◌, ◌⊎◌, inl, inr, false, List, [], ◌∷◌, ◌++◌, ℤ, pos,
  negsuc, IsNeg, is_zero, length, take, drop, replicate, Bool-cases, arith, length-append,
  length-take, length-drop,
}
use esp32s3_szpi_sta.HttpDl.{DownloadCtx, no_download, http_dl_get_req, http_dl_file}
use esp32s3_szpi_sta.HttpDl.Observed.{saved, saved_to, served, failures}
use esp32s3_szpi_sta.HttpDl.Quiet.{moves, stores, calculate-Avoids-stores, get_req-Avoids}
use esp32s3_szpi_sta.HttpDl.Saved.{WritesAll, IsFetched, get_req-IsFetched}
use esp32s3_szpi_sta.Sha256.{Result, calculate_file_sha256}
use esp32s3_szpi_sta.Sha256.Digest.{IsDigest, calculate-Holds}
use esp32s3_szpi_sta.Upgrade.{full_path, root_path}
use esp32s3_szpi_sta.Zephyr.Calls.{
  Call, Answer, fs, open_file, create_write, write, close_file, net, http_client_req,
}
use esp32s3_szpi_sta.Zephyr.Prog.{Trace, Holds}
use esp32s3_szpi_sta.Zephyr.Holds.{
  Admits, Ends, Ends-and, Holds-then, Holds-both, Holds-mono, Holds-narrow,
}
use esp32s3_szpi_sta.Zephyr.Avoids.{Holds-avoids, Holds-kept}
use esp32s3_szpi_sta.Zephyr.Documented.{ReadsFile}
use esp32s3_szpi_sta.Zephyr.Usage.{hashed, digest}

-- What a file holds that held `old` and was opened without FS_O_TRUNC: the bytes written, and behind
-- them what stood there before.
abbrev pub file_after : List ℕ → Trace → List ℕ
file_after old t = saved t ++ drop (length (saved t)) old

-- a write that does not fail writes everything, and the card holds at most `capacity` bytes
abbrev pub StoresAll : ℕ → Admits
StoresAll capacity t (fs (write bs)) (pos n) = (n ≡ length bs) × (length (saved t) + n ≤ capacity)
StoresAll capacity _ _ _ = Unit

-- The file `target` held `old`, the card has room for `capacity` bytes, and reads of `target` give
-- what was written. Of other files nothing is said.
abbrev pub StoresOver : ℕ → List ℕ → List ℕ → Admits
StoresOver capacity target old t c r =
    StoresAll capacity t c r × ReadsFile target (file_after old t) t c r

StoresAll-WritesAll :
    (capacity : ℕ) (t : Trace) (c : Call) (r : Answer c)
    → StoresAll capacity t c r
    → WritesAll t c r
StoresAll-WritesAll capacity t (fs (write bs)) (pos n) (e, room) = e
StoresAll-WritesAll capacity t (fs (write bs)) (negsuc e) d = tt
StoresAll-WritesAll capacity t _ r d = tt

saved-fits :
    (capacity : ℕ) (t : Trace) (c : Call) (r : Answer c)
    → StoresAll capacity t c r
    → length (saved t) ≤ capacity
    → length (saved ((c, r) ∷ t)) ≤ capacity
saved-fits capacity t (fs (open_file p create_write)) r d h = omega arith
saved-fits capacity t (fs (write bs)) (pos n) (e, room) h =
    omega (arith, length-append (saved t) (take n bs), length-take n bs)
saved-fits capacity t _ r d h = h

abbrev pub IsKept : Trace → Trace → Type 0
IsKept t u =
    (saved u ≡ saved t)
    × (served u ≡ served t)
    × (failures u ≡ failures t)
    × (saved_to u ≡ saved_to t)

-- no other file was opened for writing
saved_to-call :
    (target : List ℕ) (u : Trace) (c : Call) (r : Answer c)
    → moves c ≡ false
    → saved_to u ≡ target
    → saved_to ((c, r) ∷ u) ≡ target
saved_to-call target u (fs (open_file p f)) r e h = cc
saved_to-call target u _ r e h = h

pub IsKept-call :
    (t u : Trace) (c : Call) (r : Answer c) → stores c ≡ false → IsKept t u → IsKept t ((c, r) ∷ u)
IsKept-call t u (fs (open_file p create_write)) r e k = cc
IsKept-call t u (fs (write bs)) r e k = cc
IsKept-call t u (net (http_client_req s path)) r e k = cc
IsKept-call t u _ r e k = k

pub ReadsFile-kept :
    (target old : List ℕ) (t u : Trace) (c : Call) (r : Answer c)
    → IsKept t u
    → ReadsFile target (file_after old u) u c r
    → ReadsFile target (file_after old t) u c r
ReadsFile-kept target old t u c r (s, v, f, o) h =
    subst (λ xs. ReadsFile target (xs ++ drop (length xs) old) u c r) s h

-- What is printed: the digest of what the file holds, or zeros where it could not be computed.
abbrev pub IsPrinted : List ℕ → List ℕ → Trace → Type 0
IsPrinted content sha256 u =
    ((hashed u ≡ content) × (digest u ≡ sha256)) ⊎ (sha256 ≡ replicate 32 0)

-- What is left of the download, in `target`: the beginning of the bodies served, all of them if no
-- write failed, written over what the file held.
abbrev pub IsFiled : ℕ → List ℕ → List ℕ → Trace → ℤ × List ℕ → Trace → Type 0
IsFiled capacity target old t (rc, sha256) u =
    (saved_to u ≡ target)
    × ((IsNeg rc
          × (sha256 ≡ [])
          × (saved u ≡ [])
          × (served u ≡ served t)
          × (failures u ≡ failures t))
        ⊎ ((rc ≡ pos 0)
            × (todo : List ℕ) × (served u ≡ served t ++ todo)
            × (rest : List ℕ) × (todo ≡ saved u ++ rest)
            × (failures u ≡ failures t → rest ≡ [])
            × (length (saved u) ≤ capacity)
            × IsPrinted (file_after old u) sha256 u))

printed :
    (content : List ℕ) (s u : Trace) (r : Result)
    → IsDigest content s (replicate 32 0) r u
    → IsPrinted content r.1 u
printed content s u r (o, h, good, bad) = elim (Bool-cases (is_zero r.0)) [
  | inl z ↦ inl (good z)
  | inr z ↦ inr (bad z)
]

module _ (capacity fuel : ℕ) (target old : List ℕ) (more : capacity < fuel)
    (fits : length old ≤ capacity) where
  hashing-Holds :
      (t : Trace)
      → length (saved t) ≤ capacity
      → Holds
          (StoresOver capacity target old)
          (calculate_file_sha256 fuel target (replicate 32 0))
          t
          (Ends (λ r u. IsDigest (file_after old t) t (replicate 32 0) r u × IsKept t u))
  hashing-Holds t room =
      let E = StoresOver capacity target old in
      let m = calculate_file_sha256 fuel target (replicate 32 0) in
      let R : Result → Trace → Type 0 = IsDigest (file_after old t) t (replicate 32 0) in
      let l = length-append (saved t) (drop (length (saved t)) old) in
      let d = length-drop (length (saved t)) old in
      Holds-mono E m t (Ends-and R (IsKept t)) (
        Holds-avoids stores (ReadsFile target (file_after old t)) E (IsKept t) (Ends R) m t
          (IsKept-call t) (λ u c r k e. ReadsFile-kept target old t u c r k e.1)
          (refl, refl, refl, refl) (calculate-Avoids-stores fuel target (replicate 32 0))
          (calculate-Holds fuel (file_after old t) target (replicate 32 0) t (omega arith)))

  fetch-Holds :
      (hostname port path : List ℕ) (t : Trace)
      → length (saved t) ≤ capacity
      → saved_to t ≡ target
      → Holds (StoresOver capacity target old) (http_dl_get_req hostname port path no_download) t (
          Ends (λ r u.
            IsFetched no_download t r u × ((length (saved u) ≤ capacity) × (saved_to u ≡ target))))
  fetch-Holds hostname port path t room here =
      let E = StoresOver capacity target old in
      let m = http_dl_get_req hostname port path no_download in
      let R : ℤ × DownloadCtx → Trace → Type 0 = IsFetched no_download t in
      let I : Trace → Type 0 = λ u. length (saved u) ≤ capacity in
      let K : Trace → Type 0 = λ u. saved_to u ≡ target in
      let J : Trace → Type 0 = λ u. I u × K u in
      Holds-mono E m t (Ends-and R J) (
        Holds-both E (Ends R) (λ o u. J u) m t
          (Holds-narrow WritesAll E (Ends R) m t (λ u c r e. StoresAll-WritesAll capacity u c r e.0)
            (get_req-IsFetched hostname port path no_download t (omega arith)))
          (Holds-avoids moves E E K (λ o u. I u) m t (saved_to-call target) (λ u c r k e. e) here
            (get_req-Avoids hostname port path no_download)
            (Holds-kept E I m t (λ u c r e. saved-fits capacity u c r e.0) room)))

  pub file-IsFiled :
      (hostname port path save_path : List ℕ) (t : Trace)
      → target ≡ full_path root_path save_path
      → Holds
          (StoresOver capacity target old)
          (http_dl_file fuel hostname port path save_path)
          t
          (Ends (IsFiled capacity target old t))
  unfolding http_dl_file
  file-IsFiled hostname port path save_path t named = rw (sym named) (elim [
    | negsuc e ↦ λ d. (refl, inl (refl, refl, refl, refl, refl))
    | pos n ↦ λ d.
        let E = StoresOver capacity target old in
        Holds-then E
          (λ r u.
            IsFetched no_download ((fs (open_file target create_write), pos n) ∷ t) r u
            × ((length (saved u) ≤ capacity) × (saved_to u ≡ target)))
          (Ends (IsFiled capacity target old t)) (http_dl_get_req hostname port path no_download) _
          _ (fetch-Holds hostname port path _ (omega arith) refl)
          (λ (rc, ctx) u ((answer, balance, todo, sv, (xs, rest, e, w, c, le, all)), (room, here))
              closed _.
            Holds-then E
              (λ r v.
                IsDigest (file_after old u) ((fs close_file, closed) ∷ u) (replicate 32 0) r v
                × IsKept u v)
              (Ends (IsFiled capacity target old t))
              (calculate_file_sha256 fuel target (replicate 32 0)) _ _
              (hashing-Holds ((fs close_file, closed) ∷ u) room)
              (λ r v (dg, (sv', served', failures', to')). (
                to' ∙ here,
                inr (
                  refl,
                  todo,
                  served' ∙ sv,
                  rest,
                  e ∙ ap (λ ys. ys ++ rest) (sym (sv' ∙ w)),
                  (λ same. all (sym failures' ∙ same)),
                  rw sv' room,
                  subst (λ ys. IsPrinted (ys ++ drop (length ys) old) r.1 v) (sym sv')
                      (printed (file_after old u) ((fs close_file, closed) ∷ u) v r dg),
                ),
              )))
  ])
