-- ===== src/HttpDl/Quiet.antt =====
-- Which calls the parts of a download of src/http_dl.c make, and which they leave out.
use esp32s3_szpi_sta.Base.{
  ℕ, zero, suc, ◌≡◌, refl, Bool, true, false, not, ◌&&◌, ◌||◌, List, [], ◌∷◌, negsuc, is_neg,
  is_zero, length, replicate, ltb,
}
use esp32s3_szpi_sta.HttpDl.{
  DownloadCtx, no_download, throttle, http_dl_response_cb, deliver_dl, http_dl_socket_init,
  http_dl_socket_connect, http_dl_get_req, http_dl_file,
}
use esp32s3_szpi_sta.Sha256.{calculate_file_sha256, update_loop, finish, give_up}
use esp32s3_szpi_sta.Upgrade.{full_path, root_path}
use esp32s3_szpi_sta.Zephyr.Calls.{
  fs, open_file, create_write, write, net, http_client_req, Call, Response, flash, boot, failed,
  got, finish_failed, finished,
}
use esp32s3_szpi_sta.Zephyr.Avoids.{Avoids, Avoids-if, Avoids-bind, Avoids-weaken}

-- the calls on which what is saved and served depends
abbrev pub stores : Call → Bool
stores (fs (open_file p create_write)) = true
stores (fs (write bs)) = true
stores (net (http_client_req s path)) = true
stores _ = false

-- the calls by which a device is given an image and restarted
abbrev pub installs : Call → Bool
installs (flash c) = true
installs (boot c) = true
installs _ = false

-- the calls that open a file
abbrev pub opens_file : Call → Bool
opens_file (fs (open_file p f)) = true
opens_file _ = false

-- the calls that install an image or open a file
abbrev pub moves : Call → Bool
moves c = installs c || opens_file c

-- the calls that store or install
abbrev changes : Call → Bool
changes c = stores c || installs c

neither_stores : (a b : Bool) → a || b ≡ false → a ≡ false
neither_stores true b e = e
neither_stores false b e = refl

pub neither_installs : (a b : Bool) → a || b ≡ false → b ≡ false
neither_installs true b e = cc
neither_installs false b e = e

give_up-Avoids : (e : ℕ) (out : List ℕ) → Avoids changes (give_up (negsuc e) out)
unfolding give_up
give_up-Avoids e out = (refl, λ _. (refl, λ _. tt))

update_loop-Avoids : (fuel : ℕ) (out : List ℕ) → Avoids changes (update_loop fuel out)
unfolding update_loop finish
update_loop-Avoids zero out = tt
update_loop-Avoids (suc fuel) out = (
  refl,
  elim [
    | failed e ↦ give_up-Avoids e out
    | got [] ↦
        (refl, elim [ finish_failed status ↦ give_up-Avoids _ out | finished d ↦ (refl, λ _. tt) ])
    | got (b ∷ bs) ↦ (
      refl,
      λ status.
          Avoids-if changes (is_zero status) _ _ (update_loop-Avoids fuel out)
            (give_up-Avoids _ out),
    )
  ],
)

calculate-Avoids :
    (fuel : ℕ) (path out : List ℕ) → Avoids changes (calculate_file_sha256 fuel path out)
unfolding calculate_file_sha256
calculate-Avoids fuel path out = (
  refl,
  λ status. Avoids-if changes (not (is_zero status)) _ _ tt (
    refl,
    λ rc. Avoids-if changes (is_neg rc) _ _ tt (
      refl,
      λ status'.
          Avoids-if changes (not (is_zero status')) _ _ (refl, λ _. tt)
            (update_loop-Avoids fuel out),
    ),
  ),
)

pub calculate-Avoids-stores :
    (fuel : ℕ) (path out : List ℕ) → Avoids stores (calculate_file_sha256 fuel path out)
calculate-Avoids-stores fuel path out =
    Avoids-weaken changes stores (calculate_file_sha256 fuel path out)
      (λ c e. neither_stores (stores c) (installs c) e) (calculate-Avoids fuel path out)

throttle-Avoids : (rsp : Response) (ctx : DownloadCtx) → Avoids moves (throttle rsp ctx)
unfolding throttle
throttle-Avoids rsp ctx = (refl, λ _. tt)

cb-Avoids : (rsp : Response) (ctx : DownloadCtx) → Avoids moves (http_dl_response_cb rsp ctx)
unfolding http_dl_response_cb
cb-Avoids rsp ctx =
    Avoids-if moves (rsp.body_found && ltb 0 (length rsp.body_frag)) _ _
      (refl, λ written'. Avoids-if moves (is_neg written') _ _ tt (throttle-Avoids rsp _))
      (throttle-Avoids rsp _)

deliver-Avoids : (rsps : List Response) (ctx : DownloadCtx) → Avoids moves (deliver_dl rsps ctx)
unfolding deliver_dl
deliver-Avoids [] ctx = tt
deliver-Avoids (rsp ∷ rsps) ctx =
    Avoids-bind moves (http_dl_response_cb rsp ctx) _ (cb-Avoids rsp ctx)
      λ r. Avoids-if moves (is_neg r.0) _ _ tt (deliver-Avoids rsps r.1)

connect-Avoids : (hostname port : List ℕ) → Avoids moves (http_dl_socket_connect hostname port)
unfolding http_dl_socket_connect http_dl_socket_init
connect-Avoids hostname port = (
  refl,
  λ rc. Avoids-bind moves _ _ (Avoids-if moves (not (is_zero rc)) _ _ tt (refl, λ sock. tt)) λ r.
      Avoids-if moves (is_neg r.0 || is_neg r.1) _ _ tt
        (refl, λ rc'. Avoids-if moves (is_neg rc') _ _ (refl, λ _. (refl, λ e. tt)) tt),
)

pub get_req-Avoids :
    (hostname port path : List ℕ) (ctx : DownloadCtx)
    → Avoids moves (http_dl_get_req hostname port path ctx)
unfolding http_dl_get_req
get_req-Avoids hostname port path ctx =
    Avoids-bind moves (http_dl_socket_connect hostname port) _ (connect-Avoids hostname port) λ r.
      Avoids-if moves (is_neg r.1) _ _ tt (
        refl,
        λ answer.
            Avoids-bind moves (deliver_dl answer.responses ctx) _
              (deliver-Avoids answer.responses ctx) (λ later. (refl, λ _. tt)),
      )

-- the whole download leaves flash and the boot loader alone
pub http_dl_file-Avoids :
    (fuel : ℕ) (hostname port path save_path : List ℕ)
    → Avoids installs (http_dl_file fuel hostname port path save_path)
unfolding http_dl_file
http_dl_file-Avoids fuel hostname port path save_path = (
  refl,
  λ rc. Avoids-if installs (is_neg rc) _ _ tt (
      Avoids-bind installs (http_dl_get_req hostname port path no_download) _
        (Avoids-weaken moves installs (http_dl_get_req hostname port path no_download)
          (λ c e. neither_stores (installs c) (opens_file c) e)
          (get_req-Avoids hostname port path no_download))
        λ r. (
          refl,
          λ _.
              Avoids-bind installs
                (calculate_file_sha256 fuel (full_path root_path save_path) (replicate 32 0)) _
                (Avoids-weaken changes installs
                  (calculate_file_sha256 fuel (full_path root_path save_path) (replicate 32 0))
                  (λ c e. neither_installs (stores c) (installs c) e)
                  (calculate-Avoids fuel (full_path root_path save_path) (replicate 32 0)))
                (λ r'. tt),
        )),
)
