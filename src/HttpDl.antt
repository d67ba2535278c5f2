-- ===== src/HttpDl.antt =====
-- src/http_dl.c: the download of a file over HTTP onto the SD card.
pub mod Progress
pub mod Observed
pub mod Saved
pub mod Quiet
pub mod Filed
pub mod Kept
pub mod Upgraded
pub mod Succeeds
mod Examples
use esp32s3_szpi_sta.Base.{
  ℕ, zero, suc, ◌+◌, ◌*◌, ◌/◌, ◌%◌, ◌^◌, ◌-◌, Bool, true, false, not, ◌&&◌, ◌||◌, List, [], ◌∷◌,
  ◌++◌, ℤ, pos, negsuc, neg, is_neg, is_zero, length, replicate, codes, ltb, leb, ◌==◌,
  if◌then◌else◌,
}
use esp32s3_szpi_sta.Zephyr.Calls.{
  Response, getaddrinfo, socket, connect_sock, close_sock, errno, http_client_req, net, write,
  open_file, create_write, close_file, fs, uptime, kernel,
}
use esp32s3_szpi_sta.Zephyr.Prog.{Prog, ret, ◌>>=◌, ◌>>◌, ask}
use esp32s3_szpi_sta.HttpClient.{econnaborted}
use esp32s3_szpi_sta.Upgrade.{full_path, root_path}
use esp32s3_szpi_sta.Sha256.{calculate_file_sha256}

-- `struct download_ctx`, without the file handle and the shell
pub record DownloadCtx : Type 0 where
  pub last_print_time : ℕ
  pub total_written : ℕ
  pub total_size : ℕ
  pub has_size : Bool

-- `*sock` is -1 before the call. A failed `socket` still gives 0.
unfoldable pub http_dl_socket_init : List ℕ → List ℕ → Prog (ℤ × ℤ)
http_dl_socket_init hostname port = do
  rc ← ask (net (getaddrinfo hostname port))
  if not (is_zero rc) then ret (negsuc 0, negsuc 0) else do sock ← ask (net socket); ret (rc, sock)

-- the return value, and `*sock`
unfoldable pub http_dl_socket_connect : List ℕ → List ℕ → Prog (ℤ × ℤ)
unfolding http_dl_socket_init
http_dl_socket_connect hostname port = do
  (rc, sock) ← http_dl_socket_init hostname port
  if is_neg rc || is_neg sock then ret (negsuc 0, sock) else do
    rc ← ask (net (connect_sock sock))
    if is_neg rc
        then (do ask (net (close_sock sock)); e ← ask (net errno); ret (neg e, negsuc 0))
        else ret (rc, sock)

-- the size comes from the first fragment that has one
unfoldable pub note_size : Response → DownloadCtx → DownloadCtx
note_size rsp ctx =
    if rsp.cl_present && not ctx.has_size
    then record ctx { total_size = rsp.content_length; has_size = true }
    else ctx

-- `(int)((uint64_t)total_written * 100 / total_size)`, at most 100; the cast keeps 32 bits
unfoldable pub percent : ℕ → ℕ → ℤ
percent total_written total_size =
    let p = total_written * 100 / total_size % 2 ^ 32 in
    if ltb p (2 ^ 31) then (if ltb 100 p then pos 100 else pos p) else neg (2 ^ 32 - p)

-- `percent / 5` where it is positive; a bar of fewer than 0 characters is one of none
abbrev pub filled : ℤ → ℕ
filled (pos p) = p / 5
filled (negsuc p) = 0

-- the characters of `bar` from the `i`th on, `n` of them
abbrev pub bar_from : ℕ → ℕ → ℕ → List ℕ
bar_from zero i filled = []
bar_from (suc n) i filled = (if ltb i filled then b'=' else b' ') ∷ bar_from n (i + 1) filled

unfoldable pub bar : ℕ → ℕ → List ℕ
bar total_written total_size = bar_from 20 0 (filled (percent total_written total_size))

-- step 3 of the callback, without what it prints
unfoldable pub throttle : Response → DownloadCtx → Prog (ℤ × DownloadCtx)
throttle rsp ctx = do
  now ← ask (kernel uptime)
  ret (
    pos 0,
    if rsp.is_final || leb (ctx.last_print_time + 1000) now
        then record ctx { last_print_time = now }
        else ctx,
  )

-- `ctx->total_written += rsp->body_frag_len`, whatever `fs_write` has written
abbrev pub add_written : Response → DownloadCtx → DownloadCtx
add_written rsp ctx = record ctx {
  total_written = (ctx.total_written + length rsp.body_frag) % 2 ^ 32;
}

unfoldable pub http_dl_response_cb : Response → DownloadCtx → Prog (ℤ × DownloadCtx)
unfolding note_size
http_dl_response_cb rsp ctx =
    let sized = note_size rsp ctx in
    if rsp.body_found && ltb 0 (length rsp.body_frag)
    then (do
      written ← ask (fs (write rsp.body_frag))
      if is_neg written then ret (written, sized) else throttle rsp (add_written rsp sized))
    else throttle rsp sized

-- the calls of the callback in the course of `http_client_req`, which stops where one fails
unfoldable pub deliver_dl : List Response → DownloadCtx → Prog DownloadCtx
deliver_dl [] ctx = ret ctx
deliver_dl (rsp ∷ rsps) ctx = http_dl_response_cb rsp ctx >>= λ (err, later).
    if is_neg err then ret later else deliver_dl rsps later

-- The result of the request is dropped.
unfoldable pub http_dl_get_req : List ℕ → List ℕ → List ℕ → DownloadCtx → Prog (ℤ × DownloadCtx)
http_dl_get_req hostname port path ctx = do
  (rc, sock4) ← http_dl_socket_connect hostname port
  if is_neg sock4 then ret (neg econnaborted, ctx) else do
    answer ← ask (net (http_client_req sock4 path))
    later ← deliver_dl answer.responses ctx
    ask (net (close_sock sock4))
    ret (pos 0, later)

abbrev pub no_download : DownloadCtx
no_download = record { last_print_time = 0; total_written = 0; total_size = 0; has_size = false }

-- `http_dl_file`, with fuel for the digest of the file; its result, and the digest printed
unfoldable pub http_dl_file : ℕ → List ℕ → List ℕ → List ℕ → List ℕ → Prog (ℤ × List ℕ)
http_dl_file fuel hostname port path save_path = do
  let target = full_path root_path save_path
  rc ← ask (fs (open_file target create_write))
  if is_neg rc then ret (rc, []) else do
    (rc', ctx) ← http_dl_get_req hostname port path no_download
    ask (fs close_file)
    (rc'', output_sha256) ← calculate_file_sha256 fuel target (replicate 32 0)
    ret (pos 0, output_sha256)

unfoldable pub cmd_http_dl : ℕ → List (List ℕ) → Prog ℤ
cmd_http_dl fuel (cmd ∷ hostname ∷ port ∷ path ∷ save_path ∷ args) =
    http_dl_file fuel hostname port path save_path >>= λ (rc, sha256).
    if is_neg rc then ret rc else ret (pos 0)
cmd_http_dl fuel argv = ret (neg 22)
