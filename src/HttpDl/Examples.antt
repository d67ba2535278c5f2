-- ===== src/HttpDl/Examples.antt =====
-- A download from a concrete server.
use esp32s3_szpi_sta.Base.{
  leb, ◌+◌, neg, if◌then◌else◌, Bool-cases, inl, inr, ℕ, ◌≡◌, refl, [], ◌∷◌, List, pos, true, false,
  codes, arith, length,
}
use esp32s3_szpi_sta.Zephyr.Calls.{
  Response, http_client_req, net, write, read, stat, fs, open_file, flash, kernel, malloc, boot,
  request_upgrade,
}
use esp32s3_szpi_sta.Zephyr.Prog.{Trace, Env, run}
use esp32s3_szpi_sta.Zephyr.Holds.{Answers, Ends}
use esp32s3_szpi_sta.Zephyr.Sample.{reader, reader-ReadsFile}
use esp32s3_szpi_sta.HttpDl.{
  no_download, http_dl_file, http_dl_get_req, http_dl_socket_connect, http_dl_socket_init,
  deliver_dl, http_dl_response_cb, note_size, throttle,
}
use esp32s3_szpi_sta.Upgrade.{full_path}
use esp32s3_szpi_sta.Sha256.{calculate_file_sha256, update_loop, finish}
use esp32s3_szpi_sta.Zephyr.Usage.{hashed}
use esp32s3_szpi_sta.HttpDl.Observed.{saved}
use esp32s3_szpi_sta.HttpDl.Filed.{file_after, StoresOver}
use esp32s3_szpi_sta.HttpDl.Upgraded.{update, IsUpdated, update-IsUpdated}
use esp32s3_szpi_sta.HttpDl.Succeeds.{ThrivesOver, IsBrought, update-IsBrought}
use esp32s3_szpi_sta.HttpDl.Saved.{WritesAll, IsFetched, http_dl_get_req-IsFetched}

abbrev part : List ℕ → Response
part bs = record {
  data_len = length bs;
  cl_present = true;
  content_length = 6;
  body_found = true;
  body_frag = bs;
  is_final = false;
}

-- a server that sends a file in two parts, and a card with room for it
serving : Env
serving t (net (http_client_req s url)) = record {
  responses = part (codes "fir") ∷ part (codes "mw") ∷ [];
  result = pos 9;
}
serving t (fs (write bs)) = pos (length bs)
serving t c = reader [] t c

serving-WritesAll : Answers WritesAll serving
unfolding serving
serving-WritesAll t (fs (write bs)) = refl
serving-WritesAll t _ = tt

saved-run :
    saved (run serving (http_dl_get_req (codes "h") (codes "80") (codes "/a") no_download) []).1
    ≡ codes "firmw"
unfolding http_dl_get_req http_dl_socket_connect http_dl_socket_init deliver_dl http_dl_response_cb
    note_size throttle serving reader run
saved-run = refl

http_dl_get_req-IsFetched_example :
    let (o, u) =
      run serving (http_dl_get_req (codes "h") (codes "80") (codes "/a") no_download) [] in
    Ends (IsFetched no_download []) o u
http_dl_get_req-IsFetched_example =
    http_dl_get_req-IsFetched serving (codes "h") (codes "80") (codes "/a") no_download []
      (omega arith) serving-WritesAll

abbrev saved_name : List ℕ
saved_name = codes "/SD:/a"

-- a card with room for 10 bytes, on which the file holds `old`
abbrev storing : List ℕ → Env
storing old t (net (http_client_req s url)) = serving t (net (http_client_req s url))
storing old t (fs (write bs)) =
    if leb (length (saved t) + length bs) 10 then pos (length bs) else neg 28
storing old t c = reader (file_after old t) t c

storing-write :
    (old bs : List ℕ) (t : Trace)
    → StoresOver 10 saved_name old t (fs (write bs)) (storing old t (fs (write bs)))
storing-write old bs t = elim (Bool-cases (leb (length (saved t) + length bs) 10)) [
  | inl room ↦ rw room ((refl, ground arith), tt)
  | inr full ↦ rw full (tt, tt)
]

storing-StoresOver : (old : List ℕ) → Answers (StoresOver 10 saved_name old) (storing old)
storing-StoresOver old t (fs (write bs)) = storing-write old bs t
storing-StoresOver old t (net (http_client_req s url)) = (tt, tt)
storing-StoresOver old t (fs (read n)) =
    (tt, reader-ReadsFile saved_name (file_after old t) t (fs (read n)))
storing-StoresOver old t (fs (stat p)) =
    (tt, reader-ReadsFile saved_name (file_after old t) t (fs (stat p)))
storing-StoresOver old t _ = (tt, tt)

-- the tail of the old file is under the digest
tail-run :
    let http_dl = http_dl_file 11 (codes "h") (codes "80") (codes "/a") (codes "a") in
    hashed (run (storing (codes "longer")) http_dl []).1 ≡ codes "firmwr"
unfolding run http_dl_file http_dl_get_req reader http_dl_socket_connect deliver_dl serving
    http_dl_response_cb throttle calculate_file_sha256 update_loop finish
tail-run = refl

update-IsUpdated_example :
    let old = codes "longer" in
    let (o, u) =
      run (storing old) (update 11 1 (codes "h") (codes "80") (codes "/a") (codes "a")) [] in
    Ends (λ rc v. IsUpdated 1 saved_name old [] v) o u
unfolding full_path
update-IsUpdated_example =
    update-IsUpdated (storing (codes "longer")) 10 11 1 (codes "longer") (codes "h") (codes "80")
      (codes "/a") (codes "a") [] (omega arith) (omega arith) (omega arith)
      (storing-StoresOver (codes "longer")) tt

storing-ThrivesOver : (old : List ℕ) → Answers (ThrivesOver 10 saved_name old) (storing old)
unfolding reader
storing-ThrivesOver old t (fs (write bs)) = (storing-write old bs t, tt)
storing-ThrivesOver old t (fs (stat p)) = (storing-StoresOver old t (fs (stat p)), (refl, refl))
storing-ThrivesOver old t (fs (open_file p f)) = ((tt, tt), refl)
storing-ThrivesOver old t (flash c) = ((tt, tt), refl)
storing-ThrivesOver old t (kernel (malloc n)) = ((tt, tt), refl)
storing-ThrivesOver old t (boot request_upgrade) = ((tt, tt), refl)
storing-ThrivesOver old t c = (storing-StoresOver old t c, tt)

update-IsBrought_example :
    let old = codes "longer" in
    let (o, u) =
      run (storing old) (update 11 1 (codes "h") (codes "80") (codes "/a") (codes "a")) [] in
    Ends (λ rc v. IsBrought 1 saved_name old [] v) o u
unfolding full_path
update-IsBrought_example =
    update-IsBrought (storing (codes "longer")) 10 11 1 (codes "longer") (codes "h") (codes "80")
      (codes "/a") (codes "a") [] (omega arith) (omega arith) (omega arith)
      (storing-ThrivesOver (codes "longer")) tt
