-- ===== src/HttpClient.antt =====
-- src/http_client.c: requests to the HTTP relay that switches the television.
pub mod Sockets
pub mod Overrun
pub mod Apart
mod Examples
use esp32s3_szpi_sta.Base.{
  ℕ, zero, suc, List, [], ◌∷◌, ℤ, pos, negsuc, neg, is_neg, codes, ltb, ◌==◌, if◌then◌else◌,
}
use esp32s3_szpi_sta.Zephyr.Calls.{
  Response, socket, connect_sock, close_sock, errno, http_client_req, net,
}
use esp32s3_szpi_sta.Zephyr.Prog.{Prog, ret, fault, ◌>>=◌, ◌>>◌, ask}

-- the size of `recv_buf_ipv4`
abbrev pub max_recv_buf_len : ℕ
max_recv_buf_len = 512

abbrev pub econnaborted : ℕ
econnaborted = 113

-- `socket`, with its result in `*sock`; the return value of `setup_socket` is always 0
unfoldable pub setup_socket : Prog ℤ
setup_socket = ask (net socket)

-- the return value, and `*sock`
unfoldable pub connect_socket : Prog (ℤ × ℤ)
unfolding setup_socket
connect_socket = do
  sock ← setup_socket
  if is_neg sock then ret (negsuc 0, sock) else do
    rc ← ask (net (connect_sock sock))
    if is_neg rc
        then (do ask (net (close_sock sock)); e ← ask (net errno); ret (neg e, negsuc 0))
        else ret (rc, sock)

-- `rsp->recv_buf[rsp->data_len] = '\0'` is outside of the buffer if the fragment fills it.
unfoldable pub response_cb : Response → Prog ℤ
response_cb rsp = if ltb rsp.data_len max_recv_buf_len then ret (pos 0) else fault

-- the calls of the callback in the course of `http_client_req`
unfoldable pub deliver : List Response → Prog (Unit {0})
deliver [] = ret tt
deliver (rsp ∷ rsps) = response_cb rsp >>= λ _. deliver rsps

unfoldable pub run_http_get_req : List ℕ → Prog ℤ
run_http_get_req url = do
  (rc, sock4) ← connect_socket
  if is_neg sock4 then ret (neg econnaborted) else do
    answer ← ask (net (http_client_req sock4 url))
    deliver answer.responses
    ask (net (close_sock sock4))
    ret (pos 0)

unfoldable pub run_get_sk_v : Prog ℤ
run_get_sk_v = run_http_get_req (codes "/get?value=Relay") >>= λ _. ret (pos 0)

unfoldable pub set_url : ℕ → List ℕ
set_url v = if v == 0 then codes "/set?Relay=0" else codes "/set?Relay=1"

unfoldable pub run_set_sk_v : ℕ → Prog ℤ
run_set_sk_v v = run_http_get_req (set_url v) >>= λ _. ret (pos 0)

-- the result of the request, where there was a connection
unfoldable pub run_queries : Prog ℤ
run_queries = do
  (rc, sock4) ← connect_socket
  if is_neg sock4 then ret (neg econnaborted) else do
    answer ← ask (net (http_client_req sock4 (codes "/get?value=Relay")))
    deliver answer.responses
    ask (net (close_sock sock4))
    ret answer.result
