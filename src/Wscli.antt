-- ===== src/Wscli.antt =====
-- src/wscli.c: the sockets of the WebSocket client.
pub mod Sockets
pub mod Recv
mod Examples
use esp32s3_szpi_sta.Base.{
  ℕ, zero, suc, Bool, true, false, not, ◌||◌, List, [], ◌∷◌, ℤ, pos, negsuc, is_neg, is_zero,
  length, ◌==◌, if◌then◌else◌,
}
use esp32s3_szpi_sta.Zephyr.Calls.{
  got, failed, socket, connect_sock, close_sock, errno, recv, send, websocket_connect,
  websocket_ping, net, sleep, kernel,
}
use esp32s3_szpi_sta.Zephyr.Prog.{Prog, ret, out_of_fuel, ◌>>=◌, ◌>>◌, ask}

-- `g_sock4` and `g_websock4`
pub record Wscli : Type 0 where
  pub sock4 : ℤ
  pub websock4 : ℤ

-- The return value of `setup_socket` is always 0; this is `*sock`.
unfoldable pub ws_setup_socket : Prog ℤ
ws_setup_socket = ask (net socket)

-- the return value of `connect_socket`, and `*sock`
unfoldable pub ws_connect_socket : Prog (ℤ × ℤ)
unfolding ws_setup_socket
ws_connect_socket = do
  sock ← ws_setup_socket
  if is_neg sock
      then ret (negsuc 0, sock)
      else do rc ← ask (net (connect_sock sock)); ret (if is_neg rc then negsuc 0 else rc, sock)

-- `has_ipv4` is IS_ENABLED(CONFIG_NET_IPV4).
unfoldable pub wscli_init : Bool → Wscli → Prog (ℤ × Wscli)
unfolding ws_connect_socket
wscli_init has_ipv4 s = if not has_ipv4 then ret (negsuc 0, s) else do
  (rc, sock) ← ws_connect_socket
  if not (is_zero rc) || is_neg sock then ret (negsuc 0, record s { sock4 = sock }) else do
    websock ← ask (net (websocket_connect sock))
    if is_neg websock
        then (do
          ask (net (close_sock sock))
          ret (negsuc 0, record { sock4 = negsuc 0; websock4 = websock }))
        else ret (pos 0, record { sock4 = sock; websock4 = websock })

-- `if (fd >= 0) { close(fd); fd = -1; }`, and the descriptor that it leaves
unfoldable pub close_open : ℤ → Prog ℤ
close_open fd = if is_neg fd then ret fd else do ask (net (close_sock fd)); ret (negsuc 0)

unfoldable pub wscli_fini : Wscli → Prog (ℤ × Wscli)
unfolding close_open
wscli_fini s = do
  websock ← close_open s.websock4
  sock ← close_open s.sock4
  ret (pos 0, record { sock4 = sock; websock4 = websock })

unfoldable pub wscli_getsock : Wscli → ℤ
wscli_getsock s = s.websock4

unfoldable pub wscli_send : ℤ → List ℕ → Prog ℤ
wscli_send sock buf = ask (net (send sock buf))

unfoldable pub wscli_ping : ℤ → Prog (Unit {0})
wscli_ping ws_sock =
    if is_neg ws_sock then ret tt else do ask (net (websocket_ping ws_sock)); ret tt

-- EAGAIN or ETIMEDOUT
unfoldable pub is_retried : ℕ → Bool
is_retried e = e == 11 || e == 116

-- what `wscli_recv` does where `recv` gives nothing
unfoldable pub retry : Prog (ℤ × List ℕ) → Prog (ℤ × List ℕ)
retry again = do
  e ← ask (net errno)
  if is_retried e then (do ask (kernel (sleep 50)); again) else ret (negsuc 0, [])

-- The result, and the bytes that it has put at the beginning of the buffer. The code sets no bound
-- on its rounds, so the fuel is an argument.
unfoldable pub wscli_recv : ℕ → ℤ → ℕ → Prog (ℤ × List ℕ)
unfolding retry
wscli_recv zero sock buf_len = out_of_fuel
wscli_recv (suc fuel) sock buf_len = do
  r ← ask (net (recv sock buf_len))
  elim r [
    | failed e ↦ retry (wscli_recv fuel sock buf_len)
    | got [] ↦ retry (wscli_recv fuel sock buf_len)
    | got (b ∷ bs) ↦ ret (pos (length (b ∷ bs)), b ∷ bs)
  ]
