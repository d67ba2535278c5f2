-- ===== src/Wscli/Examples.antt =====
-- Connections to concrete servers.
use esp32s3_szpi_sta.Base.{
  ◌≡◌, refl, true, [], ◌∷◌, pos, negsuc, take, length-take-le, arith, ◌==◌, if◌then◌else◌,
}
use esp32s3_szpi_sta.Zephyr.Calls.{got, recv, errno, connect_sock, net}
use esp32s3_szpi_sta.Zephyr.Prog.{Env, run, ◌>>=◌}
use esp32s3_szpi_sta.Zephyr.Holds.{Answers, Ends}
use esp32s3_szpi_sta.Zephyr.Usage.{unclosed}
use esp32s3_szpi_sta.Zephyr.Sample.{reader}
use esp32s3_szpi_sta.Wscli.{
  Wscli, ws_setup_socket, ws_connect_socket, close_open, is_retried, wscli_init, wscli_fini,
  wscli_recv,
}
use esp32s3_szpi_sta.Wscli.Sockets.{IsTracked, held, init-fini-IsTracked}
use esp32s3_szpi_sta.Wscli.Recv.{errors, RetriesUpTo, IsReceived, wscli_recv-IsReceived, IsShutDown}

-- a server that refuses the connection
refusing : Env
refusing t (net (connect_sock s)) = negsuc 110
refusing t c = reader [] t c

-- the state that a refused connection leaves
abbrev refused : Wscli
refused = record { sock4 = pos 0; websock4 = negsuc 0 }

-- two attempts and one end: two sockets, one of them closed
refused-leaks :
    let u =
      (run refusing
        (wscli_init true (record { sock4 = negsuc 0; websock4 = negsuc 0 }) >>= λ r.
          wscli_init true r.1 >>= λ r'. wscli_fini r'.1)
        []).1 in
    unclosed u ≡ 0 ∷ []
unfolding wscli_init ws_connect_socket ws_setup_socket wscli_fini close_open refusing reader run
refused-leaks = refl

init-fini-IsTracked_example :
    let (o, u) = run refusing (wscli_init true refused >>= λ r. wscli_fini r.1) [] in
    Ends (λ r v. IsTracked [] r.1 v × (held r.1 ≡ [])) o u
init-fini-IsTracked_example = init-fini-IsTracked refusing refused [] refl

-- a peer that sends a message at the second try
sending : Env
sending t (net (recv s n)) = got (take n (if errors t == 0 then [] else 1 ∷ []))
sending t (net errno) = if errors t == 0 then 11 else 104
sending t c = reader [] t c

sending-RetriesUpTo : Answers (RetriesUpTo 1) sending
unfolding sending is_retried
sending-RetriesUpTo t (net (recv s n)) = length-take-le n _
sending-RetriesUpTo t (net errno) = ground arith
sending-RetriesUpTo t _ = tt

wscli_recv-IsReceived_example :
    let (o, u) = run sending (wscli_recv 2 (pos 3) 1024) [] in Ends (λ r u. IsReceived 1024 r) o u
wscli_recv-IsReceived_example =
    wscli_recv-IsReceived sending 1 2 (pos 3) 1024 (omega arith) sending-RetriesUpTo

-- a peer that has closed the connection
shut : Env
shut t (net (recv s n)) = got []
shut t (net errno) = 11
shut t c = reader [] t c

shut-IsShutDown : Answers IsShutDown shut
unfolding shut is_retried
shut-IsShutDown t (net (recv s n)) = refl
shut-IsShutDown t (net errno) = refl
shut-IsShutDown t _ = tt
