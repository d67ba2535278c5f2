-- ===== src/Main/Poll.antt =====
-- The poll loop of src/main.c, and `main`.
use esp32s3_szpi_sta.Base.{
  ℕ, zero, suc, Bool, false, not, ◌||◌, List, [], ◌∷◌, ◌++◌, ℤ, pos, negsuc, neg, is_neg, is_zero,
  Option, none, some, get_elem?, if◌then◌else◌,
}
use esp32s3_szpi_sta.Ble.State.{Ble}
use esp32s3_szpi_sta.FatFs.{fatfs_init}
use esp32s3_szpi_sta.Main.Queue.{evt_send, evt_timer_out, evt_wifi_sta_start, evt_ble_start}
use esp32s3_szpi_sta.Main.Handle.{Config, MainState, evt_handle}
use esp32s3_szpi_sta.Rpc.{Parse, rpc_execute}
use esp32s3_szpi_sta.Upgrade.{upgrade_check_image}
use esp32s3_szpi_sta.Wscli.{Wscli, wscli_init, wscli_getsock, wscli_recv, wscli_send}
use esp32s3_szpi_sta.Zephyr.Calls.{
  Revents, poll, eventfd, eventfd_read, posix, wait, bt, sleep, kernel,
}
use esp32s3_szpi_sta.Zephyr.Prog.{Prog, ret, fault, out_of_fuel, ◌>>=◌, ◌>>◌, ask}

abbrev pub unless_neg : ℤ → List ℤ
unless_neg fd = if is_neg fd then [] else fd ∷ []

-- the first `fd_n` of `p_fds`
unfoldable pub poll_fds : MainState → List ℤ
poll_fds m = unless_neg m.event_fd ++ unless_neg m.socket_fd

-- `p_fds[i]`; behind the first `fd_n` it is not initialised
abbrev pub at_index : {A : Type 0} {B : Type 0} → List A → ℕ → (A → Prog B) → Prog B
at_index xs i body = elim (get_elem? xs i) [ none ↦ fault | some x ↦ body x ]

abbrev pub ws_msg_handle : Parse → List ℕ → Ble → Prog Ble
ws_msg_handle parse msg b = rpc_execute parse msg b

-- What `poll_loop` does for the socket: the result with which it returns at once, or `none`.
-- `recv_buf` has 1024 bytes.
unfoldable pub poll_socket :
    Parse → Config → ℕ → List Revents → MainState → Prog (Option ℤ × MainState)
poll_socket parse cfg fuel revents m =
    if not cfg.sta_network_en || is_neg m.socket_fd
    then ret (none, m)
    else at_index revents 1 λ r.
      if r.pollnval
      then ret (some (neg 9), m)
      else if r.pollerr
      then ret (some (neg 5), m)
      else if r.pollin
      then (at_index (poll_fds m) 1 λ fd. do
        (r_len, msg) ← wscli_recv fuel fd 1024
        if is_neg r_len
            then ret (some (pos 0), record m { socket_fd = negsuc 0 })
            else do ble' ← ws_msg_handle parse msg m.ble; ret (none, record m { ble = ble' }))
      else ret (none, m)

unfoldable pub poll_event : Config → ℕ → List Revents → MainState → Prog MainState
poll_event cfg fuel revents m =
    if is_neg m.event_fd
    then ret m
    else at_index revents 0 λ r.
      if not r.is_set
      then ret m
      else at_index (poll_fds m) 0 λ fd. do ask (posix (eventfd_read fd)); evt_handle fuel cfg m

unfoldable pub poll_loop : Parse → Config → ℕ → MainState → Prog (ℤ × MainState)
poll_loop parse cfg fuel m = do
  polled ← ask (posix (poll (poll_fds m) m.ble))
  let m' = record m { ble = polled.ble }
  if is_neg polled.result
      then ret (polled.result, m')
      else if is_zero polled.result
      then ret (neg 11, m')
      else do
        (early, later) ← poll_socket parse cfg fuel polled.revents m'
        elim early [
          | some rc ↦ ret (rc, later)
          | none ↦ do last ← poll_event cfg fuel polled.revents later; ret (pos 0, last)
        ]

-- the loop of `main`, which does not end; the fuel is for its rounds and the loops in them
unfoldable pub main_loop : Parse → Config → ℕ → MainState → Prog (Unit {0})
main_loop parse cfg zero m = out_of_fuel
main_loop parse cfg (suc fuel) m = do
  (rc, later) ← poll_loop parse cfg fuel m
  ble' ← ask (bt (wait 250 later.ble))
  main_loop parse cfg fuel (record later { ble = ble' })

-- The descriptor of the events; without one the thread sleeps for ever. The list, which
-- `sys_slist_init` empties here, is taken to be empty before.
unfoldable pub evt_init : Prog ℤ
evt_init = do evfd ← ask (posix eventfd); if is_neg evfd then out_of_fuel else ret evfd

-- `ble` are the shared variables at start-up
unfoldable pub main : Parse → Config → ℕ → Ble → Prog (Unit {0})
main parse cfg fuel ble = do
  ask (kernel (sleep 1000))
  upgrade_check_image
  fatfs_init fuel
  event_fd ← evt_init
  evt_send event_fd (if cfg.sta_network_en then evt_wifi_sta_start else evt_ble_start) 0
  main_loop parse cfg fuel (record { event_fd = event_fd; socket_fd = negsuc 0; ble = ble })

-- the thread that sends EVT_TIMER_OUT every ten seconds
unfoldable pub timer_looper : ℕ → ℤ → Prog (Unit {0})
timer_looper zero event_fd = out_of_fuel
timer_looper (suc fuel) event_fd = do
  ask (kernel (sleep 10000))
  evt_send event_fd evt_timer_out 0
  timer_looper fuel event_fd

unfoldable pub try_connect_ws : Bool → Wscli → MainState → Prog (ℤ × (Wscli × MainState))
try_connect_ws has_ipv4 s m = do
  (rc, s') ← wscli_init has_ipv4 s
  let websock = wscli_getsock s'
  if is_neg websock
      then ret (negsuc 0, (s', m))
      else ret (pos 0, (s', record m { socket_fd = websock }))

unfoldable pub send_msg_to_ws : MainState → List ℕ → Prog Bool
send_msg_to_ws m buf =
    if is_neg m.socket_fd
    then ret false
    else do rc ← wscli_send m.socket_fd buf; ret (not (is_neg rc || is_zero rc))
