-- ===== src/Main/Examples.antt =====
-- Runs of the main thread and of the threads around it.
use esp32s3_szpi_sta.Base.{
  ◌<◌, ◌≡◌, refl, ◌⊎◌, inl, Bool, true, false, Option, none, some, List, [], ◌∷◌, ℤ, pos, neg,
  replicate, arith,
}
use esp32s3_szpi_sta.Ble.State.{Ble, disconnecte}
use esp32s3_szpi_sta.Main.Drain.{handle_all, IsDrained, evt_handle-drains}
use esp32s3_szpi_sta.Main.Firmware.{Firmware, runs_sender, runs_wifi, runs_timer, Firmware-woken}
use esp32s3_szpi_sta.Main.Handle.{Config, MainState, evt_handle}
use esp32s3_szpi_sta.Main.Message.{EvtMsg}
use esp32s3_szpi_sta.Main.Plain.{taken}
use esp32s3_szpi_sta.Main.Poll.{poll_loop, main_loop, timer_looper}
use esp32s3_szpi_sta.Main.Queue.{
  evt_send, evt_timer_out, evt_wifi_connected, evt_msg_size, queued, counter,
}
use esp32s3_szpi_sta.Main.Served.{IsServed, poll_loop-IsServed}
use esp32s3_szpi_sta.Main.Station.{Delivers, wifi_events, IsStarted, connects-IsStarted}
use esp32s3_szpi_sta.Main.Starved.{SocketBroken, main_loop-starves}
use esp32s3_szpi_sta.Main.Threads.{Thread, with_threads, begins, calls, Reach, here, next}
use esp32s3_szpi_sta.Main.Woken.{KeepsEvents}
use esp32s3_szpi_sta.Rpc.{Parse}
use esp32s3_szpi_sta.Sta.{WifiEvent, connect_result, disconnect_result, wifi_event_handler}
use esp32s3_szpi_sta.Zephyr.Calls.{
  Revents, append, get, slist, eventfd, eventfd_write, eventfd_read, poll, posix, malloc, fs, flash,
  boot, psa, kernel, bt, net, wifi, disk,
}
use esp32s3_szpi_sta.Zephyr.Holds.{Answers, Ends}
use esp32s3_szpi_sta.Zephyr.Prog.{ret, unfinished, Trace, Env, run, ◌>>=◌}
use esp32s3_szpi_sta.Zephyr.Sample.{reader}

-- A sender and the Wi-Fi callback run at the same time, and behind them the timer thread starts.
abbrev both_sent : Trace
both_sent =
    (posix (eventfd_write (pos 3)), pos 0)
    ∷ (posix (eventfd_write (pos 3)), pos 0)
    ∷ (slist (append (record { type = evt_wifi_connected; len = 0 })), tt)
    ∷ (slist (append (record { type = evt_timer_out; len = 7 })), tt)
    ∷ (kernel (malloc evt_msg_size), true)
    ∷ (kernel (malloc evt_msg_size), true)
    ∷ []

-- the timer thread in its first sleep
abbrev sleeping : Thread
sleeping = timer_looper 1 (pos 3)

both_run :
    Reach
      (KeepsEvents 3)
      (Firmware 3)
      (with_threads [] [])
      (with_threads both_sent (sleeping ∷ ret tt ∷ ret tt ∷ []))
unfolding evt_send wifi_event_handler timer_looper
both_run =
    next
      (next
        (next
          (next
            (next
              (next
                (next
                  (next (next here (begins _ (runs_sender evt_timer_out 7) refl))
                    (begins _ (runs_wifi connect_result) refl))
                  (calls (_ ∷ []) [] _ _ true refl tt refl))
                (calls [] (_ ∷ []) _ _ true refl tt refl))
              (calls (_ ∷ []) [] _ _ tt refl tt refl))
            (calls [] (_ ∷ []) _ _ tt refl tt refl))
          (calls (_ ∷ []) [] _ _ (pos 0) refl refl refl))
        (calls [] (_ ∷ []) _ _ (pos 0) refl refl refl))
      (begins _ (runs_timer 1) refl)

Firmware-woken_example : (queued both_sent ≡ []) ⊎ (0 < counter both_sent)
unfolding timer_looper
Firmware-woken_example =
    Firmware-woken 3 (with_threads both_sent (sleeping ∷ ret tt ∷ ret tt ∷ [])) both_run
      (tt, (tt, (tt, tt)))

-- the variables at start-up
abbrev start_ble : Ble
start_ble = record {
  btrc_st = disconnecte;
  is_adv_running = false;
  wakeup_adv_mode = false;
  last_paired_addr = none;
  id = neg 1;
  fe_data = replicate 3 0;
  uuid_data = replicate 2 0;
  report_val = replicate 8 0;
  ctrl_point = replicate 1 0;
  simulate_input_allow = 0;
  bt_ck_running = false;
}

abbrev config : Config
config = record { sta_network_en = true; has_settings = true }

abbrev with_socket : ℤ → MainState
with_socket fd = record { event_fd = pos 3; socket_fd = fd; ble = start_ble }

abbrev revents_of : Bool → Bool → Revents
revents_of set nval = record { is_set = set; pollin = set; pollerr = false; pollnval = nval }

-- The list and the eventfd work, and `poll` reports the eventfd.
abbrev first_of : List EvtMsg → Option EvtMsg
first_of [] = none
first_of (msg ∷ msgs) = some msg

unfoldable keeper : Env
keeper t (slist get) = first_of (queued t)
keeper t (posix eventfd) = pos 3
keeper t (posix (poll fds b)) = record {
  result = pos 1;
  revents = revents_of true false ∷ [];
  ble = b;
}
keeper t c = reader [] t c

first_of-KeepsEvents :
    (t : Trace) (msgs : List EvtMsg) → queued t ≡ msgs → KeepsEvents 3 t (slist get) (first_of msgs)
first_of-KeepsEvents t [] e = e
first_of-KeepsEvents t (msg ∷ msgs) e = (msgs, e)

keeper-KeepsEvents : Answers (KeepsEvents 3) keeper
unfolding keeper reader
keeper-KeepsEvents t (slist get) = first_of-KeepsEvents t (queued t) refl
keeper-KeepsEvents t (slist (append msg)) = tt
keeper-KeepsEvents t (posix eventfd) = refl
keeper-KeepsEvents t (posix (poll fds b)) = tt
keeper-KeepsEvents t (posix (eventfd_write fd)) = refl
keeper-KeepsEvents t (posix (eventfd_read fd)) = tt
keeper-KeepsEvents t (fs c) = tt
keeper-KeepsEvents t (flash c) = tt
keeper-KeepsEvents t (boot c) = tt
keeper-KeepsEvents t (psa c) = tt
keeper-KeepsEvents t (kernel c) = tt
keeper-KeepsEvents t (bt c) = tt
keeper-KeepsEvents t (net c) = tt
keeper-KeepsEvents t (wifi c) = tt
keeper-KeepsEvents t (disk c) = tt

evt_handle-drains_example :
    let (o, u) = run keeper (evt_handle 9 config (with_socket (neg 1))) both_sent in
    ((o, u) ≡ run keeper (handle_all config (queued both_sent) (with_socket (neg 1))) both_sent)
    × Ends (IsDrained (queued both_sent) both_sent) o u
evt_handle-drains_example =
    evt_handle-drains keeper 3 config 9 (with_socket (neg 1)) both_sent keeper-KeepsEvents
      (omega arith)

-- a parser that takes no request
abbrev refusing : Parse
refusing json = (neg 22, record { func = none; paras = [] })

poll_loop-IsServed_example :
    let (o, u) = run keeper (poll_loop refusing config 9 (with_socket (neg 1))) both_sent in
    Ends (IsServed both_sent) o u
unfolding keeper
poll_loop-IsServed_example =
    poll_loop-IsServed keeper 3 refusing config 9 (with_socket (neg 1)) both_sent refl refl
      keeper-KeepsEvents (0, refl, revents_of true false, [], refl, refl) (omega arith)

-- `poll` reports the eventfd, and POLLNVAL for the WebSocket
unfoldable broken : Env
broken t (posix (poll fds b)) = record {
  result = pos 2;
  revents = revents_of true false ∷ revents_of true true ∷ [];
  ble = b;
}
broken t c = reader [] t c

broken-SocketBroken : Answers SocketBroken broken
unfolding broken reader
broken-SocketBroken t (posix (poll fds b)) =
    (1, refl, revents_of true false, revents_of true true, [], refl, inl refl)
broken-SocketBroken t (posix eventfd) = tt
broken-SocketBroken t (posix (eventfd_write fd)) = tt
broken-SocketBroken t (posix (eventfd_read fd)) = tt
broken-SocketBroken t (fs c) = tt
broken-SocketBroken t (flash c) = tt
broken-SocketBroken t (boot c) = tt
broken-SocketBroken t (psa c) = tt
broken-SocketBroken t (kernel c) = tt
broken-SocketBroken t (bt c) = tt
broken-SocketBroken t (net c) = tt
broken-SocketBroken t (slist c) = tt
broken-SocketBroken t (wifi c) = tt
broken-SocketBroken t (disk c) = tt

main_loop-starves_example :
    let (o, u) = run broken (main_loop refusing config 40 (with_socket (pos 5))) both_sent in
    (o ≡ unfinished) × (taken u ≡ taken both_sent)
main_loop-starves_example =
    main_loop-starves broken refusing config 40 (with_socket (pos 5)) both_sent refl refl
      broken-SocketBroken

keeper-Delivers : Answers (Delivers 3) keeper
unfolding keeper reader
keeper-Delivers t (kernel (malloc n)) = refl
keeper-Delivers t (slist get) = first_of-KeepsEvents t (queued t) refl
keeper-Delivers t (posix eventfd) = refl
keeper-Delivers t (posix (eventfd_write fd)) = refl
keeper-Delivers t _ = tt

-- an attempt, a loss of the connection and another attempt
abbrev lost_once : List WifiEvent
lost_once = connect_result ∷ disconnect_result ∷ connect_result ∷ []

connects-IsStarted_example :
    let m = with_socket (neg 1) in
    let (o, u) = run keeper (wifi_events (pos 3) lost_once >>= λ _. evt_handle 5 config m) [] in
    Ends (IsStarted 2 [] m) o u
connects-IsStarted_example =
    connects-IsStarted keeper 3 config 5 (with_socket (neg 1)) [] lost_once keeper-Delivers refl
      (omega arith)
