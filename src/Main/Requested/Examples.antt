-- ===== src/Main/Requested/Examples.antt =====
-- A server that asks for the wakeup advertising.
use esp32s3_szpi_sta.Base.{◌≡◌, refl, true, false, none, [], ◌∷◌, pos, neg, replicate, codes}
use esp32s3_szpi_sta.Ble.State.{disconnecte}
use esp32s3_szpi_sta.Main.Handle.{Config, MainState}
use esp32s3_szpi_sta.Main.Plain.{resume}
use esp32s3_szpi_sta.Main.Poll.{poll_fds, poll_loop}
use esp32s3_szpi_sta.Main.Requested.{
  commanded, ble_adv_request, readable, rest_of_round, poll_loop-commanded,
}
use esp32s3_szpi_sta.Rpc.{Parse}
use esp32s3_szpi_sta.Zephyr.Calls.{Revents, poll, posix, recv, net, got}
use esp32s3_szpi_sta.Zephyr.Prog.{Trace, Env, run}
use esp32s3_szpi_sta.Zephyr.Sample.{reader}

abbrev quiet : Revents
quiet = record { is_set = false; pollin = false; pollerr = false; pollnval = false }

abbrev asking : Env
asking t (posix (poll fds b)) = record { result = pos 1; revents = quiet ∷ readable ∷ []; ble = b }
asking t (net (recv s n)) = got (codes "a request")
asking t c = reader [] t c

abbrev parser : Parse
parser json = (pos 7, ble_adv_request (codes "start") (codes "5") (codes "wakeup") [])

abbrev connected_state : MainState
connected_state = record {
  event_fd = pos 3;
  socket_fd = pos 4;
  ble = record {
    btrc_st = disconnecte;
    is_adv_running = false;
    wakeup_adv_mode = false;
    last_paired_addr = none;
    id = neg 1;
    fe_data = replicate 3 0;
    uuid_data = replicate 2 0;
    report_val = replicate 8 0;
    ctrl_point = replicate 1 0;
    simulate_input_allow = 0;
    bt_ck_running = false;
  };
}

abbrev config : Config
config = record { sta_network_en = true; has_settings = true }

poll_loop-commanded_example :
    let m = connected_state in
    let polled = asking [] (posix (poll (poll_fds m) m.ble)) in
    let t1 : Trace = (posix (poll (poll_fds m) m.ble), polled) ∷ [] in
    run asking (poll_loop parser config 9 m) []
    ≡ resume asking (rest_of_round config 9 polled.revents m) (
        run asking
          (commanded (codes "start") (codes "5") (codes "wakeup") polled.ble)
          ((net (recv m.socket_fd 1024), got (codes "a request")) ∷ t1))
poll_loop-commanded_example =
    poll_loop-commanded asking parser config 8 connected_state refl refl refl [] b'a'
      (codes " request") (codes "start") (codes "5") (codes "wakeup") [] 7 (0, refl, quiet, refl)
      refl refl
