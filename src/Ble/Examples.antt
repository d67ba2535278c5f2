-- ===== src/Ble/Examples.antt =====
-- Runs of the remote control's threads against concrete calls.
use esp32s3_szpi_sta.Base.{
  ◌+◌, ◌≤◌, ◌<◌, length, Option, codes, ◌≡◌, refl, true, false, none, some, [], ◌∷◌, pos, neg,
  replicate, arith,
}
use esp32s3_szpi_sta.Ble.AdvData.Shown.{PeerIs, IsShown, on_connected-shown}
use esp32s3_szpi_sta.Ble.State.{Addr, disconnecte, Ble}
use esp32s3_szpi_sta.Ble.Adv.{
  on_connected, try_advertising_start, advertising_stop, advertising_start, advertising_process,
  advertising_continue, bond_find,
}
use esp32s3_szpi_sta.Ble.Radio.{advertises, InTurn}
use esp32s3_szpi_sta.Ble.Interleave.{
  Sleeper, run_sem, run_until_wait, System, system, after, Step, Reach, here, next, starts, wakes,
}
use esp32s3_szpi_sta.Ble.Threads.{Handler, start, adv_work}
use esp32s3_szpi_sta.Ble.Mirror.{Reach-Mirrors}
use esp32s3_szpi_sta.Ble.Permitted.{gives, Reach-IsPermitted}
use esp32s3_szpi_sta.Ble.Sized.{Fits, IsSized, Reach-IsSized}
use esp32s3_szpi_sta.Ble.Lost.{told_early, told_early-Reach, stop-IsLost}
use esp32s3_szpi_sta.HttpClient.Sockets.{ShortResponses}
use esp32s3_szpi_sta.Ble.Check.Takes.{takes}
use esp32s3_szpi_sta.Ble.Check.Rounds.{IsRun, bt_ck_looper_thrd-IsRun}
use esp32s3_szpi_sta.Ble.Check.{bt_ck_looper_3, bt_ck_looper_thrd}
use esp32s3_szpi_sta.Ble.Check.Switches.{ReachesAndStops, AlternatesOnce, bt_ck_looper_3-Alternates}
use esp32s3_szpi_sta.Ble.Check.Looper.{StopsAndFits, IsStopped}
use esp32s3_szpi_sta.Ble.Check.Stop.{StopsBy}
use esp32s3_szpi_sta.Zephyr.Calls.{
  bt, conn_get_dst, reschedule, wait, net, http_client_req, socket, connect_sock,
}
use esp32s3_szpi_sta.Zephyr.Prog.{Env, ret, run, ask, ◌>>=◌, ◌>>◌}
use esp32s3_szpi_sta.Zephyr.Holds.{Answers, Ends}
use esp32s3_szpi_sta.Zephyr.Sample.{reader}

-- the variables at start-up
abbrev ble0 : Ble
ble0 = record {
  btrc_st = disconnecte;
  is_adv_running = false;
  wakeup_adv_mode = false;
  last_paired_addr = none;
  id = neg 1;
  fe_data = replicate 3 0;
  uuid_data = replicate 2 0;
  report_val = replicate 8 0;
  ctrl_point = replicate 1 0;
  simulate_input_allow = 0;
  bt_ck_running = false;
}

-- the state behind a run, where there is one
abbrev behind : Option System → System
behind (some s) = s
behind none = system ble0 []

-- `try_advertising_start` up to its sleep, and its end, and then the work item that it has submitted
abbrev asleep : System
asleep = behind (
    after (run_until_wait (reader []) (try_advertising_start true (pos 5) ble0) [])
      (system ble0 []))

abbrev after_sleep : Sleeper
after_sleep later = do
  started ← advertising_start later
  ask (bt (reschedule (pos 5000)))
  ret started

abbrev woken : System
woken = behind (
    after (run_until_wait (reader []) (after_sleep asleep.ble) asleep.trace)
      (record asleep { asleep = [] }))

abbrev advertising : System
advertising =
    behind (after (run_until_wait (reader []) (advertising_process woken.ble) woken.trace) woken)

asleep-Reach : Reach Handler (reader []) (system ble0 []) asleep
unfolding try_advertising_start advertising_stop run_until_wait reader
asleep-Reach =
    next here (starts (try_advertising_start true (pos 5)) [] (start true (pos 5) []) refl)

woken-Reach : Reach Handler (reader []) (system ble0 []) woken
unfolding try_advertising_start advertising_stop advertising_start run_until_wait reader bond_find
woken-Reach = next asleep-Reach (wakes [] [] after_sleep refl refl)

advertising-Reach : Reach Handler (reader []) (system ble0 []) advertising
unfolding try_advertising_start advertising_stop advertising_start run_until_wait reader bond_find
    advertising_process advertising_continue
advertising-Reach =
    next woken-Reach (starts advertising_process woken.trace (adv_work woken.trace) refl)

advertises-now : advertises advertising.trace ≡ true
unfolding run_until_wait try_advertising_start advertising_process advertising_continue
    advertising_start advertising_stop reader bond_find
advertises-now = refl

reader-ShortResponses : Answers ShortResponses (reader [])
unfolding reader
reader-ShortResponses t (net (http_client_req s url)) = tt
reader-ShortResponses t _ = tt

Reach-Mirrors_example :
    (advertising.ble.is_adv_running ≡ advertises advertising.trace) × InTurn advertising.trace
Reach-Mirrors_example =
    Reach-Mirrors (reader []) ble0 [] advertising reader-ShortResponses (refl, tt) advertising-Reach

-- the semaphore is given, and the check thread is about to take it
abbrev told : System
told = told_early (reader []) (pos 6) 3 2 ble0 []

Reach-IsPermitted_example :
    (takes told.trace + run_sem told.trace ≤ gives told.trace)
    × (told.ble.bt_ck_running ≡ true → (0 < takes told.trace) × (0 < gives told.trace))
Reach-IsPermitted_example =
    Reach-IsPermitted (reader []) ble0 told reader-ShortResponses refl
      (told_early-Reach (reader []) (pos 6) 3 2 ble0 [])

reader-Fits : Answers Fits (reader [])
unfolding reader
reader-Fits t (net (http_client_req s url)) = tt
reader-Fits t (bt conn_get_dst) = tt
reader-Fits t _ = tt

Reach-IsSized_example : IsSized advertising.ble
Reach-IsSized_example =
    Reach-IsSized (reader []) ble0 [] advertising reader-Fits
      (record {
        report = refl;
        bytes = omega arith;
        point = refl;
        address = refl;
        flag = omega arith;
      })
      advertising-Reach

stop-IsLost_example :
    let told = told_early (reader []) (pos 6) 3 2 ble0 [] in
    Reach Handler (reader []) (system ble0 []) told
    × (told.ble.bt_ck_running ≡ false)
    × ((s : System) × Step Handler (reader []) told s
        × (s.ble.bt_ck_running ≡ true)
        × (s.waiting ≡ [])
        × (length s.asleep ≡ 1))
stop-IsLost_example =
    stop-IsLost (reader []) (pos 6) 3 2 ble0 [] reader-ShortResponses (omega arith)

-- every sleep finds the command to stop given
stopping : Env
stopping t (bt (wait ms b)) = record b { bt_ck_running = false }
stopping t c = reader [] t c

stopping-StopsBy : Answers (StopsBy 0) stopping
unfolding stopping
stopping-StopsBy t (bt (wait ms b)) = λ _. refl
stopping-StopsBy t _ = tt

stopping-StopsAndFits : Answers (StopsAndFits 0) stopping
unfolding stopping reader
stopping-StopsAndFits t (bt (wait ms b)) = (λ _. refl, tt)
stopping-StopsAndFits t (net (http_client_req s url)) = (tt, tt)
stopping-StopsAndFits t _ = (tt, tt)

stopping-ReachesAndStops : Answers (ReachesAndStops 0) stopping
unfolding stopping reader
stopping-ReachesAndStops t (bt (wait ms b)) = (λ _. refl, tt)
stopping-ReachesAndStops t (net socket) = (tt, refl)
stopping-ReachesAndStops t (net (connect_sock s)) = (tt, refl)
stopping-ReachesAndStops t (net (http_client_req s url)) = (tt, tt)
stopping-ReachesAndStops t _ = (tt, tt)

bt_ck_looper_3-Alternates_example :
    let (o, u) = run stopping (bt_ck_looper_3 (pos 6) 3 ble0) [] in
    Ends (λ later v. IsStopped later v × AlternatesOnce [] later v) o u
bt_ck_looper_3-Alternates_example =
    bt_ck_looper_3-Alternates stopping 0 3 (pos 6) ble0 [] (omega arith) stopping-ReachesAndStops

bt_ck_looper_thrd-IsRun_example :
    let (o, u) = run stopping (bt_ck_looper_thrd (pos 6) 3 2 ble0) [] in Ends (IsRun 2 []) o u
bt_ck_looper_thrd-IsRun_example =
    bt_ck_looper_thrd-IsRun stopping 0 3 2 (pos 6) ble0 [] (omega arith) (omega arith)
      stopping-ReachesAndStops

abbrev peer : Addr
peer = record { type = 0; val = 1 ∷ 2 ∷ 3 ∷ 4 ∷ 5 ∷ 6 ∷ [] }

-- the connection is with `peer`
connecting : Env
connecting t (bt conn_get_dst) = some peer
connecting t c = reader [] t c

connecting-PeerIs : Answers (PeerIs peer) connecting
unfolding connecting
connecting-PeerIs t (bt conn_get_dst) = refl
connecting-PeerIs t _ = tt

on_connected-shown_example :
    let (o, u) = run connecting (on_connected 0 ble0) [] in
    Ends (IsShown (codes "remote") (1 ∷ 2 ∷ 3 ∷ 4 ∷ 5 ∷ 6 ∷ [])) o u
on_connected-shown_example =
    on_connected-shown connecting peer (codes "remote") 0 ble0 [] connecting-PeerIs refl
      (omega arith)
