-- ===== src/Main/Requested.antt =====
-- A request of the WebSocket server, from `poll_loop` in src/main.c by `rpc_execute` in
-- src/rpc_route.c to the advertising in src/ble_rc.c.
mod Examples
use mathlib.Core.Path.{subst}
use esp32s3_szpi_sta.Base.{
  sym, is_zero, neg, Option, ℕ, suc, ◌≡◌, refl, ◌∙◌, ap, Bool, true, false, Bool-cases, inl, inr,
  none, some, List, [], ◌∷◌, ℤ, pos, is_neg, codes, atoi, strn_eq, if◌then◌else◌,
}
use esp32s3_szpi_sta.Ble.State.{Ble}
use esp32s3_szpi_sta.Ble.Adv.{try_advertising_start, cmd_start_adv, cmd_wakeup, stop_command}
use esp32s3_szpi_sta.Main.Handle.{Config, MainState}
use esp32s3_szpi_sta.Main.Poll.{poll_fds, poll_socket, poll_event, poll_loop}
use esp32s3_szpi_sta.Main.Plain.{resume, run-bind}
use esp32s3_szpi_sta.Rpc.{
  Parameter, RpcFunc, Parse, get_v_by_k, ble_adv, func_ble_adv, route, rpc_execute,
}
use esp32s3_szpi_sta.Wscli.{wscli_recv}
use esp32s3_szpi_sta.Zephyr.Calls.{Call, Answer, Revents, Polled, poll, posix, recv, net, got}
use esp32s3_szpi_sta.Zephyr.Prog.{
  Prog, ret, ◌>>=◌, ◌>>◌, call, Outcome, done, faulted, unfinished, Trace, Env, run,
}

-- the command that a request stands for, as the shell has it
abbrev pub commanded : List ℕ → List ℕ → List ℕ → Ble → Prog Ble
commanded op duration mode b =
    if strn_eq 5 op (codes "start")
    then (if strn_eq 6 mode (codes "wakeup")
        then cmd_wakeup (codes "start_wakeup" ∷ duration ∷ []) b
        else cmd_start_adv (codes "start_adv" ∷ duration ∷ []) b)
    else if strn_eq 5 op (codes "stop")
    then stop_command b
    else ret b

-- the request `ble_adv` with its three parameters
abbrev pub ble_adv_request : List ℕ → List ℕ → List ℕ → List Parameter → RpcFunc
ble_adv_request op duration mode more = record {
  func = some (codes "ble_adv");
  paras =
      record { k = some (codes "op"); v = some op }
      ∷ record { k = some (codes "duration"); v = some duration }
      ∷ record { k = some (codes "mode"); v = some mode }
      ∷ more;
}

started :
    (wakeup : Bool) (duration : List ℕ) (b : Ble)
    → try_advertising_start wakeup (atoi duration) b ≡ (
        if wakeup
        then cmd_wakeup (codes "start_wakeup" ∷ duration ∷ []) b
        else cmd_start_adv (codes "start_adv" ∷ duration ∷ []) b)
unfolding cmd_wakeup cmd_start_adv
started true duration b = refl
started false duration b = refl

routed :
    (op duration mode : List ℕ) (more : List Parameter) (b : Ble)
    → route (codes "ble_adv") (ble_adv_request op duration mode more).paras b
      ≡ commanded op duration mode b
unfolding route func_ble_adv ble_adv get_v_by_k
routed op duration mode more b = rw (started (strn_eq 6 mode (codes "wakeup")) duration b) refl

rpc_execute-commanded :
    (parse : Parse) (json op duration mode : List ℕ) (more : List Parameter) (n : ℕ) (b : Ble)
    → parse json ≡ (pos n, ble_adv_request op duration mode more)
    → rpc_execute parse json b ≡ commanded op duration mode b
unfolding rpc_execute
rpc_execute-commanded parse json op duration mode more n b e =
    subst
      (λ r.
        (if is_neg r.0
          then ret b
          else elim r.1.func [ none ↦ ret b | some func ↦ route func r.1.paras b ])
        ≡ commanded op duration mode b)
      (sym e) (routed op duration mode more b)

-- the descriptor has bytes to read, and no error
abbrev pub readable : Revents
readable = record { is_set = true; pollin = true; pollerr = false; pollnval = false }

-- what `poll` has reported: a number above 0, and a message on the WebSocket, its second descriptor
abbrev pub IsReadable : Polled → Type 0
IsReadable polled =
    (n : ℕ) × (polled.result ≡ pos (suc n)) × (r : Revents) × (polled.revents ≡ r ∷ readable ∷ [])

-- the rest of a round, once the socket has been seen to
abbrev pub rest_of_round : Config → ℕ → List Revents → MainState → Ble → Prog (ℤ × MainState)
rest_of_round cfg fuel revents m ble' =
    poll_event cfg fuel revents (record m { ble = ble' }) >>= λ last. ret (pos 0, last)

resume-none :
    (env : Env) (cfg : Config) (fuel : ℕ) (revents : List Revents) (m : MainState)
    (p : Outcome Ble × Trace)
    → resume {B = ℤ × MainState} env
        (λ (early, later). elim early [
          | some rc ↦ ret (rc, later)
          | none ↦ poll_event cfg fuel revents later >>= λ last. ret (pos 0, last)
        ])
        (resume {B = Option ℤ × MainState} env (λ ble'. ret (none, record m { ble = ble' })) p)
      ≡ resume env (rest_of_round cfg fuel revents m) p
unfolding run
resume-none env cfg fuel revents m (done b, u) = refl
resume-none env cfg fuel revents m (faulted, u) = refl
resume-none env cfg fuel revents m (unfinished, u) = refl

module _ (env : Env) (parse : Parse) (cfg : Config) (fuel : ℕ) (m : MainState) (t : Trace)
    (event : is_neg m.event_fd ≡ false) (socket : is_neg m.socket_fd ≡ false)
    (sta : cfg.sta_network_en ≡ true) where
  -- the request is handled, and nothing is left undone for the WebSocket
  poll_socket-requested :
      (revents : List Revents) (r : Revents) (msg : ℕ) (msgs : List ℕ)
      → revents ≡ r ∷ readable ∷ []
      → env t (net (recv m.socket_fd 1024)) ≡ got (msg ∷ msgs)
      → run env (poll_socket parse cfg (suc fuel) revents m) t
        ≡ run env
            (rpc_execute parse (msg ∷ msgs) m.ble >>= λ ble'. ret (none, record m { ble = ble' }))
            ((net (recv m.socket_fd 1024), got (msg ∷ msgs)) ∷ t)
  unfolding poll_socket poll_fds wscli_recv run
  poll_socket-requested revents r msg msgs h e = rw (h, sta, socket, event, e) refl

module _ (env : Env) (parse : Parse) (cfg : Config) (fuel : ℕ) (m : MainState)
    (event : is_neg m.event_fd ≡ false) (socket : is_neg m.socket_fd ≡ false)
    (sta : cfg.sta_network_en ≡ true) where
  -- the round behind the answer of `poll`
  polled-commanded :
      (polled : Polled) (t : Trace) (msg : ℕ) (msgs op duration mode : List ℕ)
      (more : List Parameter) (n : ℕ)
      → IsReadable polled
      → env t (net (recv m.socket_fd 1024)) ≡ got (msg ∷ msgs)
      → parse (msg ∷ msgs) ≡ (pos n, ble_adv_request op duration mode more)
      → let m' = record m { ble = polled.ble } in
        run {A = ℤ × MainState} env
          (if is_neg polled.result
            then ret (polled.result, m')
            else if is_zero polled.result
            then ret (neg 11, m')
            else do
              (early, later) ← poll_socket parse cfg (suc fuel) polled.revents m'
              elim early [
                | some rc ↦ ret (rc, later)
                | none ↦ do last ← poll_event cfg (suc fuel) polled.revents later; ret (pos 0, last)
              ])
          t
        ≡ resume env (rest_of_round cfg (suc fuel) polled.revents m) (
            run env
              (commanded op duration mode polled.ble)
              ((net (recv m.socket_fd 1024), got (msg ∷ msgs)) ∷ t))
  polled-commanded polled t msg msgs op duration mode more n (k, res, r, revents) e f =
      let m' = record m { ble = polled.ble } in
      let t2 : Trace = (net (recv m.socket_fd 1024), got (msg ∷ msgs)) ∷ t in
      let rpc = rpc_execute parse (msg ∷ msgs) polled.ble in
      let F : Option ℤ × MainState → Prog (ℤ × MainState) = λ x. elim x.0 [
        | some rc ↦ ret (rc, x.1)
        | none ↦ poll_event cfg (suc fuel) polled.revents x.1 >>= λ last. ret (pos 0, last)
      ] in
      rw res (
        run-bind env (poll_socket parse cfg (suc fuel) polled.revents m') F t
        ∙ ap (resume env F) (
            poll_socket-requested env parse cfg fuel m' t event socket sta polled.revents r msg msgs
              revents e
            ∙ run-bind {B = Option ℤ × MainState} env rpc
                (λ ble'. ret (none, record m { ble = ble' })) t2)
        ∙ resume-none env cfg (suc fuel) polled.revents m (run env rpc t2)
        ∙ ap (λ q. resume env (rest_of_round cfg (suc fuel) polled.revents m) (run env q t2))
            (rpc_execute-commanded parse (msg ∷ msgs) op duration mode more n polled.ble f))

  -- A request `ble_adv` of the server does what the shell commands do: where `poll` reports bytes on
  -- the WebSocket and no error, and the first `recv` gives a message that the parser takes for the
  -- request with its parameters first, a round of `poll_loop` runs `start_wakeup` or `start_adv` with
  -- the duration of the request, or the command to stop, and then sees to the events and returns 0.
  -- There are an eventfd, a WebSocket and the network, and fuel for a message.
  pub poll_loop-commanded :
      (t : Trace) (msg : ℕ) (msgs op duration mode : List ℕ) (more : List Parameter) (n : ℕ)
      → let polled = env t (posix (poll (poll_fds m) m.ble)) in
        let t1 : Trace = (posix (poll (poll_fds m) m.ble), polled) ∷ t in
        IsReadable polled
        → env t1 (net (recv m.socket_fd 1024)) ≡ got (msg ∷ msgs)
        → parse (msg ∷ msgs) ≡ (pos n, ble_adv_request op duration mode more)
        → run env (poll_loop parse cfg (suc fuel) m) t
          ≡ resume env (rest_of_round cfg (suc fuel) polled.revents m) (
              run env
                (commanded op duration mode polled.ble)
                ((net (recv m.socket_fd 1024), got (msg ∷ msgs)) ∷ t1))
  unfolding poll_loop run
  poll_loop-commanded t msg msgs op duration mode more n =
      polled-commanded (env t (posix (poll (poll_fds m) m.ble))) _ msg msgs op duration mode more n
