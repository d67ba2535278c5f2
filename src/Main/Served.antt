-- ===== src/Main/Served.antt =====
-- A round of `poll_loop` in which the eventfd is reported.
use esp32s3_szpi_sta.Base.{
  ℕ, suc, ◌<◌, ◌≡◌, refl, true, false, Bool-cases, inl, inr, none, some, List, [], ◌∷◌, ◌++◌, ℤ,
  pos, is_neg, neg, is_zero, if◌then◌else◌, length,
}
use esp32s3_szpi_sta.Main.Drain.{IsDrained, evt_handle-drains}
use esp32s3_szpi_sta.Main.Handle.{Config, MainState, evt_handle}
use esp32s3_szpi_sta.Main.Poll.{poll_fds, poll_socket, poll_event, poll_loop}
use esp32s3_szpi_sta.Main.Plain.{taken, resume, run-bind}
use esp32s3_szpi_sta.Main.Queue.{queued}
use esp32s3_szpi_sta.Main.Woken.{KeepsEvents}
use esp32s3_szpi_sta.Rpc.{Parse}
use esp32s3_szpi_sta.Zephyr.Calls.{Revents, Polled, poll, eventfd_read, posix}
use esp32s3_szpi_sta.Zephyr.Prog.{
  ret, ◌>>=◌, ◌>>◌, ask, Outcome, done, faulted, unfinished, Trace, Env, run,
}
use esp32s3_szpi_sta.Zephyr.Holds.{Answers, Ends}

-- how the round ends: with 0, and every message that waited taken
abbrev pub IsServed : Trace → ℤ × MainState → Trace → Type 0
IsServed t (rc, m) u = (rc ≡ pos 0) × (queued u ≡ []) × (taken u ≡ taken t ++ queued t)

-- what `poll` has reported: a number above 0, and the eventfd among the descriptors
abbrev pub IsReported : Polled → Type 0
IsReported polled =
    (n : ℕ) × (polled.result ≡ pos (suc n))
    × (r : Revents) × (rs : List Revents) × (polled.revents ≡ r ∷ rs)
    × (r.is_set ≡ true)

-- without a WebSocket nothing is done for it
poll_socket-quiet :
    (parse : Parse) (cfg : Config) (fuel : ℕ) (revents : List Revents) (m : MainState)
    → is_neg m.socket_fd ≡ true
    → poll_socket parse cfg fuel revents m ≡ ret (none, m)
unfolding poll_socket
poll_socket-quiet parse cfg fuel revents m s = elim (Bool-cases cfg.sta_network_en) [
  | inl c ↦ rw (s, c) refl
  | inr c ↦ rw (s, c) refl
]

-- the eventfd is reported, read, and the events are handled
poll_event-heard :
    (cfg : Config) (fuel : ℕ) (r : Revents) (rs : List Revents) (m : MainState)
    → is_neg m.event_fd ≡ false
    → r.is_set ≡ true
    → poll_event cfg fuel (r ∷ rs) m
      ≡ (do ask (posix (eventfd_read m.event_fd)); evt_handle fuel cfg m)
unfolding poll_event poll_fds
poll_event-heard cfg fuel r rs m e set = rw (e, set) refl

-- the result 0 behind a run
Ends-zero :
    (env : Env) (t : Trace) (p : Outcome MainState × Trace)
    → Ends (IsDrained (queued t) t) p.0 p.1
    → let q = resume {B = ℤ × MainState} env (λ last. ret (pos 0, last)) p in
      Ends (IsServed t) q.0 q.1
unfolding run
Ends-zero env t (done m, u) (q, k) = (refl, q, k)
Ends-zero env t (faulted, u) h = h
Ends-zero env t (unfinished, u) h = h

-- the round behind the answer of `poll`
polled-IsServed :
    (env : Env) (fd : ℕ) (parse : Parse) (cfg : Config) (fuel : ℕ) (polled : Polled) (m : MainState)
    (t : Trace)
    → is_neg m.event_fd ≡ false
    → is_neg m.socket_fd ≡ true
    → Answers (KeepsEvents fd) env
    → IsReported polled
    → length (queued t) < fuel
    → let m' = record m { ble = polled.ble } in
      let (o, u) =
        run {A = ℤ × MainState} env
          (if is_neg polled.result
            then ret (polled.result, m')
            else if is_zero polled.result
            then ret (neg 11, m')
            else do
              (early, later) ← poll_socket parse cfg fuel polled.revents m'
              elim early [
                | some rc ↦ ret (rc, later)
                | none ↦ do last ← poll_event cfg fuel polled.revents later; ret (pos 0, last)
              ])
          t in
      Ends (IsServed t) o u
unfolding run
polled-IsServed env fd parse cfg fuel polled m t e s d (n, res, r, rs, revents, set) f =
    let m' = record m { ble = polled.ble } in
    let t2 : Trace =
      (posix (eventfd_read m.event_fd), env t (posix (eventfd_read m.event_fd))) ∷ t in
    rw
      (
        res,
        poll_socket-quiet parse cfg fuel polled.revents m' s,
        revents,
        poll_event-heard cfg fuel r rs m' e set,
      )
      (rw (run-bind {B = ℤ × MainState} env (evt_handle fuel cfg m') (λ last. ret (pos 0, last)) t2)
        (Ends-zero env t2 (run env (evt_handle fuel cfg m') t2)
          (evt_handle-drains env fd cfg fuel m' t2 d f).1))

-- Where there is an eventfd and no WebSocket, the list gives its messages in their order, `poll`
-- reports the eventfd, and the fuel is more than the number of messages that wait, a round of
-- `poll_loop` returns 0, and has taken every message that waits, in order; the list is then empty.
pub poll_loop-IsServed :
    (env : Env) (fd : ℕ) (parse : Parse) (cfg : Config) (fuel : ℕ) (m : MainState) (t : Trace)
    → is_neg m.event_fd ≡ false
    → is_neg m.socket_fd ≡ true
    → Answers (KeepsEvents fd) env
    → IsReported (env t (posix (poll (poll_fds m) m.ble)))
    → length (queued t) < fuel
    → let (o, u) = run env (poll_loop parse cfg fuel m) t in Ends (IsServed t) o u
unfolding run poll_loop
poll_loop-IsServed env fd parse cfg fuel m t e s d (n, res, r, rs, revents, set) f =
    let polled = env t (posix (poll (poll_fds m) m.ble)) in
    polled-IsServed env fd parse cfg fuel polled m ((posix (poll (poll_fds m) m.ble), polled) ∷ t) e
      s d (n, res, r, rs, revents, set) f
