-- ===== src/Main/Firmware.antt =====
-- The threads of the firmware around the events of src/main.c: none loses an event.
use esp32s3_szpi_sta.Base.{
  ℕ, zero, suc, ◌<◌, ◌≡◌, refl, ◌⊎◌, inl, inr, Bool, true, false, not, ◌||◌, Option, none, some,
  List, [], ℤ, pos, negsuc, is_neg, is_zero, get_elem?, if◌then◌else◌, Bool-cases, Option-cases,
}
use esp32s3_szpi_sta.Ble.State.{Ble}
use esp32s3_szpi_sta.FatFs.{fatfs_init}
use esp32s3_szpi_sta.Main.Apart.{
  IsApart-if, recv-IsApart, rpc-IsApart, handle-IsPlain, fatfs-IsApart, check-IsApart,
}
use esp32s3_szpi_sta.Main.Plain.{IsPlain-Follows}
use esp32s3_szpi_sta.Main.Duty.{
  Duty, idle, draining, Follows, IsApart, IsApart-bind, IsApart-Follows, Follows-bind,
}
use esp32s3_szpi_sta.Main.Handle.{Config, MainState, handle_event, evt_handle}
use esp32s3_szpi_sta.Main.Poll.{
  at_index, poll_fds, poll_socket, poll_event, poll_loop, main_loop, evt_init, main, timer_looper,
}
use esp32s3_szpi_sta.Main.Queue.{evt_send, evt_timer_out, evt_wifi_connected, queued, counter}
use esp32s3_szpi_sta.Main.Threads.{Thread, Threads, with_threads, Reach}
use esp32s3_szpi_sta.Main.Woken.{KeepsEvents, AreQuiet, Reach-woken}
use esp32s3_szpi_sta.Rpc.{Parse}
use esp32s3_szpi_sta.Sta.{
  WifiEvent, connect_result, disconnect_result, other_event, wifi_event_handler,
}
use esp32s3_szpi_sta.Upgrade.{upgrade_check_image}
use esp32s3_szpi_sta.Rpc.{rpc_execute}
use esp32s3_szpi_sta.Wscli.{wscli_recv}
use esp32s3_szpi_sta.Zephyr.Calls.{Revents}
use esp32s3_szpi_sta.Zephyr.Prog.{Prog, ret, ◌>>◌, fault}

-- The threads that may start, with the descriptor of the eventfd: the main thread, the timer
-- thread, the callback of the Wi-Fi events, and any thread that sends an event.
pub data Firmware (fd : ℕ) : Thread → Type 0 where
  runs_main :
      (parse : Parse) (cfg : Config) (fuel : ℕ) (ble : Ble) → Firmware fd (main parse cfg fuel ble)
  runs_timer : (fuel : ℕ) → Firmware fd (timer_looper fuel (pos fd))
  runs_wifi : (event : WifiEvent) → Firmware fd (wifi_event_handler (pos fd) event)
  runs_sender : (type len : ℕ) → Firmware fd (do evt_send (pos fd) type len; ret tt)

Follows-if :
    {A : Type 0} (d : Duty) (b : Bool) (m n : Prog A)
    → Follows d m
    → Follows d n
    → Follows d (if b then m else n)
Follows-if d true m n h k = h
Follows-if d false m n h k = k

send-Follows : (fd type len : ℕ) → Follows idle (evt_send (pos fd) type len)
unfolding evt_send
send-Follows fd type len =
    (tt, λ ok. Follows-if idle (not ok) _ _ tt (refl, λ r. (refl, λ r'. refl)))

evt_handle-Follows :
    (fuel : ℕ) (cfg : Config) (m : MainState) → Follows draining (evt_handle fuel cfg m)
unfolding evt_handle
evt_handle-Follows zero cfg m = tt
evt_handle-Follows (suc fuel) cfg m = (
  refl,
  elim [
    | none ↦ refl
    | some msg ↦
        IsPlain-Follows draining (handle_event cfg msg m) _ (handle-IsPlain cfg msg m)
          λ later. (tt, λ r. evt_handle-Follows fuel cfg later)
  ],
)

at_index-IsApart :
    {A B : Type 0} (xs : List A) (i : ℕ) (body : A → Prog B)
    → ((x : A) → IsApart (body x))
    → IsApart (at_index xs i body)
at_index-IsApart {A = A} xs i body h = go (get_elem? xs i)
  where
    go : (o : Option A) → IsApart (elim o [ none ↦ fault | some x ↦ body x ])
    go none = tt
    go (some x) = h x

at_index-Follows :
    {A B : Type 0} (d : Duty) (xs : List A) (i : ℕ) (body : A → Prog B)
    → ((x : A) → Follows d (body x))
    → Follows d (at_index xs i body)
at_index-Follows {A = A} d xs i body h = go (get_elem? xs i)
  where
    go : (o : Option A) → Follows d (elim o [ none ↦ fault | some x ↦ body x ])
    go none = tt
    go (some x) = h x

socket-IsApart :
    (parse : Parse) (cfg : Config) (fuel : ℕ) (revents : List Revents) (m : MainState)
    → IsApart (poll_socket parse cfg fuel revents m)
unfolding poll_socket
socket-IsApart parse cfg fuel revents m =
    IsApart-if (not cfg.sta_network_en || is_neg m.socket_fd) _ _ tt (
      at_index-IsApart revents 1 _ λ r. IsApart-if r.pollnval _ _ tt (
        IsApart-if r.pollerr _ _ tt (
          IsApart-if r.pollin _ _
            (at_index-IsApart (poll_fds m) 1 _ λ fd.
              IsApart-bind (wscli_recv fuel fd 1024) _ (recv-IsApart fuel fd 1024) λ (r_len, msg).
                IsApart-if (is_neg r_len) _ _ tt (
                  IsApart-bind (rpc_execute parse msg m.ble) _ (rpc-IsApart parse msg m.ble)
                    (λ b. tt)))
            tt)))

poll_event-Follows :
    (cfg : Config) (fuel : ℕ) (revents : List Revents) (m : MainState)
    → Follows idle (poll_event cfg fuel revents m)
unfolding poll_event
poll_event-Follows cfg fuel revents m = Follows-if idle (is_neg m.event_fd) _ _ refl (
    at_index-Follows idle revents 0 _ λ r.
      Follows-if idle (not r.is_set) _ _ refl
        (at_index-Follows idle (poll_fds m) 0 _ λ fd. (refl, λ n. evt_handle-Follows fuel cfg m)))

poll_loop-Follows :
    (parse : Parse) (cfg : Config) (fuel : ℕ) (m : MainState)
    → Follows idle (poll_loop parse cfg fuel m)
unfolding poll_loop
poll_loop-Follows parse cfg fuel m = (
  refl,
  λ polled.
      let m' = record m { ble = polled.ble } in
      Follows-if idle (is_neg polled.result) _ _ refl (
        Follows-if idle (is_zero polled.result) _ _ refl (
          IsApart-Follows (poll_socket parse cfg fuel polled.revents m') _
            (socket-IsApart parse cfg fuel polled.revents m')
            λ (early, later). elim (Option-cases early) [
              | inl e ↦ rw e (
                  Follows-bind idle (poll_event cfg fuel polled.revents later) _
                    (poll_event-Follows cfg fuel polled.revents later) (λ last. refl))
              | inr (rc, e) ↦ rw e refl
            ])),
)

main_loop-Follows :
    (parse : Parse) (cfg : Config) (fuel : ℕ) (m : MainState)
    → Follows idle (main_loop parse cfg fuel m)
unfolding main_loop
main_loop-Follows parse cfg zero m = tt
main_loop-Follows parse cfg (suc fuel) m =
    Follows-bind idle (poll_loop parse cfg fuel m) _ (poll_loop-Follows parse cfg fuel m)
      λ (rc, later). (refl, λ ble'. main_loop-Follows parse cfg fuel (record later { ble = ble' }))

send_then-Follows :
    {A : Type 0} (fd : ℤ) (type len : ℕ) (next : Prog A)
    → is_neg fd ≡ false
    → Follows idle next
    → Follows idle (do evt_send fd type len; next)
send_then-Follows (pos fd) type len next e h =
    Follows-bind idle (evt_send (pos fd) type len) _ (send-Follows fd type len) (λ r. h)
send_then-Follows (negsuc fd) type len next e h = absurd cc

main-Follows :
    (parse : Parse) (cfg : Config) (fuel : ℕ) (ble : Ble) → Follows idle (main parse cfg fuel ble)
unfolding main evt_init
main-Follows parse cfg fuel ble = (
  refl,
  λ r. IsApart-Follows upgrade_check_image _ check-IsApart λ rc.
      IsApart-Follows (fatfs_init fuel) _ (fatfs-IsApart fuel) λ rc'. (
        tt,
        λ fd. elim (Bool-cases (is_neg fd)) [
          | inl e ↦ rw e tt
          | inr e ↦ rw e (send_then-Follows fd _ 0 _ e (main_loop-Follows parse cfg fuel _))
        ],
      ),
)

timer-Follows : (fuel fd : ℕ) → Follows idle (timer_looper fuel (pos fd))
unfolding timer_looper
timer-Follows zero fd = tt
timer-Follows (suc fuel) fd =
    (refl, λ r. send_then-Follows (pos fd) evt_timer_out 0 _ refl (timer-Follows fuel fd))

Firmware-Follows : (fd : ℕ) (p : Thread) → Firmware fd p → Follows idle p
unfolding wifi_event_handler
Firmware-Follows fd p (runs_main parse cfg fuel ble) = main-Follows parse cfg fuel ble
Firmware-Follows fd p (runs_timer fuel) = timer-Follows fuel fd
Firmware-Follows fd p (runs_wifi connect_result) =
    send_then-Follows (pos fd) evt_wifi_connected 0 _ refl refl
Firmware-Follows fd p (runs_wifi disconnect_result) = refl
Firmware-Follows fd p (runs_wifi other_event) = refl
Firmware-Follows fd p (runs_sender type len) = send_then-Follows (pos fd) type len _ refl refl

-- However the threads of the firmware interleave, from a start without threads and with an empty
-- list: in a state in which every thread has ended, sleeps or waits in `poll`, no event is in the
-- list, or the counter of the eventfd is above zero, so that the `poll` of the main thread returns.
-- The list gives its messages in order, the eventfd has the descriptor `fd`, and writes to it
-- succeed.
pub Firmware-woken :
    (fd : ℕ) (s : Threads)
    → Reach (KeepsEvents fd) (Firmware fd) (with_threads [] []) s
    → AreQuiet s.threads
    → (queued s.trace ≡ []) ⊎ (0 < counter s.trace)
Firmware-woken fd = Reach-woken fd (Firmware fd) (Firmware-Follows fd)
