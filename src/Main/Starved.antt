-- ===== src/Main/Starved.antt =====
-- A WebSocket in an error keeps the main thread from the events.
use esp32s3_szpi_sta.Base.{
  ℕ, zero, suc, ◌≡◌, refl, ◌⊎◌, inl, inr, true, false, some, List, ◌∷◌, ℤ, pos, neg, is_neg,
  Bool-cases,
}
use esp32s3_szpi_sta.Main.Handle.{Config, MainState}
use esp32s3_szpi_sta.Main.Poll.{poll_socket, poll_loop, main_loop}
use esp32s3_szpi_sta.Main.Plain.{taken}
use esp32s3_szpi_sta.Rpc.{Parse}
use esp32s3_szpi_sta.Zephyr.Calls.{Revents, Polled, poll, posix}
use esp32s3_szpi_sta.Zephyr.Prog.{ret, unfinished, Trace, Env, run, Holds}
use esp32s3_szpi_sta.Zephyr.Holds.{Admits, Answers, run-Holds}

-- `poll` reports an error of the second descriptor
abbrev pub IsBroken : Polled → Type 0
IsBroken polled =
    (n : ℕ) × (polled.result ≡ pos (suc n))
    × (first : Revents) × (second : Revents) × (rs : List Revents) × (polled.revents
        ≡ first ∷ second ∷ rs)
    × ((second.pollnval ≡ true) ⊎ (second.pollerr ≡ true))

abbrev pub SocketBroken : Admits
SocketBroken t (posix (poll fds b)) polled = IsBroken polled
SocketBroken _ _ _ = Unit

-- the socket is given up on, without a call
poll_socket-gives_up :
    (parse : Parse) (cfg : Config) (fuel : ℕ) (r r' : Revents) (rs : List Revents) (m : MainState)
    → cfg.sta_network_en ≡ true
    → is_neg m.socket_fd ≡ false
    → (r'.pollnval ≡ true) ⊎ (r'.pollerr ≡ true)
    → (rc : ℤ) × (poll_socket parse cfg fuel (r ∷ r' ∷ rs) m ≡ ret (some rc, m))
unfolding poll_socket
poll_socket-gives_up parse cfg fuel r r' rs m c s bad = elim (Bool-cases r'.pollnval) [
  | inl v ↦ (neg 9, rw (c, s, v) refl)
  | inr v ↦ elim bad [ inl w ↦ absurd cc | inr w ↦ (neg 5, rw (c, s, v, w) refl) ]
]

main_loop-Holds :
    (parse : Parse) (cfg : Config) (fuel : ℕ) (m : MainState) (t : Trace)
    → cfg.sta_network_en ≡ true
    → is_neg m.socket_fd ≡ false
    → Holds SocketBroken
        (main_loop parse cfg fuel m)
        t
        (λ o u. (o ≡ unfinished) × (taken u ≡ taken t))
unfolding main_loop poll_loop
main_loop-Holds parse cfg zero m t c s = (refl, refl)
main_loop-Holds parse cfg (suc fuel) m t c s = λ polled (n, res, r, r', rs, revents, bad).
    let (rc, e) =
      poll_socket-gives_up parse cfg fuel r r' rs (record m { ble = polled.ble }) c s bad in
    rw (res, revents, e) (λ ble' _. main_loop-Holds parse cfg fuel (record m { ble = ble' }) _ c s)

-- Where `poll` reports POLLNVAL or POLLERR for the WebSocket in every round, `main` loops for ever
-- and takes no message from the list, whatever the eventfd says and however many rounds it runs.
pub main_loop-starves :
    (env : Env) (parse : Parse) (cfg : Config) (fuel : ℕ) (m : MainState) (t : Trace)
    → cfg.sta_network_en ≡ true
    → is_neg m.socket_fd ≡ false
    → Answers SocketBroken env
    → let (o, u) = run env (main_loop parse cfg fuel m) t in (o ≡ unfinished) × (taken u ≡ taken t)
main_loop-starves env parse cfg fuel m t c s d =
    run-Holds SocketBroken (λ o u. (o ≡ unfinished) × (taken u ≡ taken t)) env d _ t
      (main_loop-Holds parse cfg fuel m t c s)
