-- ===== src/Main/Station.antt =====
-- The events of the Wi-Fi station of src/sta.c, as the main thread of src/main.c handles them.
use esp32s3_szpi_sta.Base.{
  ℕ, zero, suc, ◌+◌, ◌<◌, ◌≡◌, refl, sym, ap, ◌∙◌, ◌⊎◌, inl, inr, false, true, none, some, List, [],
  ◌∷◌, ◌++◌, ℤ, pos, negsuc, Bool, replicate, arith, append-nil, append_assoc,
}
use esp32s3_szpi_sta.Ble.Address.{ble_rc_init, set_public_addr, fix_uuid_data}
use esp32s3_szpi_sta.Ble.State.{Ble}
use esp32s3_szpi_sta.Main.Handle.{Config, MainState, handle_event, evt_handle}
use esp32s3_szpi_sta.Main.Message.{EvtMsg}
use esp32s3_szpi_sta.Main.Queue.{evt_send, evt_wifi_connected, queued}
use esp32s3_szpi_sta.Main.Woken.{KeepsEvents}
use esp32s3_szpi_sta.Sta.{
  WifiEvent, connect_result, disconnect_result, other_event, wifi_event_handler,
}
use esp32s3_szpi_sta.Zephyr.Calls.{id_create, bt, malloc, free, kernel}
use esp32s3_szpi_sta.Zephyr.Prog.{Prog, ret, ◌>>=◌, ◌>>◌, ask, Trace, Env, run, Holds, bind_assoc}
use esp32s3_szpi_sta.Zephyr.Holds.{Admits, Answers, Ends, run-Holds, Holds-then, Holds-weaken}

-- there is memory for the messages, and the list and the eventfd keep them
abbrev pub Delivers : ℕ → Admits
Delivers fd t (kernel (malloc n)) r = r ≡ true
Delivers fd t c r = KeepsEvents fd t c r

-- the events of the network, one after the other
abbrev pub wifi_events : ℤ → List WifiEvent → Prog (Unit {0})
wifi_events event_fd [] = ret tt
wifi_events event_fd (e ∷ events) = do wifi_event_handler event_fd e; wifi_events event_fd events

-- the results of attempts to connect among them
abbrev pub results : List WifiEvent → ℕ
results [] = 0
results (connect_result ∷ events) = suc (results events)
results (disconnect_result ∷ events) = results events
results (other_event ∷ events) = results events

-- the identities that the BLE part has asked for, one for each of its starts
abbrev pub ble_starts : Trace → ℕ
ble_starts [] = 0
ble_starts ((bt (id_create addr), r) ∷ t) = suc (ble_starts t)
ble_starts (_ ∷ t) = ble_starts t

abbrev connected_msg : EvtMsg
connected_msg = record { type = evt_wifi_connected; len = 0 }

-- that many messages wait, and nothing was started
abbrev Waits : ℕ → Trace → Trace → Type 0
Waits n t u = (queued u ≡ queued t ++ replicate n connected_msg) × (ble_starts u ≡ ble_starts t)

-- behind a first message
Waits-cons :
    (fd n : ℕ) (m : Prog (Unit {0})) (t v : Trace)
    → queued v ≡ queued t ++ (connected_msg ∷ [])
    → ble_starts v ≡ ble_starts t
    → Holds (Delivers fd) m v (Ends (λ _. Waits n v))
    → Holds (Delivers fd) m v (Ends (λ _. Waits (suc n) t))
Waits-cons fd n m t v q b h =
    Holds-weaken (Delivers fd) (λ _. Waits n v) (λ _. Waits (suc n) t) m v
      (λ _ u (q', b'). (
        q'
            ∙ ap (λ l. l ++ replicate n connected_msg) q
            ∙ append_assoc (queued t) (connected_msg ∷ []) (replicate n connected_msg),
        b' ∙ b,
      ))
      h

events-Waits :
    (fd fd' : ℕ) (events : List WifiEvent) (t : Trace)
    → Holds (Delivers fd) (wifi_events (pos fd') events) t (Ends (λ _. Waits (results events) t))
unfolding wifi_event_handler evt_send
events-Waits fd fd' [] t = (sym (append-nil (queued t)), refl)
events-Waits fd fd' (connect_result ∷ events) t = elim [
  | false ↦ λ d. absurd cc
  | true ↦ λ _ _ _ _ _.
      Waits-cons fd (results events) (wifi_events (pos fd') events) t _ refl refl
        (events-Waits fd fd' events _)
]
events-Waits fd fd' (disconnect_result ∷ events) t = events-Waits fd fd' events t
events-Waits fd fd' (other_event ∷ events) t = events-Waits fd fd' events t

-- a start of the BLE part, which forgets the bonded peer
abbrev Starts : Trace → Ble → Trace → Type 0
Starts t b' u =
    (queued u ≡ queued t) × (ble_starts u ≡ suc (ble_starts t)) × (b'.last_paired_addr ≡ none)

start-Holds :
    (fd : ℕ) (has_settings : Bool) (b : Ble) (t : Trace)
    → Holds (Delivers fd) (ble_rc_init has_settings b) t (Ends (Starts t))
unfolding ble_rc_init set_public_addr fix_uuid_data
start-Holds fd true b t = λ id _. elim [
  | pos zero ↦ λ _ _ _ _ _. (refl, refl, refl)
  | pos (suc n) ↦ λ _. (refl, refl, refl)
  | negsuc n ↦ λ _. (refl, refl, refl)
]
start-Holds fd false b t = λ id _. elim [
  | pos zero ↦ λ _ _ _. (refl, refl, refl)
  | pos (suc n) ↦ λ _. (refl, refl, refl)
  | negsuc n ↦ λ _. (refl, refl, refl)
]

-- The list is empty, and the BLE part was started that often: it is as it was, where it was not
-- started, and otherwise knows no bonded peer.
abbrev pub IsStarted : ℕ → Trace → MainState → MainState → Trace → Type 0
IsStarted n t m later u =
    (queued u ≡ [])
    × (ble_starts u ≡ ble_starts t + n)
    × (((n ≡ 0) × (later.ble ≡ m.ble)) ⊎ (later.ble.last_paired_addr ≡ none))

IsStarted-suc :
    (n : ℕ) (t v u u' : Trace) (m m' later : MainState)
    → ble_starts v ≡ ble_starts t
    → ble_starts u ≡ suc (ble_starts v)
    → m'.ble.last_paired_addr ≡ none
    → IsStarted n u m' later u'
    → IsStarted (suc n) t m later u'
IsStarted-suc n t v u u' m m' later b b' none_left (q, c, inl (z, same)) =
    (q, omega arith, inr (ap (λ (x : Ble). x.last_paired_addr) same ∙ none_left))
IsStarted-suc n t v u u' m m' later b b' none_left (q, c, inr forgot) = (q, omega arith, inr forgot)

-- a message handled and freed, and what comes behind it
one-IsStarted :
    (fd : ℕ) (cfg : Config) (n : ℕ) (next : MainState → Prog MainState) (m : MainState)
    (t v : Trace)
    → queued v ≡ replicate n connected_msg
    → ble_starts v ≡ ble_starts t
    → ((later : MainState) (u : Trace)
        → queued u ≡ replicate n connected_msg
        → Holds (Delivers fd) (next later) u (Ends (IsStarted n u later)))
    → Holds
        (Delivers fd)
        (handle_event cfg connected_msg m >>= λ later. (ask (kernel free) >>= λ _. next later))
        v
        (Ends (IsStarted (suc n) t m))
unfolding handle_event
one-IsStarted fd cfg n next m t v q b more =
    let D = Delivers fd in
    let rest : MainState → Prog MainState = λ later. ask (kernel free) >>= λ _. next later in
    let begin = ble_rc_init cfg.has_settings m.ble in
    rw (bind_assoc begin (λ ble'. ret (record m { ble = ble' })) rest) (
      Holds-then D (Starts v) (Ends (IsStarted (suc n) t m)) begin
        (λ ble'. rest (record m { ble = ble' })) v (start-Holds fd cfg.has_settings m.ble v)
        λ ble' u (q', b', none_left) _ _.
          let m' : MainState = record m { ble = ble' } in
          let u' : Trace = (kernel free, tt) ∷ u in
          Holds-weaken D (IsStarted n u' m') (IsStarted (suc n) t m) (next m') u'
            (λ later w h. IsStarted-suc n t v u' w m m' later b b' none_left h)
            (more m' u' (q' ∙ q)))

handled-IsStarted :
    (fd : ℕ) (cfg : Config) (n fuel : ℕ) (m : MainState) (t : Trace)
    → queued t ≡ replicate n connected_msg
    → n < fuel
    → Holds (Delivers fd) (evt_handle fuel cfg m) t (Ends (IsStarted n t m))
unfolding evt_handle
handled-IsStarted fd cfg n zero m t q f = absurd (omega arith)
handled-IsStarted fd cfg zero (suc fuel) m t q f = elim [
  | none ↦ λ e. (e, omega arith, inl (refl, refl))
  | some msg ↦ λ (rest, e). absurd cc
]
handled-IsStarted fd cfg (suc n) (suc fuel) m t q f = elim [
  | none ↦ λ e. absurd cc
  | some msg ↦ λ (rest, e).
      let same : msg ≡ connected_msg = cc in
      rw same (
        one-IsStarted fd cfg n (evt_handle fuel cfg) m t _ (rw q refl) refl
          λ later u q'. handled-IsStarted fd cfg n fuel later u q' (omega arith))
]

station-IsStarted :
    (fd : ℕ) (cfg : Config) (fuel : ℕ) (m : MainState) (t : Trace) (events : List WifiEvent)
    → queued t ≡ []
    → results events < fuel
    → Holds
        (Delivers fd)
        (wifi_events (pos fd) events >>= λ _. evt_handle fuel cfg m)
        t
        (Ends (IsStarted (results events) t m))
station-IsStarted fd cfg fuel m t events q f =
    let n = results events in
    Holds-then (Delivers fd) (λ _. Waits n t) (Ends (IsStarted n t m)) (wifi_events (pos fd) events)
      (λ _. evt_handle fuel cfg m) t (events-Waits fd fd events t)
      λ _ u (q', b).
        Holds-weaken (Delivers fd) (IsStarted n u m) (IsStarted n t m) (evt_handle fuel cfg m) u
          (λ later v (e, c, s). (e, omega arith, s))
          (handled-IsStarted fd cfg n fuel m u (q' ∙ ap (λ l. l ++ replicate n connected_msg) q) f)

-- The BLE part is started once for each result of an attempt to connect, and for no other event of
-- the Wi-Fi station: with an empty list, after any events of the network, `evt_handle` ends, has
-- asked for an identity for each such result, failed attempts and later ones included, and has
-- emptied the list. Without one the shared variables of the BLE part are as they were; with one it no longer
-- knows the peer with which it is bonded. There is memory for the messages, the list gives them in
-- their order, the writes to the eventfd succeed, and the fuel is more than the results.
pub connects-IsStarted :
    (env : Env) (fd : ℕ) (cfg : Config) (fuel : ℕ) (m : MainState) (t : Trace)
    (events : List WifiEvent)
    → Answers (Delivers fd) env
    → queued t ≡ []
    → results events < fuel
    → let (o, u) = run env (wifi_events (pos fd) events >>= λ _. evt_handle fuel cfg m) t in
      Ends (IsStarted (results events) t m) o u
connects-IsStarted env fd cfg fuel m t events d q f =
    run-Holds (Delivers fd) (Ends (IsStarted (results events) t m)) env d _ t
      (station-IsStarted fd cfg fuel m t events q f)
