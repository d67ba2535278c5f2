-- ===== src/Main/Queue.antt =====
-- The list of events of src/main.c, which every thread appends to and the main thread empties.
use esp32s3_szpi_sta.Base.{
  ℕ, suc, not, List, [], ◌∷◌, ◌++◌, ℤ, pos, is_neg, drop, some, if◌then◌else◌,
}
use esp32s3_szpi_sta.Main.Message.{EvtMsg}
use esp32s3_szpi_sta.Zephyr.Calls.{
  append, get, slist, eventfd_write, eventfd_read, posix, malloc, kernel,
}
use esp32s3_szpi_sta.Zephyr.Prog.{Prog, ret, fault, ◌>>=◌, ◌>>◌, ask, Trace}

-- sizeof(struct evt_msg), with pointers of 4 bytes
abbrev pub evt_msg_size : ℕ
evt_msg_size = 16

-- EVT_*
abbrev pub evt_timer_out : ℕ
evt_timer_out = 0x1001

abbrev pub evt_wifi_sta_start : ℕ
evt_wifi_sta_start = 0x1002

abbrev pub evt_wifi_connected : ℕ
evt_wifi_connected = 0x2000

abbrev pub evt_ble_start : ℕ
evt_ble_start = 0x2001

-- `event_fd` is `g_fds[POLLFD_T_EVENTFD].fd`. Without memory the message is written through a null
-- pointer. The result is always 0.
unfoldable pub evt_send : ℤ → ℕ → ℕ → Prog ℤ
evt_send event_fd type len = do
  ok ← ask (kernel (malloc evt_msg_size))
  if not ok then fault else do
    ask (slist (append (record { type = type; len = len })))
    if is_neg event_fd then ret (pos 0) else do ask (posix (eventfd_write event_fd)); ret (pos 0)

-- the list, as the calls of all threads leave it
abbrev pub queued : Trace → List EvtMsg
queued [] = []
queued ((slist (append msg), r) ∷ t) = queued t ++ (msg ∷ [])
queued ((slist get, some msg) ∷ t) = drop 1 (queued t)
queued (_ ∷ t) = queued t

-- the counter of the eventfd: a write that succeeds adds to it, a read empties it
abbrev pub counter : Trace → ℕ
counter [] = 0
counter ((posix (eventfd_write fd), pos n) ∷ t) = suc (counter t)
counter ((posix (eventfd_read fd), r) ∷ t) = 0
counter (_ ∷ t) = counter t
