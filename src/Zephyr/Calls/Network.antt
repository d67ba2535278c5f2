-- ===== src/Zephyr/Calls/Network.antt =====
-- Sockets, the HTTP client, the eventfd, the list of events and Wi-Fi: the functions that the firmware
-- calls.
use esp32s3_szpi_sta.Base.{ℕ, ℤ, Bool, Option, List}
use esp32s3_szpi_sta.Ble.State.{Ble}
use esp32s3_szpi_sta.Main.Message.{EvtMsg}
use esp32s3_szpi_sta.Zephyr.Calls.Storage.{ReadResult}

-- one response fragment, as `http_client_req` hands it to the callback
pub record Response : Type 0 where
  pub data_len : ℕ
  pub cl_present : Bool
  pub content_length : ℕ
  pub body_found : Bool
  pub body_frag : List ℕ
  pub is_final : Bool

-- The fragments that the callback is handed in the course of a request, and the result behind them.
pub record HttpAnswer : Type 0 where
  pub responses : List Response
  pub result : ℤ

-- sockets and Zephyr's HTTP client
pub data NetCall : Type 0 where
  getaddrinfo : List ℕ → List ℕ → NetCall
  socket : NetCall
  connect_sock : ℤ → NetCall
  close_sock : ℤ → NetCall
  errno : NetCall
  http_client_req : ℤ → List ℕ → NetCall  -- the socket and the path
  recv : ℤ → ℕ → NetCall  -- the socket, and the room in the buffer
  send : ℤ → List ℕ → NetCall
  websocket_connect : ℤ → NetCall
  websocket_ping : ℤ → NetCall  -- websocket_send_msg with WEBSOCKET_OPCODE_PING

-- what `poll` puts into `revents`
pub record Revents : Type 0 where
  pub is_set : Bool  -- not 0
  pub pollin : Bool
  pub pollerr : Bool
  pub pollnval : Bool

-- What `poll` hands over: its result, the `revents` of its descriptors in their order, and what the
-- other threads have left in the shared variables meanwhile.
pub record Polled : Type 0 where
  pub result : ℤ
  pub revents : List Revents
  pub ble : Ble

-- eventfd_* and poll, for POLLIN on each of the descriptors, with the shared variables as they are
-- when it begins to wait
pub data PosixCall : Type 0 where
  eventfd : PosixCall
  eventfd_write eventfd_read : ℤ → PosixCall
  poll : List ℤ → Ble → PosixCall

-- sys_slist_* on the list of events, each between the lock and the unlock of its mutex
pub data SlistCall : Type 0 where
  append : EvtMsg → SlistCall
  get : SlistCall

-- the station interface of Zephyr's Wi-Fi management
pub data WifiCall : Type 0 where
  add_event_callback get_wifi_sta wifi_connect : WifiCall

abbrev pub NetAnswer : NetCall → Type 0
NetAnswer (close_sock s) = Unit {0}
NetAnswer errno = ℕ
NetAnswer (http_client_req s url) = HttpAnswer
NetAnswer (recv s n) = ReadResult
NetAnswer _ = ℤ

abbrev pub PosixAnswer : PosixCall → Type 0
PosixAnswer (poll fds b) = Polled
PosixAnswer _ = ℤ

abbrev pub SlistAnswer : SlistCall → Type 0
SlistAnswer (append msg) = Unit {0}
SlistAnswer get = Option EvtMsg

abbrev pub WifiAnswer : WifiCall → Type 0
WifiAnswer add_event_callback = Unit {0}
WifiAnswer get_wifi_sta = Bool  -- that there is one
WifiAnswer wifi_connect = ℤ
