-- ===== src/Sta.antt =====
-- src/sta.c: the Wi-Fi station.
use esp32s3_szpi_sta.Base.{Bool, not, ℤ, pos, negsuc, neg, is_zero, if◌then◌else◌}
use esp32s3_szpi_sta.Zephyr.Calls.{add_event_callback, get_wifi_sta, wifi_connect, wifi}
use esp32s3_szpi_sta.Zephyr.Prog.{Prog, ret, ◌>>=◌, ◌>>◌, ask}
use esp32s3_szpi_sta.Main.Queue.{evt_send, evt_wifi_connected}

-- the events of NET_EVENT_WIFI_MASK, and others
pub data WifiEvent : Type 0 where
  connect_result disconnect_result other_event : WifiEvent

-- The status that comes with the event is not looked at.
unfoldable pub wifi_event_handler : ℤ → WifiEvent → Prog (Unit {0})
wifi_event_handler event_fd connect_result = do evt_send event_fd evt_wifi_connected 0; ret tt
wifi_event_handler event_fd disconnect_result = ret tt
wifi_event_handler event_fd other_event = ret tt

-- `sta_iface` is that there is an interface; -EIO without one
unfoldable pub connect_to_wifi : Bool → Prog ℤ
connect_to_wifi sta_iface = if not sta_iface then ret (neg 5) else ask (wifi wifi_connect)

-- as it is built without WIFI_WAIT_WITH_SEM
unfoldable pub sta_tryconnect : Prog ℤ
unfolding connect_to_wifi
sta_tryconnect = do
  ask (wifi add_event_callback)
  sta_iface ← ask (wifi get_wifi_sta)
  rc ← connect_to_wifi sta_iface
  ret (if is_zero rc then pos 0 else negsuc 0)
