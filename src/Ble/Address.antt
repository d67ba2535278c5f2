-- ===== src/Ble/Address.antt =====
-- Addresses in src/ble_rc.c: their byte order, the identity of the device, and the start of the
-- BLE part.
pub mod Swap
use esp32s3_szpi_sta.Base.{
  ℕ, zero, suc, Bool, Option, none, some, List, [], ◌∷◌, ◌++◌, ℤ, pos, negsuc, is_zero, take, drop,
  if◌then◌else◌, not,
}
use esp32s3_szpi_sta.Ble.State.{Addr, Ble}
use esp32s3_szpi_sta.Zephyr.Calls.{id_create, bt_enable, settings_load, thread_start, bt}
use esp32s3_szpi_sta.Zephyr.Prog.{Prog, ret, ◌>>=◌, ◌>>◌, ask}

-- the six bytes at `a`, and what lies behind them
unfoldable pub swap_addr : List ℕ → List ℕ
swap_addr (a0 ∷ a1 ∷ a2 ∷ a3 ∷ a4 ∷ a5 ∷ rest) = a5 ∷ a4 ∷ a3 ∷ a2 ∷ a1 ∷ a0 ∷ rest
swap_addr a = a

-- BT_ADDR_LE_RANDOM
abbrev pub addr_le_random : ℕ
addr_le_random = 1

unfoldable pub own_addr : Addr
unfolding swap_addr
own_addr = record {
  type = addr_le_random;
  val = swap_addr (0xf4 ∷ 0x72 ∷ 0x57 ∷ 0x66 ∷ 0x66 ∷ 0x66 ∷ []);
}

unfoldable pub set_public_addr : Ble → Prog Ble
set_public_addr b = do id ← ask (bt (id_create own_addr)); ret (record b { id = id })

-- `__swap_addr(&(uuid_data[9]))`
unfoldable pub fix_uuid_data : Ble → Ble
fix_uuid_data b = record b { uuid_data = take 9 b.uuid_data ++ swap_addr (drop 9 b.uuid_data) }

-- `has_settings` is IS_ENABLED(CONFIG_SETTINGS). The result is always 0.
unfoldable pub ble_rc_init : Bool → Ble → Prog Ble
ble_rc_init has_settings b = do
  b' ← set_public_addr (fix_uuid_data (record b { last_paired_addr = none }))
  err ← ask (bt bt_enable)
  if not (is_zero err) then ret b' else do
    (if has_settings then ask (bt settings_load) else ret tt)
    ask (bt thread_start)
    ret b'
