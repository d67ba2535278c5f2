-- ===== src/Ble/Radio.antt =====
-- What the controller does, read off the calls: whether it advertises, and whether the firmware
-- starts and stops it in turn.
use esp32s3_szpi_sta.Base.{zero, ◌≡◌, Bool, true, false, [], ◌∷◌, pos}
use esp32s3_szpi_sta.Ble.State.{Ble}
use esp32s3_szpi_sta.Zephyr.Calls.{adv_start, adv_stop, adv_ended, bt}
use esp32s3_szpi_sta.Zephyr.Prog.{Trace}

-- A start or a stop that answers 0 has happened.
abbrev pub advertises : Trace → Bool
advertises [] = false
advertises ((bt (adv_start p id), pos zero) ∷ t) = true
advertises ((bt adv_stop, pos zero) ∷ t) = false
advertises ((bt adv_ended, r) ∷ t) = false
advertises (_ ∷ t) = advertises t

-- A start is asked for only where the controller does not advertise, a stop only where it does.
abbrev pub InTurn : Trace → Type 0
InTurn [] = Unit
InTurn ((bt (adv_start p id), r) ∷ t) = (advertises t ≡ false) × InTurn t
InTurn ((bt adv_stop, r) ∷ t) = (advertises t ≡ true) × InTurn t
InTurn (_ ∷ t) = InTurn t

-- `is_adv_running` tells what the controller does
abbrev pub Mirrors : Ble → Trace → Type 0
Mirrors b t = (b.is_adv_running ≡ advertises t) × InTurn t
