-- ===== src/Ble/Address/Swap.antt =====
-- The byte order of an address.
use mathlib.Core.List.{reverse}
use esp32s3_szpi_sta.Base.{ℕ, ◌≡◌, refl, List, [], ◌∷◌, ◌++◌, length, arith}
use esp32s3_szpi_sta.Ble.Address.{swap_addr}

-- Six bytes are put into the reverse order, and what lies behind them stays; done twice, the swap
-- gives the bytes back.
pub swap_addr_reverses :
    (a rest : List ℕ)
    → length a ≡ 6
    → (swap_addr (a ++ rest) ≡ reverse a ++ rest) × (swap_addr (swap_addr (a ++ rest)) ≡ a ++ rest)
unfolding swap_addr
swap_addr_reverses (a0 ∷ a1 ∷ a2 ∷ a3 ∷ a4 ∷ a5 ∷ []) rest h = (refl, refl)
swap_addr_reverses _ rest h = absurd (omega arith)
