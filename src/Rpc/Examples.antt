-- ===== src/Rpc/Examples.antt =====
-- Requests that are parsed in one way or another.
use mathlib.Core.List.Permᴰ.{swap}
use esp32s3_szpi_sta.Base.{
  ℕ, ◌≤◌, ◌≡◌, refl, none, some, List, [], ◌∷◌, ℤ, pos, neg, codes, replicate, false, arith,
}
use esp32s3_szpi_sta.Ble.State.{disconnecte, Ble}
use esp32s3_szpi_sta.Rpc.{Parameter, RpcFunc, Parse, rpc_execute}
use esp32s3_szpi_sta.Rpc.Order.{AreDistinct, count_key, rpc_execute-order}

abbrev idle : Ble
idle = record {
  btrc_st = disconnecte;
  is_adv_running = false;
  wakeup_adv_mode = false;
  last_paired_addr = none;
  id = neg 1;
  fe_data = replicate 3 0;
  uuid_data = replicate 2 0;
  report_val = replicate 8 0;
  ctrl_point = replicate 1 0;
  simulate_input_allow = 0;
  bt_ck_running = false;
}

abbrev para : List ℕ → List ℕ → Parameter
para k v = record { k = some k; v = some v }

abbrev op : Parameter
op = para (codes "op") (codes "stop")

abbrev mode : Parameter
mode = para (codes "mode") (codes "wakeup")

abbrev request : List Parameter → ℤ × RpcFunc
request paras = (pos 3, record { func = some (codes "ble_adv"); paras = paras })

-- a parser that reads three texts
abbrev parse : Parse
parse [] = (neg 22, record { func = none; paras = [] })
parse (c ∷ []) = request (op ∷ mode ∷ [])
parse (c ∷ d ∷ []) = request (mode ∷ op ∷ [])
parse (c ∷ d ∷ e ∷ cs) = request (record { k = none; v = some (codes "x") } ∷ [])

count_key-request : (key : List ℕ) → count_key key (op ∷ mode ∷ []) ≤ 1
count_key-request [] = omega arith
count_key-request (c ∷ cs) = ground arith

AreDistinct-request : AreDistinct (op ∷ mode ∷ [])
AreDistinct-request = ((tt, (tt, tt)), count_key-request)

rpc_execute-order_example : rpc_execute parse (codes "a") idle ≡ rpc_execute parse (codes "ab") idle
rpc_execute-order_example =
    rpc_execute-order parse (codes "a") (codes "ab") (codes "ble_adv") idle refl refl refl
      (swap refl refl) AreDistinct-request
