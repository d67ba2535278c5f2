-- ===== src/Rpc.antt =====
-- src/rpc_route.c: the requests of the WebSocket server, which start and stop the advertising.
pub mod Keyed
pub mod Order
pub mod NullKey
mod Examples
use esp32s3_szpi_sta.Base.{
  ℕ, zero, suc, ◌+◌, Bool, true, false, Option, none, some, List, [], ◌∷◌, ℤ, pos, negsuc, is_neg,
  codes, length, str_eq, strn_eq, atoi, if◌then◌else◌,
}
use esp32s3_szpi_sta.Ble.State.{Ble}
use esp32s3_szpi_sta.Ble.Adv.{try_advertising_start, stop_command}
use esp32s3_szpi_sta.Zephyr.Prog.{Prog, ret, fault, ◌>>=◌}

-- `struct parameter`; `none` is the null pointer that stays where the JSON object has no such field
pub record Parameter : Type 0 where
  pub k : Option (List ℕ)
  pub v : Option (List ℕ)

-- `struct rpc_func`, with the first `num_paras` of its array
pub record RpcFunc : Type 0 where
  pub func : Option (List ℕ)
  pub paras : List Parameter

-- `json_obj_parse` of the request: its result, and what it leaves in `req`
abbrev pub Parse : Type 0
Parse = List ℕ → ℤ × RpcFunc

-- `strcmp` of a null pointer is undefined.
unfoldable pub get_v_by_k : List Parameter → List ℕ → Prog (Option (List ℕ))
get_v_by_k [] key = ret none
get_v_by_k (para ∷ paras) key =
    let rest = get_v_by_k paras key in
    elim para.k [ none ↦ fault | some k ↦ if str_eq k key then ret para.v else rest ]

-- from the index `i` on
unfoldable pub get_k_idx_from : ℕ → List Parameter → List ℕ → Prog ℤ
get_k_idx_from i [] key = ret (negsuc 0)
get_k_idx_from i (para ∷ paras) key =
    let rest = get_k_idx_from (suc i) paras key in
    elim para.k [ none ↦ fault | some k ↦ if strn_eq (length key) k key then ret (pos i) else rest ]

unfoldable pub get_k_idx : List Parameter → List ℕ → Prog ℤ
get_k_idx paras key = get_k_idx_from 0 paras key

-- `get_v_by_k` of the handler's arguments
abbrev pub Get : Type 0
Get = List ℕ → Prog (Option (List ℕ))

-- GET_PARAM_REQUIRED: without the parameter the handler returns.
abbrev pub required : Get → List ℕ → Ble → (List ℕ → Prog Ble) → Prog Ble
required get key b body = get key >>= λ value. elim value [ none ↦ ret b | some v ↦ body v ]

unfoldable pub ble_adv : Get → Ble → Prog Ble
ble_adv get b = required get (codes "op") b λ op.
    if strn_eq 5 op (codes "start")
    then (required get (codes "duration") b λ duration.
        required get (codes "mode") b
          λ mode. try_advertising_start (strn_eq 6 mode (codes "wakeup")) (atoi duration) b)
    else if strn_eq 5 op (codes "stop")
    then stop_command b
    else ret b

unfoldable pub func_ble_adv : List Parameter → Ble → Prog Ble
func_ble_adv paras b = ble_adv (get_v_by_k paras) b

-- `struct rpc_route`
pub record RpcRoute : Type 0 where
  pub func_name : List ℕ
  pub handler : List Parameter → Ble → Prog Ble

abbrev pub routes : List RpcRoute
routes = record { func_name = codes "ble_adv"; handler = func_ble_adv } ∷ []

-- the search of a table, which ends at the first function of that name
abbrev pub route_in : List RpcRoute → List ℕ → List Parameter → Ble → Prog Ble
route_in [] func paras b = ret b
route_in (r ∷ rs) func paras b =
    let rest = route_in rs func paras b in
    if str_eq func r.func_name then r.handler paras b else rest

unfoldable pub route : List ℕ → List Parameter → Ble → Prog Ble
route func paras b = route_in routes func paras b

unfoldable pub rpc_execute : Parse → List ℕ → Ble → Prog Ble
rpc_execute parse json b =
    let (rc, req) = parse json in
    if is_neg rc then ret b else elim req.func [ none ↦ ret b | some func ↦ route func req.paras b ]
