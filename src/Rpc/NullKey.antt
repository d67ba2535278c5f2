-- ===== src/Rpc/NullKey.antt =====
-- A request with a parameter that has no key.
use esp32s3_szpi_sta.Base.{◌≡◌, refl, false, none, some, List, ◌∷◌, ℕ, is_neg, codes}
use esp32s3_szpi_sta.Ble.State.{Ble}
use esp32s3_szpi_sta.Zephyr.Prog.{faulted, Trace, Env, run}
use esp32s3_szpi_sta.Rpc.{Parameter, Parse, get_v_by_k, ble_adv, func_ble_adv, route, rpc_execute}

-- A request for `ble_adv` that is parsed, and whose first parameter comes without a key, makes the
-- handler compare a null pointer.
pub rpc_execute-null_key :
    (parse : Parse) (env : Env) (json : List ℕ) (para : Parameter) (paras : List Parameter)
    (b : Ble) (t : Trace)
    → is_neg (parse json).0 ≡ false
    → (parse json).1.func ≡ some (codes "ble_adv")
    → (parse json).1.paras ≡ para ∷ paras
    → para.k ≡ none
    → (run env (rpc_execute parse json b) t).0 ≡ faulted
unfolding rpc_execute route func_ble_adv ble_adv get_v_by_k run
rpc_execute-null_key parse env json para paras b t ok f p k = rw ok (rw f (rw p (rw k refl)))
