-- ===== src/Main/Apart.antt =====
-- The functions that the main thread calls and that have nothing to do with the events.
use esp32s3_szpi_sta.Base.{
  ℕ, zero, suc, inl, inr, Bool, true, false, not, ◌&&◌, ◌||◌, ◌-◌, none, List, [], ◌∷◌, ℤ, is_neg,
  is_zero, foldl, ◌++◌, length, leb, ◌==◌, if◌then◌else◌, Bool-cases, Option-cases, str_eq, strn_eq,
  atoi, codes,
}
use esp32s3_szpi_sta.Ble.State.{Ble}
use esp32s3_szpi_sta.Ble.Address.{set_public_addr, ble_rc_init}
use esp32s3_szpi_sta.Ble.Adv.{
  advertising_stop, advertising_start, try_advertising_start, stop_command, bond_find,
}
use esp32s3_szpi_sta.FatFs.{
  max_path, some_required_len, in_path, create_some_entries, lsdir_loop, lsdir, fatfs_init, is_end,
}
use esp32s3_szpi_sta.Main.Plain.{IsPlain, IsPlain-if, IsPlain-bind}
use esp32s3_szpi_sta.Main.Duty.{IsApart, IsApart-bind}
use esp32s3_szpi_sta.Main.Handle.{Config, MainState, is_above_zero, handle_event}
use esp32s3_szpi_sta.Main.Queue.{
  evt_timer_out, evt_wifi_sta_start, evt_wifi_connected, evt_ble_start,
}
use esp32s3_szpi_sta.Main.Message.{EvtMsg}
use esp32s3_szpi_sta.Rpc.{
  Parameter, Parse, get_v_by_k, required, ble_adv, func_ble_adv, route, rpc_execute,
}
use esp32s3_szpi_sta.Sta.{connect_to_wifi, sta_tryconnect}
use esp32s3_szpi_sta.Upgrade.{upgrade_check_image, root_path}
use esp32s3_szpi_sta.Wscli.{is_retried, retry, wscli_recv, wscli_ping}
use esp32s3_szpi_sta.Zephyr.Calls.{got, failed, mkdir, fs, open_file, create, close_file}
use esp32s3_szpi_sta.Zephyr.Prog.{Prog, ret, ◌>>=◌, ◌>>◌, ask}

-- a program under a test
pub IsApart-if :
    {A : Type 0} (b : Bool) (m n : Prog A) → IsApart m → IsApart n → IsApart (if b then m else n)
IsApart-if true m n h k = h
IsApart-if false m n h k = k

stop-IsApart : (b : Ble) → IsApart (advertising_stop b)
unfolding advertising_stop
stop-IsApart b =
    IsApart-if (not b.is_adv_running) _ _ tt (λ err. IsApart-if (is_zero err) _ _ tt tt)

start-IsApart : (b : Ble) → IsApart (advertising_start b)
unfolding advertising_start
start-IsApart b = λ bonds.
    IsApart-if (foldl bond_find (record b { last_paired_addr = none }) bonds).is_adv_running _ _ tt
      (λ _. tt)

try_start-IsApart : (w : Bool) (time : ℤ) (b : Ble) → IsApart (try_advertising_start w time b)
unfolding try_advertising_start
try_start-IsApart w time b = λ _.
    IsApart-bind (advertising_stop (record b { wakeup_adv_mode = w })) _ (stop-IsApart _) λ r later.
      IsApart-bind (advertising_start later) _ (start-IsApart later)
        λ started. IsApart-if (is_zero time) _ _ tt (λ _. tt)

get_v-IsApart : (paras : List Parameter) (key : List ℕ) → IsApart (get_v_by_k paras key)
unfolding get_v_by_k
get_v-IsApart [] key = tt
get_v-IsApart (para ∷ paras) key = elim (Option-cases para.k) [
  | inl e ↦ rw e tt
  | inr (k, e) ↦ rw e (IsApart-if (str_eq k key) _ _ tt (get_v-IsApart paras key))
]

required-IsApart :
    (paras : List Parameter) (key : List ℕ) (b : Ble) (body : List ℕ → Prog Ble)
    → ((v : List ℕ) → IsApart (body v))
    → IsApart (required (get_v_by_k paras) key b body)
required-IsApart paras key b body h =
    IsApart-bind (get_v_by_k paras key) _ (get_v-IsApart paras key)
      λ o. elim (Option-cases o) [ inl e ↦ rw e tt | inr (v, e) ↦ rw e (h v) ]

ble_adv-IsApart : (paras : List Parameter) (b : Ble) → IsApart (func_ble_adv paras b)
unfolding func_ble_adv ble_adv stop_command
ble_adv-IsApart paras b = required-IsApart paras (codes "op") b _ λ op.
    IsApart-if (strn_eq 5 op (codes "start")) _ _
      (required-IsApart paras (codes "duration") b _ λ duration.
        required-IsApart paras (codes "mode") b _ λ mode. try_start-IsApart _ (atoi duration) b)
      (IsApart-if (strn_eq 5 op (codes "stop")) _ _
        (IsApart-bind (advertising_stop b) _ (stop-IsApart b) (λ r. tt)) tt)

pub rpc-IsApart : (parse : Parse) (json : List ℕ) (b : Ble) → IsApart (rpc_execute parse json b)
unfolding rpc_execute route
rpc-IsApart parse json b =
    IsApart-if (is_neg (parse json).0) _ _ tt (elim (Option-cases (parse json).1.func) [
      | inl f ↦ rw f tt
      | inr (func, f) ↦ rw f (
          IsApart-if (str_eq func (codes "ble_adv")) _ _ (ble_adv-IsApart (parse json).1.paras b)
            tt)
    ])

retry-IsApart : (m : Prog (ℤ × List ℕ)) → IsApart m → IsApart (retry m)
unfolding retry
retry-IsApart m h = λ e. IsApart-if (is_retried e) _ _ (λ _. h) tt

pub recv-IsApart : (fuel : ℕ) (fd : ℤ) (n : ℕ) → IsApart (wscli_recv fuel fd n)
unfolding wscli_recv
recv-IsApart zero fd n = tt
recv-IsApart (suc fuel) fd n = elim [
  | failed e ↦ retry-IsApart _ (recv-IsApart fuel fd n)
  | got [] ↦ retry-IsApart _ (recv-IsApart fuel fd n)
  | got (b ∷ bs) ↦ tt
]

init-IsPlain : (has_settings : Bool) (b : Ble) → IsPlain (ble_rc_init has_settings b)
unfolding ble_rc_init set_public_addr
init-IsPlain true b = λ id err. IsPlain-if (not (is_zero err)) _ _ tt (λ _ _. tt)
init-IsPlain false b = λ id err. IsPlain-if (not (is_zero err)) _ _ tt (λ _. tt)

sta-IsPlain : IsPlain sta_tryconnect
unfolding sta_tryconnect connect_to_wifi
sta-IsPlain = λ _ iface. elim (Bool-cases iface) [ inl e ↦ rw e (λ _. tt) | inr e ↦ rw e tt ]

pub handle-IsPlain :
    (cfg : Config) (msg : EvtMsg) (m : MainState) → IsPlain (handle_event cfg msg m)
unfolding handle_event wscli_ping
handle-IsPlain cfg msg m =
    IsPlain-if (msg.type == evt_timer_out) _ _
      (IsPlain-if (cfg.sta_network_en && is_above_zero m.socket_fd) _ _
        (IsPlain-bind (wscli_ping m.socket_fd) _ (IsPlain-if (is_neg m.socket_fd) _ _ tt (λ _. tt))
          (λ _. tt))
        tt)
      (IsPlain-if (msg.type == evt_wifi_sta_start) _ _
        (IsPlain-if cfg.sta_network_en _ _ (IsPlain-bind sta_tryconnect _ sta-IsPlain (λ _. tt)) tt)
        (IsPlain-if (msg.type == evt_wifi_connected || msg.type == evt_ble_start) _ _
          (IsPlain-bind (ble_rc_init cfg.has_settings m.ble) _ (init-IsPlain cfg.has_settings m.ble)
            (λ _. tt))
          tt))

lsdir_loop-IsApart : (fuel count : ℕ) → IsApart (lsdir_loop fuel count)
unfolding lsdir_loop
lsdir_loop-IsApart zero count = tt
lsdir_loop-IsApart (suc fuel) count = λ (res, entry).
    IsApart-if (not (is_zero res) || is_end entry) _ _ tt (lsdir_loop-IsApart fuel _)

lsdir-IsApart : (fuel : ℕ) (path : List ℕ) → IsApart (lsdir fuel path)
unfolding lsdir
lsdir-IsApart fuel path = λ res.
    IsApart-if (not (is_zero res)) _ _ tt
      (IsApart-bind (lsdir_loop fuel 0) _ (lsdir_loop-IsApart fuel 0) (λ r _. tt))

in_path-IsApart :
    (text : List ℕ) (rest : List ℕ → Prog Bool) → IsApart (rest text) → IsApart (in_path text rest)
unfolding in_path
in_path-IsApart text rest h = IsApart-if (leb max_path (length text)) _ _ tt h

abbrev make_dir : List ℕ → List ℕ → Prog Bool
make_dir base file_path = do
  rc ← ask (fs (open_file file_path create))
  if not (is_zero rc) then ret false else do
    ask (fs close_file)
    in_path (base ++ (b'/' ∷ codes "some")) λ dir_path. do ask (fs (mkdir dir_path)); ret true

make_dir-IsApart : (base file_path : List ℕ) → IsApart (make_dir base file_path)
make_dir-IsApart base file_path = λ rc. IsApart-if (not (is_zero rc)) _ _ tt (λ _.
    in_path-IsApart (base ++ (b'/' ∷ codes "some"))
      (λ dir_path. do ask (fs (mkdir dir_path)); ret true) (λ _. tt))

create-IsApart : (path : List ℕ) → IsApart (create_some_entries path)
unfolding create_some_entries
create-IsApart path = IsApart-if (leb (max_path - some_required_len) (length path)) _ _ tt (
    in_path-IsApart path (λ base. in_path (base ++ (b'/' ∷ codes "some.dat")) (make_dir base))
      (in_path-IsApart (path ++ (b'/' ∷ codes "some.dat")) (make_dir path)
        (make_dir-IsApart path (path ++ (b'/' ∷ codes "some.dat")))))

created-IsApart :
    (fuel : ℕ) (created : Bool)
    → IsApart (if created then (do lsdir fuel root_path; ret tt) else ret tt)
created-IsApart fuel true =
    IsApart-bind (lsdir fuel root_path) _ (lsdir-IsApart fuel root_path) λ _. tt
created-IsApart fuel false = tt

pub fatfs-IsApart : (fuel : ℕ) → IsApart (fatfs_init fuel)
unfolding fatfs_init
fatfs-IsApart fuel = λ rc. IsApart-if (not (is_zero rc)) _ _ tt (
    IsApart-bind (lsdir fuel root_path) _ (lsdir-IsApart fuel root_path) λ count.
      elim (Bool-cases (is_zero count)) [
        | inl e ↦ rw e (
            IsApart-bind
              (create_some_entries root_path >>= λ created.
                if created then (do lsdir fuel root_path; ret tt) else ret tt)
              _
              (IsApart-bind (create_some_entries root_path) _ (create-IsApart root_path)
                (created-IsApart fuel))
              λ _. tt)
        | inr e ↦ rw e tt
      ])

pub check-IsApart : IsApart upgrade_check_image
unfolding upgrade_check_image
check-IsApart = λ ok. IsApart-if ok _ _ tt (λ rc. tt)
