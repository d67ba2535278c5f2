-- ===== src/Zephyr/Sample.antt =====
-- An environment in which every call succeeds and the file system holds one file. Examples run
-- against it.
use esp32s3_szpi_sta.Base.{
  some, ℕ, ◌^◌, ◌<◌, ◌≡◌, refl, sym, ap, ◌∙◌, true, false, none, List, [], ◌++◌, pos, length, take,
  replicate, drop, take-append-drop, drop-append, drop_of_take_nil, length-take-le, append_assoc,
}
use esp32s3_szpi_sta.Zephyr.Calls.{
  got, file, dir, FsCall, FsAnswer, stat, read, readdir, BootCall, BootAnswer, fetch_active_slot,
  img_confirmed, reboot, PsaCall, PsaAnswer, hash_finish, finished, KernelCall, KernelAnswer,
  malloc, uptime, rand8, free, sleep, BtCall, BtAnswer, foreach_bond, conn_get_dst, find_by_uuid,
  adv_ended, settings_load, thread_start, work_submit, reschedule, cancel_delayable, take_run_sem,
  give_run_sem, wait, NetCall, NetAnswer, recv, PosixCall, PosixAnswer, poll, SlistCall,
  SlistAnswer, append, get, WifiCall, WifiAnswer, add_event_callback, get_wifi_sta, wifi_connect,
  DiskCall, DiskAnswer, ctrl_init, ctrl_deinit, posix, slist, wifi, disk, close_sock,
  http_client_req, errno, fs, flash, boot, psa, kernel, bt, net,
}
use esp32s3_szpi_sta.Zephyr.Prog.{Trace, Env}
use esp32s3_szpi_sta.Zephyr.Holds.{Answers}
use esp32s3_szpi_sta.Zephyr.Usage.{consumed}
use esp32s3_szpi_sta.Zephyr.Documented.{Fits, ReadsFile, Continues}

abbrev fs_answer : List ℕ → Trace → (c : FsCall) → FsAnswer c
fs_answer content t (stat p) = (pos 0, record { type = file; size = length content; name = [] })
fs_answer content t (read n) = got (take n (drop (length (consumed t)) content))
fs_answer content t readdir = (pos 0, record { type = dir; size = 0; name = [] })
fs_answer content t _ = pos 0

abbrev boot_answer : (c : BootCall) → BootAnswer c
boot_answer fetch_active_slot = 1
boot_answer img_confirmed = false
boot_answer reboot = tt
boot_answer _ = pos 0

abbrev psa_answer : (c : PsaCall) → PsaAnswer c
psa_answer hash_finish = finished (replicate 32 171)
psa_answer _ = pos 0

abbrev kernel_answer : (c : KernelCall) → KernelAnswer c
kernel_answer (malloc n) = true
kernel_answer uptime = 5000
kernel_answer rand8 = 200
kernel_answer free = tt
kernel_answer (sleep ms) = tt

abbrev bt_answer : (c : BtCall) → BtAnswer c
bt_answer (foreach_bond id) = []
bt_answer conn_get_dst = none
bt_answer find_by_uuid = some 6
bt_answer adv_ended = tt
bt_answer settings_load = tt
bt_answer thread_start = tt
bt_answer work_submit = tt
bt_answer (reschedule ms) = tt
bt_answer cancel_delayable = tt
bt_answer (wait ms b) = b
bt_answer (take_run_sem b) = b
bt_answer give_run_sem = tt
bt_answer _ = pos 0

abbrev net_answer : (c : NetCall) → NetAnswer c
net_answer (close_sock s) = tt
net_answer errno = 0
net_answer (http_client_req s url) = record { responses = []; result = pos 0 }
net_answer (recv s n) = got []
net_answer _ = pos 0

abbrev posix_answer : (c : PosixCall) → PosixAnswer c
posix_answer (poll fds b) = record { result = pos 0; revents = []; ble = b }
posix_answer _ = pos 0

abbrev slist_answer : (c : SlistCall) → SlistAnswer c
slist_answer (append msg) = tt
slist_answer get = none

abbrev wifi_answer : (c : WifiCall) → WifiAnswer c
wifi_answer add_event_callback = tt
wifi_answer get_wifi_sta = true
wifi_answer wifi_connect = pos 0

abbrev disk_answer : (c : DiskCall) → DiskAnswer c
disk_answer ctrl_init = pos 0
disk_answer ctrl_deinit = pos 0
disk_answer _ = (pos 0, 512)

unfoldable pub reader : List ℕ → Env
reader content t (fs c) = fs_answer content t c
reader content t (flash c) = pos 0
reader content t (boot c) = boot_answer c
reader content t (psa c) = psa_answer c
reader content t (kernel c) = kernel_answer c
reader content t (bt c) = bt_answer c
reader content t (net c) = net_answer c
reader content t (posix c) = posix_answer c
reader content t (slist c) = slist_answer c
reader content t (wifi c) = wifi_answer c
reader content t (disk c) = disk_answer c

Continues-rest :
    (content xs rest : List ℕ) (t : Trace) (n : ℕ)
    → consumed t ≡ xs
    → content ≡ xs ++ rest
    → Continues content t n (take n (drop (length xs) content))
Continues-rest content xs rest t n c e = rw (ap (drop (length xs)) e ∙ drop-append xs rest) (
  drop n rest,
  e
      ∙ ap (λ ys. xs ++ ys) (sym (take-append-drop n rest))
      ∙ sym (append_assoc xs (take n rest) (drop n rest))
      ∙ ap (λ ys. ys ++ take n rest ++ drop n rest) (sym c),
  length-take-le n rest,
  drop_of_take_nil n rest,
)

pub reader-ReadsFile : (path content : List ℕ) → Answers (ReadsFile path content) (reader content)
unfolding reader
reader-ReadsFile path content t (fs (stat p)) = λ _ _. refl
reader-ReadsFile path content t (fs (read n)) =
    λ _ (rest, e). Continues-rest content _ rest t n refl e
reader-ReadsFile path content t _ = tt

pub reader-Fits : (content : List ℕ) → length content < 2 ^ 32 → Answers Fits (reader content)
unfolding reader
reader-Fits content h t (fs (stat p)) = h
reader-Fits content h t (fs (read n)) = length-take-le n (drop (length (consumed t)) content)
reader-Fits content h t _ = tt
