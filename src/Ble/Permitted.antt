-- ===== src/Ble/Permitted.antt =====
-- The semaphore `bt_ck_run_sem` of src/ble_rc.c: when the check thread may run.
use esp32s3_szpi_sta.Base.{
  ℕ, suc, ◌+◌, ◌≤◌, ◌<◌, ◌≡◌, Option, none, some, Bool-cases, inl, inr, true, false, List, [], ◌∷◌,
  ltb, length, arith,
}
use esp32s3_szpi_sta.Ble.State.{Addr, Ble}
use esp32s3_szpi_sta.Ble.Adv.{note_peer}
use esp32s3_szpi_sta.Ble.Keys.{input_ccc_changed, write_ctrl_point}
use esp32s3_szpi_sta.Ble.Check.Takes.{takes}
use esp32s3_szpi_sta.Ble.Interleave.{run_sem, System, system, Reach}
use esp32s3_szpi_sta.Ble.Threads.{Handler, Reach-Keeps}
use esp32s3_szpi_sta.Ble.Threads.Effects.{Moves, matters}
use esp32s3_szpi_sta.HttpClient.Sockets.{ShortResponses}
use esp32s3_szpi_sta.Zephyr.Calls.{Call, Answer, bt, give_run_sem, take_run_sem}
use esp32s3_szpi_sta.Zephyr.Prog.{Trace, Env}
use esp32s3_szpi_sta.Zephyr.Holds.{Answers}

-- the times that `auto_reboot_start` gave the semaphore
abbrev pub gives : Trace → ℕ
gives [] = 0
gives ((bt give_run_sem, r) ∷ t) = suc (gives t)
gives (_ ∷ t) = gives t

-- Each time that the semaphore was taken it had been given, and the flag is set only behind that.
abbrev pub IsPermitted : Ble → Trace → Type 0
IsPermitted b t = (takes t + run_sem t ≤ gives t) × (b.bt_ck_running ≡ true → 0 < takes t)

called-IsPermitted :
    (b : Ble) (t : Trace) (c : Call) (r : Answer c)
    → matters c ≡ false
    → IsPermitted b t
    → IsPermitted b ((c, r) ∷ t)
called-IsPermitted b t (bt give_run_sem) r e h = absurd cc
called-IsPermitted b t (bt (take_run_sem b')) r e h = absurd cc
called-IsPermitted b t _ r e h = h

noted-IsPermitted :
    (dst : Option Addr) (b : Ble) (t : Trace) → IsPermitted b t → IsPermitted (note_peer dst b) t
unfolding note_peer
noted-IsPermitted none b t h = h
noted-IsPermitted (some addr) b t h = h

written-IsPermitted :
    (buf : List ℕ) (offset : ℕ) (b : Ble) (t : Trace)
    → IsPermitted b t
    → IsPermitted (write_ctrl_point buf offset b).1 t
unfolding write_ctrl_point
written-IsPermitted buf offset b t h =
    elim (Bool-cases (ltb (length b.ctrl_point) (offset + length buf))) [
      | inl far ↦ rw far h
      | inr near ↦ rw near h
    ]

Moves-IsPermitted : Moves ShortResponses IsPermitted
Moves-IsPermitted = record {
  called = called-IsPermitted;
  started = λ b t p id r off e h. h;
  not_started = λ b t p id r off e h. h;
  stopped = λ b t r on e h. h;
  not_stopped = λ b t r on e h. h;
  adv_over = λ b t h. h;
  given = λ b t (n, f). (omega arith, f);
  taken = λ b t (n, f) g. (omega arith, λ _. omega arith);
  told = λ b t (n, f). (n, λ e. absurd cc);
  moded = λ w b t h. h;
  bonded = λ a b t h. h;
  linked = λ l b t h. h;
  noted = λ dst b t u d h. noted-IsPermitted dst b t h;
  reported = λ key b t k h. h;
  unreported = λ b t h. h;
  allowed = λ value b t h. unfold input_ccc_changed in h;
  written = written-IsPermitted;
}

-- From the start, where nothing was called and the check is not to run, in every reachable state:
-- the threads have taken the semaphore at most as often as `auto_reboot_start` gave it, one time
-- less if it is still given, and the flag by which the check runs is set only if the semaphore was
-- taken, so that without the command nothing runs. No response fragment of the relay fills the
-- receive buffer.
pub Reach-IsPermitted :
    (env : Env) (b : Ble) (s : System)
    → Answers ShortResponses env
    → b.bt_ck_running ≡ false
    → Reach Handler env (system b []) s
    → (takes s.trace + run_sem s.trace ≤ gives s.trace)
      × (s.ble.bt_ck_running ≡ true → (0 < takes s.trace) × (0 < gives s.trace))
Reach-IsPermitted env b s d off r =
    let (n, f) =
      Reach-Keeps ShortResponses IsPermitted Moves-IsPermitted (λ u c a e. e) d
        (omega arith, λ on. absurd cc) r in
    (n, λ on. let k = f on in (k, omega arith))
