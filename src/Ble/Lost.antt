-- ===== src/Ble/Lost.antt =====
-- A command to stop the check of src/ble_rc.c that comes before the check thread has begun is lost.
use esp32s3_szpi_sta.Base.{
  ℕ, zero, suc, ◌<◌, ◌≡◌, refl, true, [], ◌∷◌, some, ℤ, length, arith, ap, ◌∙◌, false,
}
use esp32s3_szpi_sta.Ble.State.{Ble}
use esp32s3_szpi_sta.Ble.Check.{
  bt_ck_k_sleep, looper_3_round, looper, bt_ck_looper_3, bt_ck_looper_thrd, cmd_auto_reboot_start,
  cmd_auto_reboot_stop,
}
use esp32s3_szpi_sta.Ble.Interleave.{
  Sleeper, System, system, run_until_wait, after, Step, starts, takes_sem, Reach, here, next,
}
use esp32s3_szpi_sta.Ble.Interleave.Safety.{run_until_wait-apart}
use esp32s3_szpi_sta.Ble.Threads.{Handler, check_thread, reboot_start, reboot_stop}
use esp32s3_szpi_sta.HttpClient.{run_set_sk_v}
use esp32s3_szpi_sta.HttpClient.Apart.{set_sk_v-Avoids}
use esp32s3_szpi_sta.HttpClient.Sockets.{ShortResponses, set-IsClosed}
use esp32s3_szpi_sta.Zephyr.Calls.{bt, give_run_sem, take_run_sem}
use esp32s3_szpi_sta.Zephyr.Prog.{Prog, Trace, Env, ret, ◌>>=◌, bind_assoc}
use esp32s3_szpi_sta.Zephyr.Holds.{Answers, Holds-weaken}

-- what the check thread does once it has the semaphore
abbrev pub check : ℤ → ℕ → ℕ → Sleeper
check time fuel rounds later = bt_ck_looper_3 time fuel later >>= bt_ck_looper_thrd time fuel rounds

-- the check thread waits; the semaphore is given by `auto_reboot_start`
abbrev waiting_given : Env → ℤ → ℕ → ℕ → Ble → Trace → System
waiting_given env time fuel rounds b t = record {
  ble = b;
  trace = (bt give_run_sem, env t (bt give_run_sem)) ∷ t;
  asleep = [];
  waiting = check time fuel rounds ∷ [];
}

-- and then `auto_reboot_stop` is run, before the thread goes on
abbrev pub told_early : Env → ℤ → ℕ → ℕ → Ble → Trace → System
told_early env time fuel rounds b t = record (waiting_given env time fuel rounds b t) {
  ble = cmd_auto_reboot_stop b;
}

pub told_early-Reach :
    (env : Env) (time : ℤ) (fuel rounds : ℕ) (b : Ble) (t : Trace)
    → Reach Handler env (system b t) (told_early env time fuel rounds b t)
unfolding run_until_wait bt_ck_looper_thrd cmd_auto_reboot_start
told_early-Reach env time fuel rounds b t =
    let told = waiting_given env time fuel rounds b t in
    next
      (next
        (next here (
          starts (bt_ck_looper_thrd time fuel (suc rounds)) t
            (check_thread time fuel (suc rounds) t) refl))
        (starts cmd_auto_reboot_start t (reboot_start t) refl))
      (starts (λ b'. ret (cmd_auto_reboot_stop b')) told.trace (reboot_stop told.trace) refl)

-- a program that begins with a switch of the relay, inside of two others
relay-apart :
    (env : Env) (rest : ℤ → Prog Ble) (f g : Sleeper) (t : Trace)
    → Answers ShortResponses env
    → (a : ℤ) × (u : Trace) × (run_until_wait env (run_set_sk_v 0 >>= rest >>= f >>= g) t
        ≡ run_until_wait env (rest a >>= f >>= g) u)
relay-apart env rest f g t d =
    let m = run_set_sk_v 0 in
    let (a, u, e) =
      run_until_wait-apart ShortResponses env m (λ a. rest a >>= f >>= g) t d (set_sk_v-Avoids 0)
        (Holds-weaken ShortResponses _ (λ r w. Unit {0}) m t (λ r w h. tt) (set-IsClosed 0 t)) in
    (
      a,
      u,
      ap (λ p. run_until_wait env (p >>= g) t) (bind_assoc m rest f)
          ∙ ap (λ p. run_until_wait env p t) (bind_assoc m (λ a'. rest a' >>= f) g)
          ∙ e,
    )

-- the check begins, and comes to its first sleep with the flag set
check-sleeps :
    (env : Env) (time : ℤ) (fuel rounds : ℕ) (b : Ble) (t : Trace) (s : System)
    → Answers ShortResponses env
    → (s' : System) × (after (run_until_wait env (check time (suc fuel) rounds b) t) s ≡ some s')
      × (s'.ble.bt_ck_running ≡ true)
      × (s'.waiting ≡ s.waiting)
      × (length s'.asleep ≡ suc (length s.asleep))
unfolding run_until_wait bt_ck_looper_3 looper looper_3_round bt_ck_k_sleep
check-sleeps env time fuel rounds b t s d =
    let (a, u, e) =
      relay-apart env _ (looper (looper_3_round time) fuel)
        (bt_ck_looper_thrd time (suc fuel) rounds) t d in
    (_, ap (λ p. after p s) e, refl, refl, refl)

-- A command to stop that comes too early is lost: where the check thread waits for its semaphore,
-- `auto_reboot_start` gives it, and `auto_reboot_stop` is run before the thread goes on, the thread
-- then begins its check all the same, and sleeps in it with the flag set by which it goes on. No
-- response fragment of the relay fills the receive buffer, and there is fuel for a round.
pub stop-IsLost :
    (env : Env) (wakeup_time_s : ℤ) (fuel rounds : ℕ) (b : Ble) (t : Trace)
    → Answers ShortResponses env
    → 0 < fuel
    → let told = told_early env wakeup_time_s fuel rounds b t in
      Reach Handler env (system b t) told
      × (told.ble.bt_ck_running ≡ false)
      × ((s : System) × Step Handler env told s
          × (s.ble.bt_ck_running ≡ true)
          × (s.waiting ≡ [])
          × (length s.asleep ≡ 1))
unfolding cmd_auto_reboot_stop
stop-IsLost env time zero rounds b t d f = absurd (omega arith)
stop-IsLost env time (suc fuel) rounds b t d f =
    let told = told_early env time (suc fuel) rounds b t in
    let s0 = record told { waiting = [] } in
    let (s, e, on, left, one) =
      check-sleeps env time fuel rounds told.ble
        ((bt (take_run_sem told.ble), told.ble) ∷ told.trace) s0 d in
    (
      told_early-Reach env time (suc fuel) rounds b t,
      refl,
      (s, takes_sem [] [] (check time (suc fuel) rounds) refl (omega arith) e, on, left, one),
    )
