-- ===== src/Ble/Interleave.antt =====
-- The threads of the BLE part. The shell, the work queue, the Bluetooth callbacks, the RPC handler
-- and the check thread run their functions between one another: a function that sleeps, or waits for
-- `bt_ck_run_sem`, writes the shared variables, waits, and goes on with what the others have left in
-- them. Between two waits a function is taken to run undisturbed.
pub mod Safety
use esp32s3_szpi_sta.Base.{ℕ, ◌-◌, ◌<◌, ◌≡◌, Option, none, some, List, [], ◌∷◌, ◌++◌}
use esp32s3_szpi_sta.Ble.State.{Ble}
use esp32s3_szpi_sta.Zephyr.Calls.{wait, take_run_sem, give_run_sem, bt, Call, Answer}
use esp32s3_szpi_sta.Zephyr.Prog.{Prog, ret, fault, out_of_fuel, call, Trace, Env}
use esp32s3_szpi_sta.Zephyr.Holds.{Admits}

-- a function that sleeps, by what it does when it wakes
abbrev pub Sleeper : Type 0
Sleeper = Ble → Prog Ble

-- the count of `bt_ck_run_sem`, which begins at 0 and stops at its limit 1
abbrev pub run_sem : Trace → ℕ
run_sem [] = 0
run_sem ((bt give_run_sem, r) ∷ t) = 1
run_sem ((bt (take_run_sem b), r) ∷ t) = run_sem t - 1
run_sem (_ ∷ t) = run_sem t

-- how a run up to the next wait ends
pub data Pause : Type 0 where
  ended : Ble → Pause
  sleeps : Ble → Sleeper → Pause
  awaits : Ble → Sleeper → Pause
  stuck : Pause
  cut_short : Pause

unfoldable pub run_until_wait : Env → Prog Ble → Trace → Pause × Trace
run_until_wait env (ret b) t = (ended b, t)
run_until_wait env fault t = (stuck, t)
run_until_wait env out_of_fuel t = (cut_short, t)
run_until_wait env (call (bt (wait ms b)) k) t = (sleeps b k, t)
run_until_wait env (call (bt (take_run_sem b)) k) t = (awaits b k, t)
run_until_wait env (call c k) t = let r = env t c in run_until_wait env (k r) ((c, r) ∷ t)

pub record System : Type 0 where
  pub ble : Ble
  pub trace : Trace
  pub asleep : List Sleeper
  pub waiting : List Sleeper  -- for the semaphore

abbrev pub system : Ble → Trace → System
system b t = record { ble = b; trace = t; asleep = []; waiting = [] }

-- What such a run leaves. Where the fuel of a loop does not last to its next wait there is nothing
-- to tell: the fuel is the model's, and a larger one gives the run.
abbrev pub after : Pause × Trace → System → Option System
after (ended b, t) s = some (record s { ble = b; trace = t })
after (sleeps b k, t) s = some (record s { ble = b; trace = t; asleep = k ∷ s.asleep })
after (awaits b k, t) s = some (record s { ble = b; trace = t; waiting = k ∷ s.waiting })
after (stuck, t) s = some (record s { trace = t })
after (cut_short, t) s = none

-- A thread starts one of the functions `Starts`, from the trace that it names, to which the
-- controller may have added an event; or a sleeper wakes; or one that waits for the semaphore takes
-- it, where it is given.
pub data Step (Starts : Sleeper → Trace → Trace → Type 0) (env : Env) (s : System) (s' : System)
    : Type 0 where
  starts :
      (h : Sleeper) (t : Trace)
      → Starts h s.trace t
      → after (run_until_wait env (h s.ble) t) s ≡ some s'
      → Step Starts env s s'
  wakes :
      (front back : List Sleeper) (k : Sleeper)
      → s.asleep ≡ front ++ (k ∷ back)
      → after (run_until_wait env (k s.ble) s.trace) (record s { asleep = front ++ back }) ≡ some s'
      → Step Starts env s s'
  takes_sem :
      (front back : List Sleeper) (k : Sleeper)
      → s.waiting ≡ front ++ (k ∷ back)
      → 0 < run_sem s.trace
      → after
          (run_until_wait env (k s.ble) ((bt (take_run_sem s.ble), s.ble) ∷ s.trace))
          (record s { waiting = front ++ back })
        ≡ some s'
      → Step Starts env s s'

pub data Reach (Starts : Sleeper → Trace → Trace → Type 0) (env : Env) (s : System)
    : System → Type 0 where
  here : Reach Starts env s s
  next : {s' u : System} → Reach Starts env s s' → Step Starts env s' u → Reach Starts env s u

-- A program keeps `P` against the answers that `D` admits: it has `P` at its end and wherever it
-- waits, and goes on to keep it from any state with `P` in which it may go on.
abbrev pub Keeps : Admits → (Ble → Trace → Type 0) → Prog Ble → Trace → Type 0
Keeps D P (ret b) t = P b t
Keeps D P fault t = ⊥
Keeps D P out_of_fuel t = Unit
Keeps D P (call (bt (wait ms b)) k) t =
    P b t × ((b' : Ble) (t' : Trace) → P b' t' → Keeps D P (k b') t')
Keeps D P (call (bt (take_run_sem b)) k) t =
    P b t
    × ((b' : Ble) (t' : Trace)
        → P b' t'
        → 0 < run_sem t'
        → Keeps D P (k b') ((bt (take_run_sem b'), b') ∷ t'))
Keeps D P (call c k) t = (r : Answer c) → D t c r → Keeps D P (k r) ((c, r) ∷ t)
