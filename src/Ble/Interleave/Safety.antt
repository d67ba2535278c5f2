-- ===== src/Ble/Interleave/Safety.antt =====
-- The invariant rule of the threads: what every function keeps holds in every reachable state.
use mathlib.Core.Path.{subst}
use esp32s3_szpi_sta.Base.{◌<◌, ◌≡◌, refl, Option, none, some, List, [], ◌∷◌, ◌++◌}
use esp32s3_szpi_sta.Ble.State.{Ble}
use esp32s3_szpi_sta.Zephyr.Calls.{bt, wait, take_run_sem}
use esp32s3_szpi_sta.Zephyr.Prog.{Prog, ret, fault, out_of_fuel, call, ◌>>=◌, Trace, Env}
use esp32s3_szpi_sta.Zephyr.Holds.{Admits, Answers, Ends}
use esp32s3_szpi_sta.Zephyr.Prog.{Holds}
use esp32s3_szpi_sta.Zephyr.Avoids.{Avoids, is_bt}
use esp32s3_szpi_sta.Zephyr.Calls.{Call, Answer}
use esp32s3_szpi_sta.Base.{false}
use esp32s3_szpi_sta.Ble.Interleave.{
  Sleeper, run_sem, run_until_wait, System, after, Step, starts, wakes, takes_sem, Reach, here,
  next, Keeps,
}

abbrev pub All : (Sleeper → Type 0) → List Sleeper → Type 0
All Q [] = Unit
All Q (k ∷ l) = Q k × All Q l

All-remove :
    (Q : Sleeper → Type 0) (front back : List Sleeper) (k : Sleeper)
    → All Q (front ++ (k ∷ back))
    → Q k × All Q (front ++ back)
All-remove Q [] back k h = h
All-remove Q (j ∷ front) back k h =
    let (this, rest) = All-remove Q front back k h.1 in (this, (h.0, rest))

module _ (D : Admits) (P : Ble → Trace → Type 0) where
  -- what a sleeper keeps when it wakes, and one at the semaphore when it takes it
  abbrev pub WakesSafely : Sleeper → Type 0
  WakesSafely k = (b : Ble) (t : Trace) → P b t → Keeps D P (k b) t

  abbrev pub TakesSafely : Sleeper → Type 0
  TakesSafely k =
      (b : Ble) (t : Trace) → P b t → 0 < run_sem t → Keeps D P (k b) ((bt (take_run_sem b), b) ∷ t)

  abbrev pub IsSafe : System → Type 0
  IsSafe s = P s.ble s.trace × All WakesSafely s.asleep × All TakesSafely s.waiting

  -- where there is a state behind a run, it is safe
  abbrev IsSafeIn : Option System → Type 0
  IsSafeIn none = Unit
  IsSafeIn (some s) = IsSafe s

  run_until_wait-IsSafe :
      (env : Env) (m : Prog Ble) (t : Trace) (s : System)
      → Answers D env
      → Keeps D P m t
      → All WakesSafely s.asleep
      → All TakesSafely s.waiting
      → IsSafeIn (after (run_until_wait env m t) s)
  unfolding run_until_wait
  run_until_wait-IsSafe env (ret b) t s d h w v = (h, w, v)
  run_until_wait-IsSafe env fault t s d h w v = absurd h
  run_until_wait-IsSafe env out_of_fuel t s d h w v = tt
  run_until_wait-IsSafe env (call (bt (wait ms b)) k) t s d h w v = (h.0, (h.1, w), v)
  run_until_wait-IsSafe env (call (bt (take_run_sem b)) k) t s d h w v = (h.0, w, (h.1, v))
  run_until_wait-IsSafe env (call c k) t s d h w v =
      run_until_wait-IsSafe env (k (env t c)) _ s d (h (env t c) (d t c)) w v

  -- a safe program may go on with another
  pub Keeps-then :
      (m : Prog Ble) (f : Sleeper) (t : Trace)
      → Keeps D P m t
      → WakesSafely f
      → Keeps D P (m >>= f) t
  Keeps-then (ret b) f t h rest = rest b t h
  Keeps-then fault f t h rest = absurd h
  Keeps-then out_of_fuel f t h rest = tt
  Keeps-then (call (bt (wait ms b)) k) f t h rest =
      (h.0, λ b' t' p. Keeps-then (k b') f t' (h.1 b' t' p) rest)
  Keeps-then (call (bt (take_run_sem b)) k) f t h rest =
      (h.0, λ b' t' p given. Keeps-then (k b') f _ (h.1 b' t' p given) rest)
  Keeps-then (call c k) f t h rest = λ r d. Keeps-then (k r) f _ (h r d) rest

  -- so may a program that ends and leaves the BLE part alone
  pub Keeps-apart :
      {A : Type 0} (m : Prog A) (f : A → Prog Ble) (b : Ble) (t : Trace)
      → ((u : Trace) (c : Call) (r : Answer c) → is_bt c ≡ false → P b u → P b ((c, r) ∷ u))
      → Avoids is_bt m
      → Holds D m t (Ends (λ a u. Unit {0}))
      → P b t
      → ((a : A) (u : Trace) → P b u → Keeps D P (f a) u)
      → Keeps D P (m >>= f) t
  Keeps-apart (ret a) f b t still av h p rest = rest a t p
  Keeps-apart fault f b t still av h p rest = absurd h
  Keeps-apart out_of_fuel f b t still av h p rest = absurd h
  Keeps-apart (call (bt (wait ms b')) k) f b t still av h p rest = absurd (let e = av.0 in cc)
  Keeps-apart (call (bt (take_run_sem b')) k) f b t still av h p rest = absurd (let e = av.0 in cc)
  Keeps-apart (call c k) f b t still av h p rest =
      λ r d. Keeps-apart (k r) f b _ still (av.1 r) (h r d) (still t c r av.0 p) rest

module _ (D : Admits) (P : Ble → Trace → Type 0) (Starts : Sleeper → Trace → Trace → Type 0)
    (kept : (h : Sleeper) (t u : Trace)
      → Starts h t u
      → (b : Ble) → P b t
      → Keeps D P (h b) u) where
  Step-IsSafe :
      (env : Env) (s s' : System)
      → Answers D env
      → Step Starts env s s'
      → IsSafe D P s
      → IsSafe D P s'
  Step-IsSafe env s s' d (starts h t ok e) (p, w, v) =
      subst (IsSafeIn D P) e
        (run_until_wait-IsSafe D P env (h s.ble) t s d (kept h s.trace t ok s.ble p) w v)
  Step-IsSafe env s s' d (wakes front back k place e) (p, w, v) =
      let (this, rest) = All-remove (WakesSafely D P) front back k (rw place at w) in
      subst (IsSafeIn D P) e (
        run_until_wait-IsSafe D P env (k s.ble) s.trace (record s { asleep = front ++ back }) d
          (this s.ble s.trace p) rest v)
  Step-IsSafe env s s' d (takes_sem front back k place given e) (p, w, v) =
      let (this, rest) = All-remove (TakesSafely D P) front back k (rw place at v) in
      subst (IsSafeIn D P) e (
        run_until_wait-IsSafe D P env (k s.ble) _ (record s { waiting = front ++ back }) d
          (this s.ble s.trace p given) w rest)

  -- Whatever starts and wakes, and in whatever order, `P` holds between two runs.
  pub Reach-IsSafe :
      {env : Env} {s s' : System}
      → Answers D env
      → Reach Starts env s s'
      → IsSafe D P s
      → IsSafe D P s'
  Reach-IsSafe d here h = h
  Reach-IsSafe {env = env} d (next r st) h = Step-IsSafe env _ _ d st (Reach-IsSafe d r h)

-- A run up to the next wait goes through a program that ends and leaves the BLE part alone.
pub run_until_wait-apart :
    {A : Type 0} (D : Admits) (env : Env) (m : Prog A) (f : A → Prog Ble) (t : Trace)
    → Answers D env
    → Avoids is_bt m
    → Holds D m t (Ends (λ a u. Unit {0}))
    → (a : A) × (u : Trace) × (run_until_wait env (m >>= f) t ≡ run_until_wait env (f a) u)
unfolding run_until_wait
run_until_wait-apart D env (ret a) f t d av h = (a, t, refl)
run_until_wait-apart D env fault f t d av h = absurd h
run_until_wait-apart D env out_of_fuel f t d av h = absurd h
run_until_wait-apart D env (call (bt (wait ms b)) k) f t d av h = absurd (let e = av.0 in cc)
run_until_wait-apart D env (call (bt (take_run_sem b)) k) f t d av h = absurd (let e = av.0 in cc)
run_until_wait-apart D env (call c k) f t d av h =
    run_until_wait-apart D env (k (env t c)) f _ d (av.1 (env t c)) (h (env t c) (d t c))
