-- ===== src/Main/Plain.antt =====
-- Programs that end whatever the answers and do not sleep, and leave the list of events, the
-- eventfd and the heap alone.
use esp32s3_szpi_sta.Base.{Bool, true, false, ◌≡◌, refl, List, [], ◌∷◌, ◌++◌, some, if◌then◌else◌}
use esp32s3_szpi_sta.Main.Duty.{Duty, Follows}
use esp32s3_szpi_sta.Main.Message.{EvtMsg}
use esp32s3_szpi_sta.Main.Queue.{queued}
use esp32s3_szpi_sta.Zephyr.Calls.{
  wait, Answer, fs, flash, boot, psa, kernel, bt, net, posix, slist, wifi, disk, get,
}
use esp32s3_szpi_sta.Zephyr.Prog.{
  Prog, ret, fault, out_of_fuel, call, Outcome, done, faulted, unfinished, Trace, Env, run, ◌>>=◌,
}

-- the messages that the list has given, in their order
abbrev pub taken : Trace → List EvtMsg
taken [] = []
taken ((slist get, some msg) ∷ t) = taken t ++ (msg ∷ [])
taken (_ ∷ t) = taken t

abbrev pub IsPlain : {A : Type 0} → Prog A → Type 0
IsPlain (ret a) = Unit
IsPlain fault = ⊥
IsPlain out_of_fuel = ⊥
IsPlain (call (slist c) k) = ⊥
IsPlain (call (posix c) k) = ⊥
IsPlain (call (kernel c) k) = ⊥
IsPlain (call (bt (wait ms b)) k) = ⊥
IsPlain (call c k) = (r : Answer c) → IsPlain (k r)

pub IsPlain-if :
    {A : Type 0} (b : Bool) (m n : Prog A) → IsPlain m → IsPlain n → IsPlain (if b then m else n)
IsPlain-if true m n h k = h
IsPlain-if false m n h k = k

pub IsPlain-bind :
    {A B : Type 0} (m : Prog A) (f : A → Prog B)
    → IsPlain m
    → ((a : A) → IsPlain (f a))
    → IsPlain (m >>= f)
IsPlain-bind (ret a) f h next = next a
IsPlain-bind fault f h next = absurd h
IsPlain-bind out_of_fuel f h next = absurd h
IsPlain-bind (call (slist c) k) f h next = absurd h
IsPlain-bind (call (posix c) k) f h next = absurd h
IsPlain-bind (call (kernel c) k) f h next = absurd h
IsPlain-bind (call (fs c) k) f h next = λ r. IsPlain-bind (k r) f (h r) next
IsPlain-bind (call (flash c) k) f h next = λ r. IsPlain-bind (k r) f (h r) next
IsPlain-bind (call (boot c) k) f h next = λ r. IsPlain-bind (k r) f (h r) next
IsPlain-bind (call (psa c) k) f h next = λ r. IsPlain-bind (k r) f (h r) next
IsPlain-bind (call (bt (wait ms b)) k) f h next = absurd h
IsPlain-bind (call (bt c) k) f h next = λ r. IsPlain-bind (k r) f (h r) next
IsPlain-bind (call (net c) k) f h next = λ r. IsPlain-bind (k r) f (h r) next
IsPlain-bind (call (wifi c) k) f h next = λ r. IsPlain-bind (k r) f (h r) next
IsPlain-bind (call (disk c) k) f h next = λ r. IsPlain-bind (k r) f (h r) next

pub IsPlain-Follows :
    {A B : Type 0} (d : Duty) (m : Prog A) (f : A → Prog B)
    → IsPlain m
    → ((a : A) → Follows d (f a))
    → Follows d (m >>= f)
IsPlain-Follows d (ret a) f h next = next a
IsPlain-Follows d fault f h next = absurd h
IsPlain-Follows d out_of_fuel f h next = absurd h
IsPlain-Follows d (call (slist c) k) f h next = absurd h
IsPlain-Follows d (call (posix c) k) f h next = absurd h
IsPlain-Follows d (call (kernel c) k) f h next = absurd h
IsPlain-Follows d (call (bt (wait ms b)) k) f h next = absurd h
IsPlain-Follows d (call (fs c) k) f h next = (tt, λ r. IsPlain-Follows d (k r) f (h r) next)
IsPlain-Follows d (call (flash c) k) f h next = (tt, λ r. IsPlain-Follows d (k r) f (h r) next)
IsPlain-Follows d (call (boot c) k) f h next = (tt, λ r. IsPlain-Follows d (k r) f (h r) next)
IsPlain-Follows d (call (psa c) k) f h next = (tt, λ r. IsPlain-Follows d (k r) f (h r) next)
IsPlain-Follows d (call (bt c) k) f h next = (tt, λ r. IsPlain-Follows d (k r) f (h r) next)
IsPlain-Follows d (call (net c) k) f h next = (tt, λ r. IsPlain-Follows d (k r) f (h r) next)
IsPlain-Follows d (call (wifi c) k) f h next = (tt, λ r. IsPlain-Follows d (k r) f (h r) next)
IsPlain-Follows d (call (disk c) k) f h next = (tt, λ r. IsPlain-Follows d (k r) f (h r) next)

module _ {A : Type 0} where
  -- how a run ends that has to do neither with the list nor with the heap
  abbrev pub EndsPlain : Env → Prog A → Trace → Type 0
  EndsPlain env m t =
      (a : A) × (u : Trace) × (run env m t ≡ (done a, u))
      × (queued u ≡ queued t)
      × (taken u ≡ taken t)

  pub run-IsPlain : (env : Env) (m : Prog A) (t : Trace) → IsPlain m → EndsPlain env m t
  unfolding run
  run-IsPlain env (ret a) t h = (a, t, refl, refl, refl)
  run-IsPlain env fault t h = absurd h
  run-IsPlain env out_of_fuel t h = absurd h
  run-IsPlain env (call (slist c) k) t h = absurd h
  run-IsPlain env (call (posix c) k) t h = absurd h
  run-IsPlain env (call (kernel c) k) t h = absurd h
  run-IsPlain env (call (fs c) k) t h =
      run-IsPlain env (k (env t (fs c))) ((fs c, env t (fs c)) ∷ t) (h _)
  run-IsPlain env (call (flash c) k) t h =
      run-IsPlain env (k (env t (flash c))) ((flash c, env t (flash c)) ∷ t) (h _)
  run-IsPlain env (call (boot c) k) t h =
      run-IsPlain env (k (env t (boot c))) ((boot c, env t (boot c)) ∷ t) (h _)
  run-IsPlain env (call (psa c) k) t h =
      run-IsPlain env (k (env t (psa c))) ((psa c, env t (psa c)) ∷ t) (h _)
  run-IsPlain env (call (bt (wait ms b)) k) t h = absurd h
  run-IsPlain env (call (bt c) k) t h =
      run-IsPlain env (k (env t (bt c))) ((bt c, env t (bt c)) ∷ t) (h _)
  run-IsPlain env (call (net c) k) t h =
      run-IsPlain env (k (env t (net c))) ((net c, env t (net c)) ∷ t) (h _)
  run-IsPlain env (call (wifi c) k) t h =
      run-IsPlain env (k (env t (wifi c))) ((wifi c, env t (wifi c)) ∷ t) (h _)
  run-IsPlain env (call (disk c) k) t h =
      run-IsPlain env (k (env t (disk c))) ((disk c, env t (disk c)) ∷ t) (h _)

-- what is left to run of `f` once a program has ended
abbrev pub resume : {A B : Type 0} → Env → (A → Prog B) → Outcome A × Trace → Outcome B × Trace
resume env f (done a, u) = run env (f a) u
resume env f (faulted, u) = (faulted, u)
resume env f (unfinished, u) = (unfinished, u)

pub run-bind :
    {A B : Type 0} (env : Env) (m : Prog A) (f : A → Prog B) (t : Trace)
    → run env (m >>= f) t ≡ resume env f (run env m t)
unfolding run
run-bind env (ret a) f t = refl
run-bind env fault f t = refl
run-bind env out_of_fuel f t = refl
run-bind env (call c k) f t = run-bind env (k (env t c)) f ((c, env t c) ∷ t)
