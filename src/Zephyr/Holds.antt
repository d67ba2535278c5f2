-- ===== src/Zephyr/Holds.antt =====
-- The rules by which a property of every run is proved: one case for each answer.
use esp32s3_szpi_sta.Base.{Bool, true, false, ◌∷◌, if◌then◌else◌}
use esp32s3_szpi_sta.Zephyr.Calls.{Call, Answer}
use esp32s3_szpi_sta.Zephyr.Prog.{
  Prog, ret, fault, out_of_fuel, call, Outcome, done, faulted, unfinished, Trace, Env, ◌>>=◌, run,
  Holds,
}

abbrev pub Admits : Type 1
Admits = Trace → (c : Call) → Answer c → Type 0

-- the environment answers as `D` says
abbrev pub Answers : Admits → Env → Type 0
Answers D env = (t : Trace) (c : Call) → D t c (env t c)

-- no assumption about the answers
abbrev pub Any : Admits
Any t c r = Unit {0}

pub any : (env : Env) → Answers Any env
any env t c = tt

-- a run that returns, with a result and a trace as `R` says
abbrev pub Ends : {A : Type 0} → (A → Trace → Type 0) → Outcome A → Trace → Type 0
Ends R (done a) u = R a u
Ends R faulted u = ⊥
Ends R unfinished u = ⊥

module _ {A : Type 0} (D : Admits) where
  -- What holds whatever the answers holds of the run against an environment.
  pub run-Holds :
      (Q : Outcome A → Trace → Type 0) (env : Env)
      → Answers D env
      → (m : Prog A) (t : Trace) → Holds D m t Q
      → Q (run env m t).0 (run env m t).1
  unfolding run
  run-Holds Q env d (ret a) t h = h
  run-Holds Q env d fault t h = h
  run-Holds Q env d out_of_fuel t h = h
  run-Holds Q env d (call c k) t h =
      run-Holds Q env d (k (env t c)) ((c, env t c) ∷ t) (h (env t c) (d t c))

  pub Holds-mono :
      {P Q : Outcome A → Trace → Type 0} (m : Prog A) (t : Trace)
      → ((o : Outcome A) (u : Trace) → P o u → Q o u)
      → Holds D m t P
      → Holds D m t Q
  Holds-mono (ret a) t w h = w _ _ h
  Holds-mono fault t w h = w _ _ h
  Holds-mono out_of_fuel t w h = w _ _ h
  Holds-mono (call c k) t w h = λ r d. Holds-mono (k r) ((c, r) ∷ t) w (h r d)

pub Ends-mono :
    {A : Type 0} (R S : A → Trace → Type 0)
    → ((a : A) (u : Trace) → R a u → S a u)
    → (o : Outcome A) (u : Trace) → Ends R o u
    → Ends S o u
Ends-mono R S w (done a) u h = w a u h
Ends-mono R S w faulted u h = h
Ends-mono R S w unfinished u h = h

-- an end, and what is known beside it
pub Ends-and :
    {A : Type 0} (R : A → Trace → Type 0) (J : Trace → Type 0) (o : Outcome A) (u : Trace)
    → Ends R o u × J u
    → Ends (λ a v. R a v × J v) o u
Ends-and R J (done a) u h = h
Ends-and R J faulted u (h, j) = h
Ends-and R J unfinished u (h, j) = h

module _ {A : Type 0} (D : Admits) where
  pub Holds-weaken :
      (R S : A → Trace → Type 0) (m : Prog A) (t : Trace)
      → ((a : A) (u : Trace) → R a u → S a u)
      → Holds D m t (Ends R)
      → Holds D m t (Ends S)
  Holds-weaken R S m t w h = Holds-mono D m t (Ends-mono R S w) h

pub Holds-both :
    {A : Type 0} (D : Admits) (P Q : Outcome A → Trace → Type 0) (m : Prog A) (t : Trace)
    → Holds D m t P
    → Holds D m t Q
    → Holds D m t (λ o u. P o u × Q o u)
Holds-both D P Q (ret a) t h k = (h, k)
Holds-both D P Q fault t h k = (h, k)
Holds-both D P Q out_of_fuel t h k = (h, k)
Holds-both D P Q (call c k') t h k = λ r d. Holds-both D P Q (k' r) ((c, r) ∷ t) (h r d) (k r d)

-- what holds for all answers that `D` admits holds for fewer
pub Holds-narrow :
    {A : Type 0} (D E : Admits) (Q : Outcome A → Trace → Type 0) (m : Prog A) (t : Trace)
    → ((u : Trace) (c : Call) (r : Answer c) → E u c r → D u c r)
    → Holds D m t Q
    → Holds E m t Q
Holds-narrow D E Q (ret a) t w h = h
Holds-narrow D E Q fault t w h = h
Holds-narrow D E Q out_of_fuel t w h = h
Holds-narrow D E Q (call c k) t w h =
    λ r e. Holds-narrow D E Q (k r) ((c, r) ∷ t) w (h r (w t c r e))

-- a program under a test
pub Holds-if :
    {A : Type 0} (D : Admits) (Q : Outcome A → Trace → Type 0) (b : Bool) (m n : Prog A) (t : Trace)
    → Holds D m t Q
    → Holds D n t Q
    → Holds D (if b then m else n) t Q
Holds-if D Q true m n t h k = h
Holds-if D Q false m n t h k = k

module _ {A B : Type 0} (D : Admits) where
  -- what is left to show of `f` once `m` has ended
  abbrev pub Rest : (A → Prog B) → (Outcome B → Trace → Type 0) → Outcome A → Trace → Type 0
  Rest f Q (done a) u = Holds D (f a) u Q
  Rest f Q faulted u = Q faulted u
  Rest f Q unfinished u = Q unfinished u

  pub Holds-bind :
      (Q : Outcome B → Trace → Type 0) (m : Prog A) (f : A → Prog B) (t : Trace)
      → Holds D m t (Rest f Q)
      → Holds D (m >>= f) t Q
  Holds-bind Q (ret a) f t h = h
  Holds-bind Q fault f t h = h
  Holds-bind Q out_of_fuel f t h = h
  Holds-bind Q (call c k) f t h = λ r d. Holds-bind Q (k r) f ((c, r) ∷ t) (h r d)

  Ends-Rest :
      (R : A → Trace → Type 0) (Q : Outcome B → Trace → Type 0) (f : A → Prog B)
      → ((a : A) (u : Trace) → R a u → Holds D (f a) u Q)
      → (o : Outcome A) (u : Trace) → Ends R o u
      → Rest f Q o u
  Ends-Rest R Q f next (done a) u h = next a u h
  Ends-Rest R Q f next faulted u h = absurd h
  Ends-Rest R Q f next unfinished u h = absurd h

  -- The rule for `m; f`: `m` ends as `R` says, and from there `f` does what is asked.
  pub Holds-then :
      (R : A → Trace → Type 0) (Q : Outcome B → Trace → Type 0) (m : Prog A) (f : A → Prog B)
      (t : Trace)
      → Holds D m t (Ends R)
      → ((a : A) (u : Trace) → R a u → Holds D (f a) u Q)
      → Holds D (m >>= f) t Q
  Holds-then R Q m f t h next = Holds-bind Q m f t (Holds-mono D m t (Ends-Rest R Q f next) h)
