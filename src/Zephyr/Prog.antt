-- ===== src/Zephyr/Prog.antt =====
-- C functions as programs over the calls of `Calls`: a small monad whose only effect is a call.
-- `run` evaluates one against an environment, which answers each call from what was called before.
use mathlib.Core.Path.{fun_ext}
use esp32s3_szpi_sta.Base.{List, ◌∷◌, ◌≡◌, refl, ap}
use esp32s3_szpi_sta.Zephyr.Calls.{Call, Answer}

pub data Prog (A : Type 0) : Type 0 where
  ret : A → Prog A
  fault : Prog A  -- undefined behaviour, such as a read through a null pointer
  out_of_fuel : Prog A
  call : (c : Call) → (Answer c → Prog A) → Prog A

pub data Outcome (A : Type 0) : Type 0 where
  done : A → Outcome A
  faulted : Outcome A
  unfinished : Outcome A

-- the calls made so far with their answers, the newest first
abbrev pub Event : Type 0
Event = (c : Call) × Answer c

abbrev pub Trace : Type 0
Trace = List Event

abbrev pub Env : Type 0
Env = Trace → (c : Call) → Answer c

infixl 5 ◌>>=◌ ◌>>◌
abbrev pub ◌>>=◌ : {A B : Type 0} → Prog A → (A → Prog B) → Prog B
ret a >>= f = f a
fault >>= f = fault
out_of_fuel >>= f = out_of_fuel
call c k >>= f = call c (λ r. k r >>= f)

abbrev pub ◌>>◌ : {A B : Type 0} → Prog A → Prog B → Prog B
m >> n = m >>= λ _. n

abbrev pub ask : (c : Call) → Prog (Answer c)
ask c = call c ret

module _ {A : Type 0} where
  unfoldable pub run : Env → Prog A → Trace → Outcome A × Trace
  run env (ret a) t = (done a, t)
  run env fault t = (faulted, t)
  run env out_of_fuel t = (unfinished, t)
  run env (call c k) t = let r = env t c in run env (k r) ((c, r) ∷ t)

  -- every run of a program from a trace ends as `Q` says, whatever the answers that `D` admits
  abbrev pub Holds :
      (Trace → (c : Call) → Answer c → Type 0)
      → Prog A
      → Trace
      → (Outcome A → Trace → Type 0)
      → Type 0
  Holds D (ret a) t Q = Q (done a) t
  Holds D fault t Q = Q faulted t
  Holds D out_of_fuel t Q = Q unfinished t
  Holds D (call c k) t Q = (r : Answer c) → D t c r → Holds D (k r) ((c, r) ∷ t) Q

pub bind-ret : {A : Type 0} (m : Prog A) → (m >>= ret) ≡ m
bind-ret (ret a) = refl
bind-ret fault = refl
bind-ret out_of_fuel = refl
bind-ret (call c k) = ap (call c) (fun_ext λ r. bind-ret (k r))

pub bind_assoc :
    {A B C : Type 0} (m : Prog A) (f : A → Prog B) (g : B → Prog C)
    → (m >>= f >>= g) ≡ (m >>= λ a. f a >>= g)
bind_assoc (ret a) f g = refl
bind_assoc fault f g = refl
bind_assoc out_of_fuel f g = refl
bind_assoc (call c k) f g = ap (call c) (fun_ext λ r. bind_assoc (k r) f g)
