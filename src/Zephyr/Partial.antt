-- ===== src/Zephyr/Partial.antt =====
-- Properties of the results of those runs that give one.
use esp32s3_szpi_sta.Base.{Bool, true, false, ◌≡◌, refl, if◌then◌else◌}
use esp32s3_szpi_sta.Zephyr.Prog.{Prog, Outcome, done, faulted, unfinished, Trace, Holds, ◌>>=◌}
use esp32s3_szpi_sta.Zephyr.Holds.{Admits, Ends, Holds-mono, Holds-bind, Rest}

-- a result, if there is one, is as `R` says
abbrev pub IfDone : {A : Type 0} → (A → Trace → Type 0) → Outcome A → Trace → Type 0
IfDone R (done a) u = R a u
IfDone R faulted u = Unit
IfDone R unfinished u = Unit

pub IfDone-kept :
    {A : Type 0} (J : Trace → Type 0) (o : Outcome A) (u : Trace) → J u → IfDone (λ a. J) o u
IfDone-kept J (done a) u h = h
IfDone-kept J faulted u h = tt
IfDone-kept J unfinished u h = tt

-- where there is a result, what is known of it
pub Ends-IfDone :
    {A : Type 0} (R S : A → Trace → Type 0) (o : Outcome A) (u : Trace)
    → Ends R o u × IfDone S o u
    → Ends (λ a v. R a v × S a v) o u
Ends-IfDone R S (done a) u h = h
Ends-IfDone R S faulted u h = h.0
Ends-IfDone R S unfinished u h = h.0

IfDone-mono :
    {A : Type 0} (R S : A → Trace → Type 0)
    → ((a : A) (u : Trace) → R a u → S a u)
    → (o : Outcome A) (u : Trace) → IfDone R o u
    → IfDone S o u
IfDone-mono R S w (done a) u h = w a u h
IfDone-mono R S w faulted u h = tt
IfDone-mono R S w unfinished u h = tt

pub IfDone-weaken :
    {A : Type 0} (D : Admits) (R S : A → Trace → Type 0) (m : Prog A) (t : Trace)
    → ((a : A) (u : Trace) → R a u → S a u)
    → Holds D m t (IfDone R)
    → Holds D m t (IfDone S)
IfDone-weaken D R S m t w h = Holds-mono D m t (IfDone-mono R S w) h

module _ {A B : Type 0} (D : Admits) where
  IfDone-Rest :
      (R : A → Trace → Type 0) (S : B → Trace → Type 0) (f : A → Prog B)
      → ((a : A) (u : Trace) → R a u → Holds D (f a) u (IfDone S))
      → (o : Outcome A) (u : Trace) → IfDone R o u
      → Rest D f (IfDone S) o u
  IfDone-Rest R S f next (done a) u h = next a u h
  IfDone-Rest R S f next faulted u h = tt
  IfDone-Rest R S f next unfinished u h = tt

  -- The rule for `m; f`, as that of `Holds`.
  pub IfDone-then :
      (R : A → Trace → Type 0) (S : B → Trace → Type 0) (m : Prog A) (f : A → Prog B) (t : Trace)
      → Holds D m t (IfDone R)
      → ((a : A) (u : Trace) → R a u → Holds D (f a) u (IfDone S))
      → Holds D (m >>= f) t (IfDone S)
  IfDone-then R S m f t h next =
      Holds-bind D (IfDone S) m f t (Holds-mono D m t (IfDone-Rest R S f next) h)

-- a program under a test, whose result both branches know
pub Holds-test :
    {A : Type 0} (D : Admits) (Q : Outcome A → Trace → Type 0) (b : Bool) (m n : Prog A) (t : Trace)
    → (b ≡ true → Holds D m t Q)
    → (b ≡ false → Holds D n t Q)
    → Holds D (if b then m else n) t Q
Holds-test D Q true m n t h k = h refl
Holds-test D Q false m n t h k = k refl
