-- ===== src/Zephyr/Avoids.antt =====
-- Programs that make none of some calls, and what stays true over their runs.
use esp32s3_szpi_sta.Base.{Bool, true, false, ◌∷◌, ◌≡◌, if◌then◌else◌}
use esp32s3_szpi_sta.Zephyr.Calls.{Call, Answer, bt}
use esp32s3_szpi_sta.Zephyr.Prog.{Prog, ret, fault, out_of_fuel, call, ◌>>=◌, Outcome, Trace, Holds}
use esp32s3_szpi_sta.Zephyr.Holds.{Admits}

-- the calls of Bluetooth and of the BLE part's waits
abbrev pub is_bt : Call → Bool
is_bt (bt c) = true
is_bt _ = false

module _ {A : Type 0} where
  -- no call of the program is one that `chosen` tells
  abbrev pub Avoids : (Call → Bool) → Prog A → Type 0
  Avoids chosen (ret a) = Unit
  Avoids chosen fault = Unit
  Avoids chosen out_of_fuel = Unit
  Avoids chosen (call c k) = (chosen c ≡ false) × ((r : Answer c) → Avoids chosen (k r))

  -- a program under a test
  pub Avoids-if :
      (chosen : Call → Bool) (b : Bool) (m n : Prog A)
      → Avoids chosen m
      → Avoids chosen n
      → Avoids chosen (if b then m else n)
  Avoids-if chosen true m n h k = h
  Avoids-if chosen false m n h k = k

  pub Avoids-weaken :
      (chosen chosen' : Call → Bool) (m : Prog A)
      → ((c : Call) → chosen c ≡ false → chosen' c ≡ false)
      → Avoids chosen m
      → Avoids chosen' m
  Avoids-weaken chosen chosen' (ret a) w h = tt
  Avoids-weaken chosen chosen' fault w h = tt
  Avoids-weaken chosen chosen' out_of_fuel w h = tt
  Avoids-weaken chosen chosen' (call c k) w h =
      (w c h.0, λ r. Avoids-weaken chosen chosen' (k r) w (h.1 r))

  -- What the chosen calls alone can change stays over a program that makes none of them, and what
  -- the answers promise may depend on it.
  pub Holds-avoids :
      (chosen : Call → Bool) (D E : Admits) (J : Trace → Type 0) (Q : Outcome A → Trace → Type 0)
      (m : Prog A) (t : Trace)
      → ((u : Trace) (c : Call) (r : Answer c) → chosen c ≡ false → J u → J ((c, r) ∷ u))
      → ((u : Trace) (c : Call) (r : Answer c) → J u → E u c r → D u c r)
      → J t
      → Avoids chosen m
      → Holds D m t Q
      → Holds E m t (λ o u. Q o u × J u)
  Holds-avoids chosen D E J Q (ret a) t keeps narrow j av h = (h, j)
  Holds-avoids chosen D E J Q fault t keeps narrow j av h = (h, j)
  Holds-avoids chosen D E J Q out_of_fuel t keeps narrow j av h = (h, j)
  Holds-avoids chosen D E J Q (call c k) t keeps narrow j av h = λ r e.
      Holds-avoids chosen D E J Q (k r) ((c, r) ∷ t) keeps narrow (keeps t c r av.0 j) (av.1 r)
        (h r (narrow t c r j e))

  -- what every answer keeps
  pub Holds-kept :
      (E : Admits) (J : Trace → Type 0) (m : Prog A) (t : Trace)
      → ((u : Trace) (c : Call) (r : Answer c) → E u c r → J u → J ((c, r) ∷ u))
      → J t
      → Holds E m t (λ o u. J u)
  Holds-kept E J (ret a) t keeps j = j
  Holds-kept E J fault t keeps j = j
  Holds-kept E J out_of_fuel t keeps j = j
  Holds-kept E J (call c k) t keeps j =
      λ r e. Holds-kept E J (k r) ((c, r) ∷ t) keeps (keeps t c r e j)

pub Avoids-bind :
    {A B : Type 0} (chosen : Call → Bool) (m : Prog A) (f : A → Prog B)
    → Avoids chosen m
    → ((a : A) → Avoids chosen (f a))
    → Avoids chosen (m >>= f)
Avoids-bind chosen (ret a) f h k = k a
Avoids-bind chosen fault f h k = tt
Avoids-bind chosen out_of_fuel f h k = tt
Avoids-bind chosen (call c k') f h k = (h.0, λ r. Avoids-bind chosen (k' r) f (h.1 r) k)
