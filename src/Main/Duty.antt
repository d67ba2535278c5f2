-- ===== src/Main/Duty.antt =====
-- What a thread still has to do for the events: nothing, to write to the eventfd, or to empty the
-- list. A program follows this if it takes up and gives up its duty with the calls below.
use esp32s3_szpi_sta.Base.{◌≡◌, refl, none}
use esp32s3_szpi_sta.Zephyr.Calls.{
  KernelCall, BtCall, sleep, wait, Call, Answer, fs, flash, boot, psa, kernel, bt, net, posix,
  slist, wifi, disk, append, get, eventfd_write, eventfd_read, poll,
}
use esp32s3_szpi_sta.Zephyr.Prog.{Prog, ret, fault, out_of_fuel, call, ◌>>=◌}

pub data Duty : Type 0 where
  idle owing draining : Duty

-- Whether a thread with that duty may make the call; it sleeps and waits only without one.
abbrev pub May : Duty → Call → Type 0
May d (slist (append msg)) = d ≡ idle
May d (slist get) = d ≡ draining
May d (posix (eventfd_write fd)) = d ≡ owing
May d (posix (eventfd_read fd)) = d ≡ idle
May d (posix (poll fds b)) = d ≡ idle
May d (kernel (sleep ms)) = d ≡ idle
May d (bt (wait ms b)) = d ≡ idle
May d _ = Unit

-- the duty behind the call
abbrev pub behind : Duty → (c : Call) → Answer c → Duty
behind d (slist (append msg)) r = owing
behind d (slist get) none = idle
behind d (posix (eventfd_write fd)) r = idle
behind d (posix (eventfd_read fd)) r = draining
behind d _ _ = d

module _ {A : Type 0} where
  -- A thread that ends has no duty left.
  abbrev pub Follows : Duty → Prog A → Type 0
  Follows d (ret a) = d ≡ idle
  Follows d fault = Unit
  Follows d out_of_fuel = Unit
  Follows d (call c k) = May d c × ((r : Answer c) → Follows (behind d c r) (k r))

  -- no call that has to do with the events
  abbrev pub IsApart : Prog A → Type 0
  IsApart (ret a) = Unit
  IsApart fault = Unit
  IsApart out_of_fuel = Unit
  IsApart (call (slist c) k) = ⊥
  IsApart (call (posix c) k) = ⊥
  IsApart (call c k) = (r : Answer c) → IsApart (k r)

-- Without a duty a thread may make each of these calls.
May-kernel : (c : KernelCall) → May idle (kernel c)
May-kernel (sleep ms) = refl
May-kernel _ = tt

May-bt : (c : BtCall) → May idle (bt c)
May-bt (wait ms b) = refl
May-bt _ = tt

module _ {A B : Type 0} where
  pub IsApart-Follows :
      (m : Prog A) (f : A → Prog B)
      → IsApart m
      → ((a : A) → Follows idle (f a))
      → Follows idle (m >>= f)
  IsApart-Follows (ret a) f h next = next a
  IsApart-Follows fault f h next = tt
  IsApart-Follows out_of_fuel f h next = tt
  IsApart-Follows (call (slist c) k) f h next = absurd h
  IsApart-Follows (call (posix c) k) f h next = absurd h
  IsApart-Follows (call (fs c) k) f h next = (tt, λ r. IsApart-Follows (k r) f (h r) next)
  IsApart-Follows (call (flash c) k) f h next = (tt, λ r. IsApart-Follows (k r) f (h r) next)
  IsApart-Follows (call (boot c) k) f h next = (tt, λ r. IsApart-Follows (k r) f (h r) next)
  IsApart-Follows (call (psa c) k) f h next = (tt, λ r. IsApart-Follows (k r) f (h r) next)
  IsApart-Follows (call (kernel c) k) f h next =
      (May-kernel c, λ r. IsApart-Follows (k r) f (h r) next)
  IsApart-Follows (call (bt c) k) f h next = (May-bt c, λ r. IsApart-Follows (k r) f (h r) next)
  IsApart-Follows (call (net c) k) f h next = (tt, λ r. IsApart-Follows (k r) f (h r) next)
  IsApart-Follows (call (wifi c) k) f h next = (tt, λ r. IsApart-Follows (k r) f (h r) next)
  IsApart-Follows (call (disk c) k) f h next = (tt, λ r. IsApart-Follows (k r) f (h r) next)

  pub IsApart-bind :
      (m : Prog A) (f : A → Prog B) → IsApart m → ((a : A) → IsApart (f a)) → IsApart (m >>= f)
  IsApart-bind (ret a) f h next = next a
  IsApart-bind fault f h next = tt
  IsApart-bind out_of_fuel f h next = tt
  IsApart-bind (call (slist c) k) f h next = absurd h
  IsApart-bind (call (posix c) k) f h next = absurd h
  IsApart-bind (call (fs c) k) f h next = λ r. IsApart-bind (k r) f (h r) next
  IsApart-bind (call (flash c) k) f h next = λ r. IsApart-bind (k r) f (h r) next
  IsApart-bind (call (boot c) k) f h next = λ r. IsApart-bind (k r) f (h r) next
  IsApart-bind (call (psa c) k) f h next = λ r. IsApart-bind (k r) f (h r) next
  IsApart-bind (call (kernel c) k) f h next = λ r. IsApart-bind (k r) f (h r) next
  IsApart-bind (call (bt c) k) f h next = λ r. IsApart-bind (k r) f (h r) next
  IsApart-bind (call (net c) k) f h next = λ r. IsApart-bind (k r) f (h r) next
  IsApart-bind (call (wifi c) k) f h next = λ r. IsApart-bind (k r) f (h r) next
  IsApart-bind (call (disk c) k) f h next = λ r. IsApart-bind (k r) f (h r) next

  pub Follows-bind :
      (d : Duty) (m : Prog A) (f : A → Prog B)
      → Follows d m
      → ((a : A) → Follows idle (f a))
      → Follows d (m >>= f)
  Follows-bind d (ret a) f h next = rw h (next a)
  Follows-bind d fault f h next = tt
  Follows-bind d out_of_fuel f h next = tt
  Follows-bind d (call c k) f (may, h) next =
      (may, λ r. Follows-bind (behind d c r) (k r) f (h r) next)
