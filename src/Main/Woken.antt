-- ===== src/Main/Woken.antt =====
-- Threads that follow their duties leave no event behind.
use mathlib.Core.Path.{subst}
use esp32s3_szpi_sta.Base.{
  ℕ, ◌<◌, ◌≡◌, ◌≢◌, refl, sym, ap, ◌⊎◌, inl, inr, false, none, some, List, [], ◌∷◌, ◌++◌, pos,
  negsuc, is_neg, arith,
}
use esp32s3_szpi_sta.Main.Message.{EvtMsg}
use esp32s3_szpi_sta.Main.Queue.{queued, counter}
use esp32s3_szpi_sta.Main.Threads.{
  Thread, Threads, with_threads, Step, begins, calls, Reach, here, next,
}
use esp32s3_szpi_sta.Main.Duty.{Duty, idle, owing, draining, May, behind, Follows}
use esp32s3_szpi_sta.Zephyr.Calls.{
  sleep, wait, Call, Answer, fs, flash, boot, psa, kernel, bt, net, posix, slist, wifi, disk,
  append, get, eventfd, eventfd_write, eventfd_read, poll,
}
use esp32s3_szpi_sta.Zephyr.Prog.{ret, fault, out_of_fuel, call, Trace}
use esp32s3_szpi_sta.Zephyr.Holds.{Admits}

-- The list gives its first message, and none only if it is empty; the eventfd has the descriptor
-- `fd`, and a write to it succeeds.
abbrev pub KeepsEvents : ℕ → Admits
KeepsEvents fd t (posix eventfd) rc = rc ≡ pos fd
KeepsEvents _ t (slist get) none = queued t ≡ []
KeepsEvents _ t (slist get) (some msg) = (rest : List EvtMsg) × (queued t ≡ msg ∷ rest)
KeepsEvents _ t (posix (eventfd_write fd)) rc = is_neg rc ≡ false
KeepsEvents _ _ _ _ = Unit

-- each thread follows its duty
abbrev Obey : List Duty → List Thread → Type 0
Obey [] [] = Unit
Obey (d ∷ ds) (p ∷ ps) = Follows d p × Obey ds ps
Obey _ _ = ⊥

-- some thread has a duty
abbrev IsBusy : List Duty → Type 0
IsBusy [] = ⊥
IsBusy (d ∷ ds) = (d ≢ idle) ⊎ IsBusy ds

-- no event waits, or the eventfd is set, or some thread sees to it
abbrev IsAwake : List Duty → Trace → Type 0
IsAwake ds t = (queued t ≡ []) ⊎ (0 < counter t) ⊎ IsBusy ds

abbrev IsSafe : Threads → Type 0
IsSafe s = (ds : List Duty) × Obey ds s.threads × IsAwake ds s.trace

-- the duties of the threads in front of one, its own, and those behind
abbrev Around : List Duty → List Thread → Thread → List Thread → Type 0
Around ds front p back =
    (df : List Duty) × (d : Duty) × (db : List Duty) × (ds ≡ df ++ (d ∷ db))
    × Obey df front
    × Follows d p
    × Obey db back

Obey-at :
    (ds : List Duty) (front : List Thread) (p : Thread) (back : List Thread)
    → Obey ds (front ++ (p ∷ back))
    → Around ds front p back
Obey-at [] [] p back o = absurd o
Obey-at [] (q ∷ front) p back o = absurd o
Obey-at (d ∷ ds) [] p back (f, o) = ([], d, ds, refl, tt, f, o)
Obey-at (d ∷ ds) (q ∷ front) p back (f, o) =
    let (df, d', db, e, of, fp, ob) = Obey-at ds front p back o in
    (d ∷ df, d', db, ap (λ xs. d ∷ xs) e, (f, of), fp, ob)

Obey-join :
    (df : List Duty) (d : Duty) (db : List Duty) (front : List Thread) (p : Thread)
    (back : List Thread)
    → Obey df front
    → Follows d p
    → Obey db back
    → Obey (df ++ (d ∷ db)) (front ++ (p ∷ back))
Obey-join [] d db [] p back of fp ob = (fp, ob)
Obey-join [] d db (q ∷ front) p back of fp ob = absurd of
Obey-join (d' ∷ df) d db [] p back of fp ob = absurd of
Obey-join (d' ∷ df) d db (q ∷ front) p back (f, of) fp ob =
    (f, Obey-join df d db front p back of fp ob)

IsBusy-at : (df : List Duty) (d : Duty) (db : List Duty) → d ≢ idle → IsBusy (df ++ (d ∷ db))
IsBusy-at [] d db n = inl n
IsBusy-at (d' ∷ df) d db n = inr (IsBusy-at df d db n)

-- A call of the thread with the duty `d` keeps the events seen to.
call-IsAwake :
    (fd : ℕ) (df : List Duty) (d : Duty) (db : List Duty) (t : Trace) (c : Call) (r : Answer c)
    → May d c
    → KeepsEvents fd t c r
    → IsAwake (df ++ (d ∷ db)) t
    → IsAwake (df ++ (behind d c r ∷ db)) ((c, r) ∷ t)
call-IsAwake fd df d db t (slist (append msg)) r m k a = inr (inr (IsBusy-at df owing db (λ e. cc)))
call-IsAwake fd df d db t (slist get) none m k a = inl k
call-IsAwake fd df d db t (slist get) (some msg) m k a = inr (inr (IsBusy-at df d db (λ e. cc)))
call-IsAwake fd df d db t (posix (eventfd_write ev)) (pos n) m k a = inr (inl (omega arith))
call-IsAwake fd df d db t (posix (eventfd_write ev)) (negsuc n) m k a = absurd cc
call-IsAwake fd df d db t (posix (eventfd_read ev)) r m k a =
    inr (inr (IsBusy-at df draining db (λ e. cc)))
call-IsAwake fd df d db t (posix (poll fds b)) r m k a = a
call-IsAwake fd df d db t (posix eventfd) r m k a = a
call-IsAwake fd df d db t (fs c) r m k a = a
call-IsAwake fd df d db t (flash c) r m k a = a
call-IsAwake fd df d db t (boot c) r m k a = a
call-IsAwake fd df d db t (psa c) r m k a = a
call-IsAwake fd df d db t (kernel c) r m k a = a
call-IsAwake fd df d db t (bt c) r m k a = a
call-IsAwake fd df d db t (net c) r m k a = a
call-IsAwake fd df d db t (wifi c) r m k a = a
call-IsAwake fd df d db t (disk c) r m k a = a

-- a thread that has ended, that sleeps, or that waits in `poll`
abbrev pub IsQuiet : Thread → Type 0
IsQuiet (ret a) = Unit
IsQuiet (call (posix (poll fds b)) k) = Unit
IsQuiet (call (kernel (sleep ms)) k) = Unit
IsQuiet (call (bt (wait ms b)) k) = Unit
IsQuiet _ = ⊥

abbrev pub AreQuiet : List Thread → Type 0
AreQuiet [] = Unit
AreQuiet (p ∷ ps) = IsQuiet p × AreQuiet ps

IsQuiet-idle : (p : Thread) (d : Duty) → IsQuiet p → Follows d p → d ≡ idle
IsQuiet-idle (ret a) d q f = f
IsQuiet-idle fault d q f = absurd q
IsQuiet-idle out_of_fuel d q f = absurd q
IsQuiet-idle (call (posix (poll fds b)) k) d q f = f.0
IsQuiet-idle (call (posix eventfd) k) d q f = absurd q
IsQuiet-idle (call (posix (eventfd_write fd)) k) d q f = absurd q
IsQuiet-idle (call (posix (eventfd_read fd)) k) d q f = absurd q
IsQuiet-idle (call (fs c) k) d q f = absurd q
IsQuiet-idle (call (flash c) k) d q f = absurd q
IsQuiet-idle (call (boot c) k) d q f = absurd q
IsQuiet-idle (call (psa c) k) d q f = absurd q
IsQuiet-idle (call (kernel (sleep ms)) k) d q f = f.0
IsQuiet-idle (call (kernel c) k) d q f = absurd q
IsQuiet-idle (call (bt (wait ms b)) k) d q f = f.0
IsQuiet-idle (call (bt c) k) d q f = absurd q
IsQuiet-idle (call (net c) k) d q f = absurd q
IsQuiet-idle (call (slist c) k) d q f = absurd q
IsQuiet-idle (call (wifi c) k) d q f = absurd q
IsQuiet-idle (call (disk c) k) d q f = absurd q

AreQuiet-not-IsBusy : (ds : List Duty) (ps : List Thread) → AreQuiet ps → Obey ds ps → ¬ IsBusy ds
AreQuiet-not-IsBusy [] ps q o b = b
AreQuiet-not-IsBusy (d ∷ ds) [] q o b = o
AreQuiet-not-IsBusy (d ∷ ds) (p ∷ ps) (q, qs) (f, o) (inl n) = n (IsQuiet-idle p d q f)
AreQuiet-not-IsBusy (d ∷ ds) (p ∷ ps) (q, qs) (f, o) (inr b) = AreQuiet-not-IsBusy ds ps qs o b

IsAwake-more : (d : Duty) (ds : List Duty) (t : Trace) → IsAwake ds t → IsAwake (d ∷ ds) t
IsAwake-more d ds t (inl e) = inl e
IsAwake-more d ds t (inr (inl c)) = inr (inl c)
IsAwake-more d ds t (inr (inr b)) = inr (inr (inr b))

module _ (fd : ℕ) (Starts : Thread → Type 0)
    (dutiful : (p : Thread) → Starts p → Follows idle p) where
  Step-IsSafe : {s s' : Threads} → Step (KeepsEvents fd) Starts s s' → IsSafe s → IsSafe s'
  Step-IsSafe {s} (begins p h e) (ds, o, a) =
      rw e (idle ∷ ds, (dutiful p h, o), IsAwake-more idle ds s.trace a)
  Step-IsSafe {s} (calls front back c k r e d e') (ds, o, a) =
      let o' : Obey ds (front ++ (call c k ∷ back)) = subst (λ l. Obey ds l) e o in
      let (df, d', db, eq, of, (may, f), ob) = Obey-at ds front (call c k) back o' in
      let a' : IsAwake (df ++ (d' ∷ db)) s.trace = subst (λ l. IsAwake l s.trace) eq a in
      subst IsSafe (sym e') (
        df ++ (behind d' c r ∷ db),
        Obey-join df (behind d' c r) db front (k r) back of (f r) ob,
        call-IsAwake fd df d' db s.trace c r may d a',
      )

  Reach-IsSafe : {s s' : Threads} → Reach (KeepsEvents fd) Starts s s' → IsSafe s → IsSafe s'
  Reach-IsSafe here safe = safe
  Reach-IsSafe (next r st) safe = Step-IsSafe st (Reach-IsSafe r safe)

  -- what waits when all threads are quiet is announced
  pub Reach-woken :
      (s : Threads)
      → Reach (KeepsEvents fd) Starts (with_threads [] []) s
      → AreQuiet s.threads
      → (queued s.trace ≡ []) ⊎ (0 < counter s.trace)
  Reach-woken s r q =
      let (ds, o, a) = Reach-IsSafe r ([], tt, inl refl) in
      elim a [
        | inl e ↦ inl e
        | inr (inl c) ↦ inr c
        | inr (inr b) ↦ absurd (AreQuiet-not-IsBusy ds s.threads q o b)
      ]
