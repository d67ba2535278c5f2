-- ===== src/Main/Threads.antt =====
-- Threads that share the list of events and the eventfd. A thread is a program, and a step of the
-- system is one call of one thread: the list is locked for each of its operations, so that such a
-- call is whole, and any other thread may make the next one.
use esp32s3_szpi_sta.Base.{◌≡◌, List, ◌∷◌, ◌++◌}
use esp32s3_szpi_sta.Zephyr.Calls.{Answer}
use esp32s3_szpi_sta.Zephyr.Prog.{Prog, call, Trace}
use esp32s3_szpi_sta.Zephyr.Holds.{Admits}

-- its result is of no interest
abbrev pub Thread : Type 0
Thread = Prog (Unit {0})

pub record Threads : Type 0 where
  pub trace : Trace
  pub threads : List Thread

abbrev pub with_threads : Trace → List Thread → Threads
with_threads t l = record { trace = t; threads = l }

-- A thread is started, or a thread makes its next call, with an answer that `D` admits.
pub data Step (D : Admits) (Starts : Thread → Type 0) (s s' : Threads) : Type 0 where
  begins : (p : Thread) → Starts p → s' ≡ with_threads s.trace (p ∷ s.threads) → Step D Starts s s'
  calls :
      (front back : List Thread) (c : _) (k : Answer c → Thread) (r : Answer c)
      → s.threads ≡ front ++ (call c k ∷ back)
      → D s.trace c r
      → s' ≡ with_threads ((c, r) ∷ s.trace) (front ++ (k r ∷ back))
      → Step D Starts s s'

pub data Reach (D : Admits) (Starts : Thread → Type 0) (s : Threads) : Threads → Type 0 where
  here : Reach D Starts s s
  next : {s' u : Threads} → Reach D Starts s s' → Step D Starts s' u → Reach D Starts s u
