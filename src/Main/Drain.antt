-- ===== src/Main/Drain.antt =====
-- `evt_handle` empties the list.
use mathlib.Core.Path.{subst}
use esp32s3_szpi_sta.Base.{
  ℕ, zero, suc, ◌<◌, ◌≡◌, refl, sym, ap, ◌∙◌, Option, none, some, List, [], ◌∷◌, ◌++◌, length, drop,
  arith, append_assoc, append-nil,
}
use esp32s3_szpi_sta.Main.Apart.{handle-IsPlain}
use esp32s3_szpi_sta.Main.Handle.{Config, MainState, handle_event, evt_handle}
use esp32s3_szpi_sta.Main.Message.{EvtMsg}
use esp32s3_szpi_sta.Main.Plain.{taken, run-IsPlain, resume, run-bind}
use esp32s3_szpi_sta.Main.Queue.{queued}
use esp32s3_szpi_sta.Main.Woken.{KeepsEvents}
use esp32s3_szpi_sta.Zephyr.Calls.{get, slist, free, kernel}
use esp32s3_szpi_sta.Zephyr.Prog.{Prog, ret, Outcome, done, ◌>>=◌, ◌>>◌, ask, Trace, Env, run}
use esp32s3_szpi_sta.Zephyr.Holds.{Answers, Ends, Ends-mono}

-- Each of the messages is taken, handled and freed, and then the list is found empty.
abbrev pub handle_all : Config → List EvtMsg → MainState → Prog MainState
handle_all cfg [] m = do ask (slist get); ret m
handle_all cfg (msg ∷ msgs) m = do
  ask (slist get)
  later ← handle_event cfg msg m
  ask (kernel free)
  handle_all cfg msgs later

-- the list is empty, and has given these messages
abbrev pub IsDrained : List EvtMsg → Trace → MainState → Trace → Type 0
IsDrained msgs t m u = (queued u ≡ []) × (taken u ≡ taken t ++ msgs)

-- a run that is another one, and ends with the list empty
abbrev Drains : List EvtMsg → Trace → Outcome MainState × Trace → Outcome MainState × Trace → Type 0
Drains msgs t (o, u) q = ((o, u) ≡ q) × Ends (IsDrained msgs t) o u

Drains-via :
    (msgs : List EvtMsg) (t : Trace) {p p' q q' : Outcome MainState × Trace}
    → p ≡ p'
    → q ≡ q'
    → Drains msgs t p' q'
    → Drains msgs t p q
Drains-via msgs t {p' = p'} {q = q} e f h =
    subst (λ x. Drains msgs t x q) (sym e) (subst (λ x. Drains msgs t p' x) (sym f) h)

-- a plain program in front of another
run-then :
    {A B : Type 0} (env : Env) (m : Prog A) (f : A → Prog B) (t u : Trace) (a : A)
    → run env m t ≡ (done a, u)
    → run env (m >>= f) t ≡ run env (f a) u
run-then env m f t u a e = run-bind env m f t ∙ ap (resume env f) e

-- the messages behind the first are drained from where it has been freed
IsDrained-cons :
    (msg : EvtMsg) (msgs : List EvtMsg) (t u : Trace) (m : MainState) (v : Trace)
    → taken u ≡ taken t ++ (msg ∷ [])
    → IsDrained msgs u m v
    → IsDrained (msg ∷ msgs) t m v
IsDrained-cons msg msgs t u m v e (q, h) =
    (q, h ∙ ap (λ l. l ++ msgs) e ∙ append_assoc (taken t) (msg ∷ []) msgs)

-- what `evt_handle` and `handle_all` do behind a handled message
abbrev behind_one : Prog MainState → Prog MainState
behind_one next = do ask (kernel free); next

-- a message taken, handled and freed, and what comes behind it
drain-one :
    (env : Env) (cfg : Config) (msg : EvtMsg) (msgs : List EvtMsg) (m : MainState) (t : Trace)
    (p q : MainState → Prog MainState)
    → queued t ≡ msg ∷ msgs
    → ((a : MainState) (u : Trace)
        → queued u ≡ msgs
        → Drains msgs u (run env (p a) u) (run env (q a) u))
    → let t' : Trace = (slist get, some msg) ∷ t in
      Drains
        (msg ∷ msgs)
        t
        (run env (handle_event cfg msg m >>= λ a. behind_one (p a)) t')
        (run env (handle_event cfg msg m >>= λ a. behind_one (q a)) t')
unfolding run
drain-one env cfg msg msgs m t p q e again =
    let t' : Trace = (slist get, some msg) ∷ t in
    let (a, u, h, qe, te) =
      run-IsPlain env (handle_event cfg msg m) t' (handle-IsPlain cfg msg m) in
    let u' : Trace = (kernel free, env u (kernel free)) ∷ u in
    let (same_run, ends) = again a u' (qe ∙ ap (drop 1) e) in
    Drains-via (msg ∷ msgs) t
      (run-then env (handle_event cfg msg m) (λ a. behind_one (p a)) t' u a h)
      (run-then env (handle_event cfg msg m) (λ a. behind_one (q a)) t' u a h)
      (
        same_run,
        Ends-mono (IsDrained msgs u') (IsDrained (msg ∷ msgs) t)
            (λ m' v. IsDrained-cons msg msgs t u' m' v te) _ _ ends,
      )

-- the answer of the list, and what `evt_handle` and `handle_all` do with it
drain-node :
    (env : Env) (fd : ℕ) (cfg : Config) (msgs : List EvtMsg) (m : MainState) (t : Trace)
    (p : MainState → Prog MainState)
    → queued t ≡ msgs
    → (node : Option EvtMsg) → KeepsEvents fd t (slist get) node
    → ((msg : EvtMsg) (later : List EvtMsg)
        → msgs ≡ msg ∷ later
        → (a : MainState) (u : Trace) → queued u ≡ later
        → Drains later u (run env (p a) u) (run env (handle_all cfg later a) u))
    → Drains msgs t
        (run env
          (elim node [ none ↦ ret m | some msg ↦ handle_event cfg msg m >>= λ a. behind_one (p a) ])
          ((slist get, node) ∷ t))
        (run env
          (elim msgs [
            | [] ↦ ret m
            | msg ∷ later ↦ handle_event cfg msg m >>= λ a. behind_one (handle_all cfg later a)
          ])
          ((slist get, node) ∷ t))
unfolding run
drain-node env fd cfg [] m t p q none k again = (refl, (q, sym (append-nil (taken t))))
drain-node env fd cfg (msg ∷ msgs) m t p q none k again = absurd cc
drain-node env fd cfg [] m t p q (some msg) (rest, k) again = absurd cc
drain-node env fd cfg (msg ∷ msgs) m t p q (some msg') (rest, k) again =
    let same_msg : msg' ≡ msg = cc in
    rw same_msg (drain-one env cfg msg msgs m t p (handle_all cfg msgs) q (again msg msgs refl))

drain :
    (env : Env) (fd : ℕ) (cfg : Config)
    → Answers (KeepsEvents fd) env
    → (fuel : ℕ) (msgs : List EvtMsg) (m : MainState) (t : Trace) → queued t ≡ msgs
    → length msgs < fuel
    → Drains msgs t (run env (evt_handle fuel cfg m) t) (run env (handle_all cfg msgs m) t)
unfolding run evt_handle
drain env fd cfg d zero msgs m t q f = absurd (omega arith)
drain env fd cfg d (suc fuel) [] m t q f =
    drain-node env fd cfg [] m t (evt_handle fuel cfg) q (env t (slist get)) (d t (slist get))
      (λ msg later e. absurd cc)
drain env fd cfg d (suc fuel) (msg ∷ msgs) m t q f =
    drain-node env fd cfg (msg ∷ msgs) m t (evt_handle fuel cfg) q (env t (slist get))
      (d t (slist get))
      (λ msg' later e a u e'.
        drain env fd cfg d fuel later a u e' (let l : later ≡ msgs = cc in rw l (omega (arith, f))))

-- Where the list gives its messages in their order, and the fuel is more than their number,
-- `evt_handle` returns: its run is that in which each of the messages that wait, from the first to
-- the last, is taken, handled and freed, and behind it the list is empty.
pub evt_handle-drains :
    (env : Env) (fd : ℕ) (cfg : Config) (fuel : ℕ) (m : MainState) (t : Trace)
    → Answers (KeepsEvents fd) env
    → length (queued t) < fuel
    → let (o, u) = run env (evt_handle fuel cfg m) t in
      ((o, u) ≡ run env (handle_all cfg (queued t) m) t) × Ends (IsDrained (queued t) t) o u
evt_handle-drains env fd cfg fuel m t d f = drain env fd cfg d fuel (queued t) m t refl f
