-- ===== src/Ble/Mirror.antt =====
-- `is_adv_running` tells what the controller does, in every interleaving of the threads.
use esp32s3_szpi_sta.Base.{
  zero, suc, ◌≡◌, refl, sym, ◌∙◌, Option, none, some, ℕ, List, true, false, ◌∷◌, ℤ, pos, negsuc,
  is_zero, Bool-cases, inl, inr, ltb, ◌+◌, length,
}
use esp32s3_szpi_sta.Ble.State.{Addr, Ble}
use esp32s3_szpi_sta.Ble.Adv.{note_peer}
use esp32s3_szpi_sta.Ble.Keys.{input_ccc_changed, write_ctrl_point}
use esp32s3_szpi_sta.Ble.Radio.{advertises, InTurn, Mirrors}
use esp32s3_szpi_sta.Ble.Interleave.{System, system, Reach}
use esp32s3_szpi_sta.Ble.Threads.{Handler, Reach-Keeps}
use esp32s3_szpi_sta.Ble.Threads.Effects.{Moves, matters}
use esp32s3_szpi_sta.HttpClient.Sockets.{ShortResponses}
use esp32s3_szpi_sta.Zephyr.Calls.{Call, Answer, AdvParam, bt, adv_start, adv_stop, adv_ended}
use esp32s3_szpi_sta.Zephyr.Prog.{Trace, Env}
use esp32s3_szpi_sta.Zephyr.Holds.{Answers}

called-Mirrors :
    (b : Ble) (t : Trace) (c : Call) (r : Answer c)
    → matters c ≡ false
    → Mirrors b t
    → Mirrors b ((c, r) ∷ t)
called-Mirrors b t (bt (adv_start p id)) r e h = absurd cc
called-Mirrors b t (bt adv_stop) r e h = absurd cc
called-Mirrors b t (bt adv_ended) r e h = absurd cc
called-Mirrors b t _ r e h = h

started-Mirrors :
    (b : Ble) (t : Trace) (p : AdvParam) (id : Option ℤ) (r : ℤ)
    → b.is_adv_running ≡ false
    → is_zero r ≡ true
    → Mirrors b t
    → Mirrors (record b { is_adv_running = true }) ((bt (adv_start p id), r) ∷ t)
started-Mirrors b t p id (pos zero) off e (m, i) = (refl, (sym m ∙ off, i))
started-Mirrors b t p id (pos (suc n)) off e m = absurd cc
started-Mirrors b t p id (negsuc n) off e m = absurd cc

not_started-Mirrors :
    (b : Ble) (t : Trace) (p : AdvParam) (id : Option ℤ) (r : ℤ)
    → b.is_adv_running ≡ false
    → is_zero r ≡ false
    → Mirrors b t
    → Mirrors b ((bt (adv_start p id), r) ∷ t)
not_started-Mirrors b t p id (pos zero) off e m = absurd cc
not_started-Mirrors b t p id (pos (suc n)) off e (m, i) = (m, (sym m ∙ off, i))
not_started-Mirrors b t p id (negsuc n) off e (m, i) = (m, (sym m ∙ off, i))

stopped-Mirrors :
    (b : Ble) (t : Trace) (r : ℤ)
    → b.is_adv_running ≡ true
    → is_zero r ≡ true
    → Mirrors b t
    → Mirrors (record b { is_adv_running = false }) ((bt adv_stop, r) ∷ t)
stopped-Mirrors b t (pos zero) on e (m, i) = (refl, (sym m ∙ on, i))
stopped-Mirrors b t (pos (suc n)) on e m = absurd cc
stopped-Mirrors b t (negsuc n) on e m = absurd cc

not_stopped-Mirrors :
    (b : Ble) (t : Trace) (r : ℤ)
    → b.is_adv_running ≡ true
    → is_zero r ≡ false
    → Mirrors b t
    → Mirrors b ((bt adv_stop, r) ∷ t)
not_stopped-Mirrors b t (pos zero) on e m = absurd cc
not_stopped-Mirrors b t (pos (suc n)) on e (m, i) = (m, (sym m ∙ on, i))
not_stopped-Mirrors b t (negsuc n) on e (m, i) = (m, (sym m ∙ on, i))

noted-Mirrors :
    (dst : Option Addr) (b : Ble) (t : Trace) → Mirrors b t → Mirrors (note_peer dst b) t
unfolding note_peer
noted-Mirrors none b t h = h
noted-Mirrors (some addr) b t h = h

written-Mirrors :
    (buf : List ℕ) (offset : ℕ) (b : Ble) (t : Trace)
    → Mirrors b t
    → Mirrors (write_ctrl_point buf offset b).1 t
unfolding write_ctrl_point
written-Mirrors buf offset b t h =
    elim (Bool-cases (ltb (length b.ctrl_point) (offset + length buf))) [
      | inl far ↦ rw far h
      | inr near ↦ rw near h
    ]

Moves-Mirrors : Moves ShortResponses Mirrors
Moves-Mirrors = record {
  called = called-Mirrors;
  started = started-Mirrors;
  not_started = not_started-Mirrors;
  stopped = stopped-Mirrors;
  not_stopped = not_stopped-Mirrors;
  adv_over = λ b t (m, i). (refl, i);
  given = λ b t h. h;
  taken = λ b t h g. h;
  told = λ b t h. h;
  moded = λ w b t h. h;
  bonded = λ a b t h. h;
  linked = λ l b t h. h;
  noted = λ dst b t u d h. noted-Mirrors dst b t h;
  reported = λ key b t k h. h;
  unreported = λ b t h. h;
  allowed = λ value b t h. unfold input_ccc_changed in h;
  written = written-Mirrors;
}

-- From a state in which no thread sleeps or waits, and in which `is_adv_running` tells whether the
-- controller advertises, it does so in every reachable state, whatever the threads start, the whole
-- check thread among them, in whatever order they wake and take its semaphore, and whatever the
-- calls answer, as long as no response fragment of the relay fills the receive buffer. And the
-- firmware asks for a start only while the controller does not advertise, and for a stop only while
-- it does.
pub Reach-Mirrors :
    (env : Env) (b : Ble) (t : Trace) (s : System)
    → Answers ShortResponses env
    → Mirrors b t
    → Reach Handler env (system b t) s
    → (s.ble.is_adv_running ≡ advertises s.trace) × InTurn s.trace
Reach-Mirrors env b t s d m r =
    Reach-Keeps ShortResponses Mirrors Moves-Mirrors (λ u c a e. e) d m r
