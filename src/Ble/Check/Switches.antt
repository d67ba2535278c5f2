-- ===== src/Ble/Check/Switches.antt =====
-- What the check of src/ble_rc.c asks of the relay.
use esp32s3_szpi_sta.Base.{
  ℕ, zero, suc, ◌≡◌, ◌⊎◌, inl, inr, refl, sym, ap, ◌∙◌, Bool, true, false, List, [], ◌∷◌, ◌++◌, ℤ,
  append_assoc, append-nil, ◌+◌, ◌<◌,
}
use esp32s3_szpi_sta.Ble.State.{Ble}
use esp32s3_szpi_sta.Ble.Adv.{try_advertising_start}
use esp32s3_szpi_sta.Ble.Check.{
  bt_ck_k_sleep, wait_rc_connected, wait_rc_connected_loop, unless_stopped, looper_3_round, looper,
  bt_ck_looper_3,
}
use esp32s3_szpi_sta.Ble.Check.Relay.{
  relay_url, switches, alternate, Reaches, set-Switches, inner-Switches,
}
use esp32s3_szpi_sta.Ble.Check.Takes.{is_outer, sleep-Avoids, try_start-Avoids, wait_loop-Avoids}
use esp32s3_szpi_sta.Ble.Check.Stop.{StopsBy}
use esp32s3_szpi_sta.Ble.Check.Looper.{StopsAndFits, IsStopped, check-Stops}
use esp32s3_szpi_sta.HttpClient.{run_set_sk_v, set_url}
use esp32s3_szpi_sta.HttpClient.Sockets.{ShortResponses}
use esp32s3_szpi_sta.Zephyr.Avoids.{Avoids, Avoids-bind}
use esp32s3_szpi_sta.Zephyr.Calls.{Call, Answer, net, http_client_req}
use esp32s3_szpi_sta.Zephyr.Prog.{Prog, ret, Outcome, Trace, Env, run, Holds, ◌>>=◌}
use esp32s3_szpi_sta.Zephyr.Partial.{IfDone, IfDone-then, IfDone-weaken, Ends-IfDone, Holds-test}
use esp32s3_szpi_sta.Zephyr.Holds.{
  Admits, Answers, Ends, run-Holds, Holds-mono, Holds-both, Holds-narrow,
}

abbrev off_url : List ℕ
off_url = relay_url false

abbrev on_url : List ℕ
on_url = relay_url true

-- a round has switched off and on, or only off, and is told to stop
abbrev IsSwitched : Trace → Ble → Trace → Type 0
IsSwitched t b u =
    (switches u ≡ switches t ++ (off_url ∷ on_url ∷ []))
    ⊎ ((b.bt_ck_running ≡ false) × (switches u ≡ switches t ++ (off_url ∷ [])))

-- a step between two requests, and the rest of the round
step-IsSwitched :
    (t u : Trace) (asked : List (List ℕ)) (m : Prog Ble) (rest : Ble → Prog Ble)
    → Avoids is_outer m
    → switches u ≡ switches t ++ asked
    → ((later : Ble) (v : Trace)
        → later.bt_ck_running ≡ false
        → switches v ≡ switches t ++ asked
        → IsSwitched t later v)
    → ((later : Ble) (v : Trace)
        → switches v ≡ switches t ++ asked
        → Holds Reaches (rest later) v (IfDone (IsSwitched t)))
    → Holds Reaches (unless_stopped m rest) u (IfDone (IsSwitched t))
step-IsSwitched t u asked m rest av e stopped next =
    IfDone-then Reaches (λ a v. switches v ≡ switches u) (IsSwitched t) m _ u
      (inner-Switches m u av)
      λ later v same.
        Holds-test Reaches (IfDone (IsSwitched t)) later.bt_ck_running (rest later) (ret later) v
          (λ on. next later v (same ∙ e)) (λ off. stopped later v off (same ∙ e))

round-IsSwitched :
    (time : ℤ) (fuel : ℕ) (b : Ble) (t : Trace)
    → Holds Reaches (looper_3_round time fuel b) t (IfDone (IsSwitched t))
unfolding looper_3_round wait_rc_connected set_url
round-IsSwitched time fuel b t =
    let both : List (List ℕ) = off_url ∷ on_url ∷ [] in
    IfDone-then Reaches (λ _ u. switches u ≡ switches t ++ (off_url ∷ [])) (IsSwitched t)
      (run_set_sk_v 0) _ t (set-Switches 0 off_url t refl)
      λ _ u e.
        step-IsSwitched t u (off_url ∷ []) (bt_ck_k_sleep 5 b) _ (sleep-Avoids 5 b) e
          (λ later v off e'. inr (off, e'))
          λ off v e'.
            IfDone-then Reaches (λ _ w. switches w ≡ switches v ++ (on_url ∷ [])) (IsSwitched t)
              (run_set_sk_v 1) _ v (set-Switches 1 on_url v refl)
              λ _ w e1.
                step-IsSwitched t w both (bt_ck_k_sleep 5 off) _ (sleep-Avoids 5 off)
                  (e1
                    ∙ ap (λ l. l ++ (on_url ∷ [])) e'
                    ∙ append_assoc (switches t) (off_url ∷ []) (on_url ∷ []))
                  (λ later x o e2. inl e2)
                  λ on x e2.
                    IfDone-then Reaches (λ a y. switches y ≡ switches x) (IsSwitched t)
                      (try_advertising_start true time on) _ x
                      (inner-Switches (try_advertising_start true time on) x
                        (try_start-Avoids true time on))
                      λ woken y e3.
                        step-IsSwitched t y both
                          (wait_rc_connected_loop time fuel 1 woken >>= λ r. ret r.1) _
                          (Avoids-bind is_outer (wait_rc_connected_loop time fuel 1 woken) _
                            (wait_loop-Avoids time fuel 1 woken) (λ r. tt))
                          (e3 ∙ e2) (λ later z o e4. inl e4)
                          λ back z e4.
                            IfDone-weaken Reaches (λ a z'. switches z' ≡ switches z) (IsSwitched t)
                              (bt_ck_k_sleep 30 back) z (λ a z' same. inl (same ∙ e4))
                              (inner-Switches (bt_ck_k_sleep 30 back) z (sleep-Avoids 30 back))

-- the test of the flag
looper-test :
    (round : ℕ → Ble → Prog Ble) (fuel : ℕ) (b : Ble) (running : Bool) (t : Trace)
    (Q : Outcome Ble → Trace → Type 0)
    → (running ≡ true → Holds Reaches (round fuel b >>= looper round fuel) t Q)
    → (running ≡ false → Holds Reaches (ret b) t Q)
    → Holds Reaches (elim running [ true ↦ round fuel b >>= looper round fuel | false ↦ ret b ]) t Q
looper-test round fuel b true t Q h k = h refl
looper-test round fuel b false t Q h k = k refl

-- the requests of some rounds: off and on in turn, the first of them off
abbrev pub Alternates : Trace → Ble → Trace → Type 0
Alternates t b u = (n : ℕ) × (switches u ≡ switches t ++ alternate false n)

-- at least one of them
abbrev pub AlternatesOnce : Trace → Ble → Trace → Type 0
AlternatesOnce t b u = (n : ℕ) × (switches u ≡ switches t ++ alternate false (suc n))

-- the rounds behind one
behind-round :
    (time : ℤ) (fuel : ℕ) (later : Ble) (t u : Trace)
    → IsSwitched t later u
    → Holds Reaches (looper (looper_3_round time) fuel later) u (IfDone (Alternates u))
    → Holds Reaches (looper (looper_3_round time) fuel later) u (IfDone (AlternatesOnce t))
unfolding looper
behind-round time fuel later t u (inl both) h =
    IfDone-weaken Reaches (Alternates u) (AlternatesOnce t)
      (looper (looper_3_round time) fuel later) u
      (λ b v (n, e). (
        suc n,
        e
            ∙ ap (λ l. l ++ alternate false n) both
            ∙ append_assoc (switches t) (off_url ∷ on_url ∷ []) (alternate false n),
      ))
      h
behind-round time zero later t u (inr (off, one)) h = tt
behind-round time (suc fuel) later t u (inr (off, one)) h =
    looper-test (looper_3_round time) fuel later later.bt_ck_running u (IfDone (AlternatesOnce t))
      (λ on. absurd cc) (λ o. (0, one))

looper-Alternates :
    (time : ℤ) (fuel : ℕ) (b : Ble) (t : Trace)
    → Holds Reaches (looper (looper_3_round time) fuel b) t (IfDone (Alternates t))
unfolding looper
looper-Alternates time zero b t = tt
looper-Alternates time (suc fuel) b t =
    looper-test (looper_3_round time) fuel b b.bt_ck_running t (IfDone (Alternates t))
      (λ on.
        IfDone-then Reaches (IsSwitched t) (Alternates t) (looper_3_round time fuel b) _ t
          (round-IsSwitched time fuel b t)
          λ later u sw.
            IfDone-weaken Reaches (AlternatesOnce t) (Alternates t)
              (looper (looper_3_round time) fuel later) u (λ b' v (n, e). (suc n, e))
              (behind-round time fuel later t u sw (looper-Alternates time fuel later u)))
      (λ off. (0, sym (append-nil (switches t))))

check-Alternates :
    (time : ℤ) (fuel : ℕ) (b : Ble) (t : Trace)
    → Holds Reaches (bt_ck_looper_3 time fuel b) t (IfDone (AlternatesOnce t))
unfolding bt_ck_looper_3 looper
check-Alternates time zero b t = tt
check-Alternates time (suc fuel) b t =
    let b' : Ble = record b { bt_ck_running = true } in
    IfDone-then Reaches (IsSwitched t) (AlternatesOnce t) (looper_3_round time fuel b') _ t
      (round-IsSwitched time fuel b' t)
      λ later u sw. behind-round time fuel later t u sw (looper-Alternates time fuel later u)

-- the relay can be reached, and `auto_reboot_stop` is given by the deadline
abbrev pub ReachesAndStops : ℕ → Admits
ReachesAndStops deadline t c r = StopsBy deadline t c r × Reaches t c r

Reaches-ShortResponses :
    (t : Trace) (c : Call) (r : Answer c) → Reaches t c r → ShortResponses t c r
Reaches-ShortResponses t (net (http_client_req s url)) r d = d
Reaches-ShortResponses t _ r d = tt

pub check-StopsAndAlternates :
    (deadline fuel : ℕ) (time : ℤ) (b : Ble) (t : Trace)
    → deadline + 1 < fuel
    → Holds
        (ReachesAndStops deadline)
        (bt_ck_looper_3 time fuel b)
        t
        (Ends (λ later v. IsStopped later v × AlternatesOnce t later v))
check-StopsAndAlternates deadline fuel time b t f =
    let m = bt_ck_looper_3 time fuel b in
    let E = ReachesAndStops deadline in
    Holds-mono E m t (Ends-IfDone IsStopped (AlternatesOnce t)) (
      Holds-both E (Ends IsStopped) (IfDone (AlternatesOnce t)) m t
        (Holds-narrow (StopsAndFits deadline) E (Ends IsStopped) m t
          (λ u c r e. (e.0, Reaches-ShortResponses u c r e.1))
          (check-Stops deadline time fuel b t f))
        (Holds-narrow Reaches E (IfDone (AlternatesOnce t)) m t (λ u c r e. e.1)
          (check-Alternates time fuel b t)))

-- The check switches the television off and on in turn. Where the relay can be reached, no response
-- fragment of it fills the receive buffer, and the command to stop is given by the time that the
-- thread has slept `deadline` milliseconds and stays given, a run of the check ends, told to stop,
-- and what it has asked of the relay is /set?Relay=0 and /set?Relay=1 in turn, and nothing else, the
-- first of it /set?Relay=0, at least once.
-- The fuel is more than the deadline and one.
pub bt_ck_looper_3-Alternates :
    (env : Env) (deadline fuel : ℕ) (wakeup_time_s : ℤ) (b : Ble) (t : Trace)
    → deadline + 1 < fuel
    → Answers (ReachesAndStops deadline) env
    → let (o, u) = run env (bt_ck_looper_3 wakeup_time_s fuel b) t in
      Ends (λ later v. IsStopped later v × AlternatesOnce t later v) o u
bt_ck_looper_3-Alternates env deadline fuel time b t f d =
    run-Holds (ReachesAndStops deadline)
      (Ends (λ later v. IsStopped later v × AlternatesOnce t later v)) env d
      (bt_ck_looper_3 time fuel b) t (check-StopsAndAlternates deadline fuel time b t f)
