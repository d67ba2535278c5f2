-- ===== src/Ble/Threads/Looper.antt =====
-- The whole check thread of src/ble_rc.c, its sleeps and its waits for the semaphore between the other
-- threads, keeps every invariant that its calls and assignments keep.
use esp32s3_szpi_sta.Base.{
  ℕ, zero, suc, ◌+◌, ◌%◌, ◌≡◌, refl, inl, inr, Bool, true, false, ℤ, ◌==◌, if◌then◌else◌,
  Bool-cases,
}
use esp32s3_szpi_sta.Ble.State.{Ble}
use esp32s3_szpi_sta.Ble.Adv.{try_advertising_start}
use esp32s3_szpi_sta.Ble.Check.{
  bt_ck_k_sleep, is_security_lv_ok, wait_rc_connected, wait_rc_connected_loop, unless_stopped,
  looper_3_round, looper, bt_ck_looper_3, bt_ck_looper_thrd,
}
use esp32s3_szpi_sta.Ble.Interleave.{Keeps}
use esp32s3_szpi_sta.Ble.Interleave.Safety.{WakesSafely, Keeps-then, Keeps-apart}
use esp32s3_szpi_sta.Ble.Threads.Adverts.{try_start-Keeps}
use esp32s3_szpi_sta.Ble.Threads.Effects.{Moves, matters}
use esp32s3_szpi_sta.HttpClient.{run_set_sk_v}
use esp32s3_szpi_sta.HttpClient.Sockets.{ShortResponses, set-IsClosed}
use esp32s3_szpi_sta.HttpClient.Apart.{set_sk_v-Avoids}
use esp32s3_szpi_sta.Zephyr.Calls.{Call, Answer, bt}
use esp32s3_szpi_sta.Zephyr.Avoids.{is_bt}
use esp32s3_szpi_sta.Zephyr.Holds.{Admits, Ends, Holds-weaken, Holds-narrow}
use esp32s3_szpi_sta.Zephyr.Prog.{Prog, ret, ◌>>=◌, bind_assoc, Trace}

apart_calm : (c : Call) → is_bt c ≡ false → matters c ≡ false
apart_calm (bt c) e = absurd cc
apart_calm _ e = refl

-- for answers under which no response fragment of the relay fills its buffer
module _ {D : Admits} {P : Ble → Trace → Type 0} (M : Moves D P)
    (short : (u : Trace) (c : Call) (r : Answer c) → D u c r → ShortResponses u c r) where
  -- a program that keeps it, whatever the state that it starts from
  abbrev AlwaysKeeps : (Ble → Prog Ble) → Type 0
  AlwaysKeeps = WakesSafely D P

  abbrev KeepsIt : Prog Ble → Trace → Type 0
  KeepsIt = Keeps D P

  sleep-Keeps : (time_s : ℕ) → AlwaysKeeps (bt_ck_k_sleep time_s)
  unfolding bt_ck_k_sleep
  sleep-Keeps zero b t m = (m, λ b' t' m'. m')
  sleep-Keeps (suc n) b t m = (
    m,
    λ b' t' m'. elim (Bool-cases b'.bt_ck_running) [
      | inl on ↦ simp (on) (sleep-Keeps n b' t' m')
      | inr off ↦ simp (off) m'
    ],
  )

  if-Keeps :
      (c : Bool) (m n : Prog Ble) (t : Trace)
      → KeepsIt m t
      → KeepsIt n t
      → KeepsIt (if c then m else n) t
  if-Keeps true m n t h k = h
  if-Keeps false m n t h k = k

  -- a step of a round, and the rest
  step-Keeps :
      (m : Prog Ble) (rest : Ble → Prog Ble) (t : Trace)
      → KeepsIt m t
      → AlwaysKeeps rest
      → KeepsIt (unless_stopped m rest) t
  step-Keeps m rest t h k =
      Keeps-then D P m _ t h
        λ later u n. if-Keeps later.bt_ck_running (rest later) (ret later) u (k later u n) n

  -- a switch of the relay, and the rest
  set-Keeps :
      (v : ℕ) (rest : Prog Ble) (b : Ble) (t : Trace)
      → P b t
      → ((u : Trace) → P b u → KeepsIt rest u)
      → KeepsIt (run_set_sk_v v >>= λ _. rest) t
  set-Keeps v rest b t m k =
      Keeps-apart D P (run_set_sk_v v) (λ _. rest) b t
        (λ u c r e. M.called b u c r (apart_calm c e)) (set_sk_v-Avoids v)
        (Holds-narrow ShortResponses D (Ends (λ a u. Unit {0})) (run_set_sk_v v) t short (
          Holds-weaken ShortResponses _ (λ a u. Unit {0}) (run_set_sk_v v) t (λ a u h. tt)
            (set-IsClosed v t)))
        m (λ a u n. k u n)

  wait_loop-Keeps :
      (time : ℤ) (fuel cnt : ℕ) (f : Bool × Ble → Prog Ble)
      → ((r : Bool × Ble) (u : Trace) → P r.1 u → KeepsIt (f r) u)
      → AlwaysKeeps (λ b. wait_rc_connected_loop time fuel cnt b >>= f)
  unfolding wait_rc_connected_loop
  wait_loop-Keeps time zero cnt f k b t m = tt
  wait_loop-Keeps time (suc fuel) cnt f k b t m = elim (Bool-cases (is_security_lv_ok b.btrc_st)) [
    | inl e ↦ rw e (k (true, b) t m)
    | inr e ↦ rw e (
        rw (bind_assoc (if cnt % 30 == 0 then try_advertising_start true time b else ret b)) (
          Keeps-then D P (if cnt % 30 == 0 then try_advertising_start true time b else ret b) _ t
            (if-Keeps (cnt % 30 == 0) _ (ret b) t (try_start-Keeps M true time b t m) m)
            λ woken u n. rw (bind_assoc (bt_ck_k_sleep 1 woken)) (
              Keeps-then D P (bt_ck_k_sleep 1 woken) _ u (sleep-Keeps 1 woken u n) λ later v n'.
                elim (Bool-cases later.bt_ck_running) [
                  | inl on ↦ simp (on) (wait_loop-Keeps time fuel (cnt + 1) f k later v n')
                  | inr off ↦ simp (off) (k (false, later) v n')
                ])))
  ]

  round-Keeps : (time : ℤ) (fuel : ℕ) → AlwaysKeeps (looper_3_round time fuel)
  unfolding looper_3_round wait_rc_connected
  round-Keeps time fuel b t m = set-Keeps 0 _ b t m λ u n.
      step-Keeps (bt_ck_k_sleep 5 b) _ u (sleep-Keeps 5 b u n) λ off v n1.
        set-Keeps 1 _ off v n1 λ w n2.
          step-Keeps (bt_ck_k_sleep 5 off) _ w (sleep-Keeps 5 off w n2) λ on x n3.
            Keeps-then D P (try_advertising_start true time on) _ x
              (try_start-Keeps M true time on x n3)
              λ woken y n4.
                step-Keeps (wait_rc_connected time fuel woken >>= λ r. ret r.1) _ y
                  (wait_loop-Keeps time fuel 1 (λ r. ret r.1) (λ r z p. p) woken y n4)
                  (sleep-Keeps 30)

  -- the test of the flag
  test-Keeps :
      (running : Bool) (more : Prog Ble) (b : Ble) (t : Trace)
      → P b t
      → KeepsIt more t
      → KeepsIt (elim running [ true ↦ more | false ↦ ret b ]) t
  test-Keeps true more b t m h = h
  test-Keeps false more b t m h = m

  looper-Keeps : (time : ℤ) (fuel : ℕ) → AlwaysKeeps (looper (looper_3_round time) fuel)
  unfolding looper
  looper-Keeps time zero b t m = tt
  looper-Keeps time (suc fuel) b t m =
      test-Keeps b.bt_ck_running (looper_3_round time fuel b >>= looper (looper_3_round time) fuel)
        b t m
        (Keeps-then D P (looper_3_round time fuel b) _ t (round-Keeps time fuel b t m)
          (looper-Keeps time fuel))

  pub thrd-Keeps : (time : ℤ) (fuel rounds : ℕ) → AlwaysKeeps (bt_ck_looper_thrd time fuel rounds)
  unfolding bt_ck_looper_thrd bt_ck_looper_3
  thrd-Keeps time fuel zero b t m = m
  thrd-Keeps time fuel (suc rounds) b t m = (
    m,
    λ b' t' m' given.
        Keeps-then D P (bt_ck_looper_3 time fuel b') _ _
          (looper-Keeps time fuel (record b' { bt_ck_running = true }) _ (M.taken b' t' m' given))
          (thrd-Keeps time fuel rounds),
  )
