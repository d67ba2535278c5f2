-- ===== src/Wscli/Recv.antt =====
-- How `wscli_recv` ends, and where it does not.
use esp32s3_szpi_sta.Base.{
  ℕ, zero, suc, ◌-◌, ◌≤◌, ◌<◌, ◌≡◌, refl, ◌⊎◌, inl, inr, true, false, List, [], ◌∷◌, ℤ, pos, negsuc,
  length, ltb, ltb→lt, ltb→ge, Bool-cases, arith,
}
use esp32s3_szpi_sta.Zephyr.Calls.{failed, got, recv, errno, net}
use esp32s3_szpi_sta.Zephyr.Prog.{Prog, Trace, Env, unfinished, run, Holds}
use esp32s3_szpi_sta.Zephyr.Holds.{Admits, Answers, Ends, run-Holds}
use esp32s3_szpi_sta.Wscli.{is_retried, retry, wscli_recv}

-- the times that `errno` has been read
abbrev pub errors : Trace → ℕ
errors [] = 0
errors ((net errno, e) ∷ t) = suc (errors t)
errors (_ ∷ t) = errors t

-- `recv` gives no more than there is room for, and `errno` asks for another try only until it has
-- been read `patience` times
abbrev pub RetriesUpTo : ℕ → Admits
RetriesUpTo patience t (net (recv s n)) (got bs) = length bs ≤ n
RetriesUpTo patience t (net errno) e = patience ≤ errors t → is_retried e ≡ false
RetriesUpTo _ _ _ _ = Unit

-- the result for a buffer of that size: -1 and nothing, or the bytes received and their number
abbrev pub IsReceived : ℕ → ℤ × List ℕ → Type 0
IsReceived buf_len (rc, bytes) =
    ((rc ≡ negsuc 0) × (bytes ≡ []))
    ⊎ ((rc ≡ pos (length bytes)) × (0 < length bytes) × (length bytes ≤ buf_len))

retry-IsReceived :
    (patience : ℕ) (again : Prog (ℤ × List ℕ)) (buf_len : ℕ) (t : Trace)
    → ((u : Trace)
        → errors u ≡ suc (errors t)
        → errors t < patience
        → Holds (RetriesUpTo patience) again u (Ends (λ r u. IsReceived buf_len r)))
    → Holds (RetriesUpTo patience) (retry again) t (Ends (λ r u. IsReceived buf_len r))
unfolding retry
retry-IsReceived patience again buf_len t next = λ e d. elim (Bool-cases (is_retried e)) [
  | inl retried ↦ elim (Bool-cases (ltb (errors t) patience)) [
    | inl some ↦ rw retried (λ _ _. next _ refl (ltb→lt _ _ some))
    | inr spent ↦ absurd (let no_more = d (ltb→ge _ _ spent) in cc)
  ]
  | inr given_up ↦ rw given_up (inl (refl, refl))
]

recv-IsReceived :
    (patience fuel : ℕ) (sock : ℤ) (buf_len : ℕ) (t : Trace)
    → patience - errors t < fuel
    → Holds
        (RetriesUpTo patience)
        (wscli_recv fuel sock buf_len)
        t
        (Ends (λ r u. IsReceived buf_len r))
unfolding wscli_recv
recv-IsReceived patience zero sock buf_len t f = absurd (omega arith)
recv-IsReceived patience (suc fuel) sock buf_len t f =
    let again = λ (u : Trace) (e : errors u ≡ suc (errors t)) (l : errors t < patience).
      recv-IsReceived patience fuel sock buf_len u (omega arith) in
    elim [
      | failed e ↦ λ _. retry-IsReceived patience (wscli_recv fuel sock buf_len) buf_len _ again
      | got [] ↦ λ _. retry-IsReceived patience (wscli_recv fuel sock buf_len) buf_len _ again
      | got (b ∷ bs) ↦ λ d. inr (refl, omega arith, d)
    ]

-- Where `recv` keeps to the room in the buffer, and `errno` asks for another try at most `patience`
-- times, more fuel than that is enough: `wscli_recv` gives -1 and no byte, or the number of the bytes
-- received, which is not 0 and no more than the buffer takes.
pub wscli_recv-IsReceived :
    (env : Env) (patience fuel : ℕ) (sock : ℤ) (buf_len : ℕ)
    → patience < fuel
    → Answers (RetriesUpTo patience) env
    → let (o, u) = run env (wscli_recv fuel sock buf_len) [] in
      Ends (λ r u. IsReceived buf_len r) o u
wscli_recv-IsReceived env patience fuel sock buf_len f d =
    run-Holds (RetriesUpTo patience) (Ends (λ r u. IsReceived buf_len r)) env d _ []
      (recv-IsReceived patience fuel sock buf_len [] (omega arith))

-- the peer has closed the connection, and `errno` still has a timeout of an earlier call
abbrev pub IsShutDown : Admits
IsShutDown t (net (recv s n)) r = r ≡ got []
IsShutDown t (net errno) e = is_retried e ≡ true
IsShutDown _ _ _ = Unit

IsShutDown-unfinished :
    (fuel : ℕ) (sock : ℤ) (buf_len : ℕ) (t : Trace)
    → Holds IsShutDown (wscli_recv fuel sock buf_len) t (λ o u. o ≡ unfinished)
unfolding wscli_recv retry
IsShutDown-unfinished zero sock buf_len t = refl
IsShutDown-unfinished (suc fuel) sock buf_len t = elim [
  | failed e ↦ λ d. absurd cc
  | got [] ↦ λ _ e d. rw d (λ _ _. IsShutDown-unfinished fuel sock buf_len _)
  | got (b ∷ bs) ↦ λ d. absurd cc
]

-- A connection that the peer has closed, on which `recv` gives 0 and does not touch `errno`, is asked
-- for bytes for ever where `errno` is EAGAIN or ETIMEDOUT from before, whatever the fuel.
pub wscli_recv-never_ends :
    (env : Env) (fuel : ℕ) (sock : ℤ) (buf_len : ℕ) (t : Trace)
    → Answers IsShutDown env
    → (run env (wscli_recv fuel sock buf_len) t).0 ≡ unfinished
wscli_recv-never_ends env fuel sock buf_len t d =
    run-Holds IsShutDown (λ o u. o ≡ unfinished) env d _ t
      (IsShutDown-unfinished fuel sock buf_len t)
