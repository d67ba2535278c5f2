-- ===== src/Wscli/Sockets.antt =====
-- The sockets that `wscli_init` opens and `wscli_fini` closes.
use esp32s3_szpi_sta.Base.{
  ℕ, zero, suc, ◌≡◌, refl, ap, ◌∙◌, true, List, [], ◌∷◌, ◌++◌, ℤ, pos, negsuc, is_neg, append_assoc,
}
use esp32s3_szpi_sta.Zephyr.Prog.{◌>>=◌, Trace, Env, run, Holds}
use esp32s3_szpi_sta.Zephyr.Holds.{Any, any, Ends, run-Holds, Holds-then}
use esp32s3_szpi_sta.Zephyr.Usage.{unclosed, remove, remove_first}
use esp32s3_szpi_sta.Wscli.{
  Wscli, ws_setup_socket, ws_connect_socket, wscli_init, close_open, wscli_fini,
}

-- the descriptors that a state holds
abbrev pub fds : ℤ → List ℕ
fds (pos n) = n ∷ []
fds (negsuc e) = []

abbrev pub held : Wscli → List ℕ
held s = fds s.websock4 ++ fds s.sock4

-- The descriptors open are those that `s` holds, and those that were open at `t`.
abbrev pub IsTracked : Trace → Wscli → Trace → Type 0
IsTracked t s u = unclosed u ≡ held s ++ unclosed t

is_neg-fds : (fd : ℤ) → is_neg fd ≡ true → fds fd ≡ []
is_neg-fds (pos n) h = absurd cc
is_neg-fds (negsuc e) h = refl

init-IsTracked :
    (s : Wscli) (t : Trace)
    → is_neg s.websock4 ≡ true
    → Holds Any (wscli_init true s) t (Ends (λ r. IsTracked t r.1))
unfolding wscli_init ws_connect_socket ws_setup_socket
init-IsTracked s t h =
    let none_held : fds s.websock4 ≡ [] = is_neg-fds s.websock4 h in
    elim [
      | negsuc e ↦ λ _. rw none_held refl
      | pos n ↦ λ _. elim [
        | negsuc e ↦ λ _. rw none_held refl
        | pos (suc rc) ↦ λ _. rw none_held refl
        | pos zero ↦
            λ _. elim [ negsuc e ↦ λ _ _ _. remove_first n (unclosed t) | pos w ↦ λ _. refl ]
      ]
    ]

-- a descriptor that is open is closed, and the others stay open
abbrev IsShut : List ℕ → ℤ → Trace → Type 0
IsShut others fd' u = (unclosed u ≡ others) × (fds fd' ≡ [])

close_open-IsShut :
    (fd : ℤ) (others : List ℕ) (t : Trace)
    → unclosed t ≡ fds fd ++ others
    → Holds Any (close_open fd) t (Ends (IsShut others))
unfolding close_open
close_open-IsShut (pos n) others t e = λ _ _. (ap (remove n) e ∙ remove_first n others, refl)
close_open-IsShut (negsuc k) others t e = (e, refl)

fini-IsTracked :
    (s : Wscli) (t u : Trace)
    → IsTracked t s u
    → Holds Any (wscli_fini s) u (Ends (λ r v. IsTracked t r.1 v × (held r.1 ≡ [])))
unfolding wscli_fini
fini-IsTracked s t u h =
    let others = fds s.sock4 ++ unclosed t in
    Holds-then Any (IsShut others) (Ends (λ r v. IsTracked t r.1 v × (held r.1 ≡ [])))
      (close_open s.websock4) _ u
      (close_open-IsShut s.websock4 others u
        (h ∙ append_assoc (fds s.websock4) (fds s.sock4) (unclosed t)))
      (λ web v (o, n).
        Holds-then Any (IsShut (unclosed t)) (Ends (λ r v'. IsTracked t r.1 v' × (held r.1 ≡ [])))
          (close_open s.sock4) _ v (close_open-IsShut s.sock4 (unclosed t) v o)
          (λ sock v' (o', n'). (rw (n, n') o', rw (n, n') refl)))

-- Where the state holds no WebSocket, `wscli_init` and then `wscli_fini` end, whatever the network
-- does, and hold nothing afterwards; the descriptors that are open then are those that were open
-- before. So they have closed each one that they obtained, and no other, and a socket that the state
-- held before is not closed.
pub init-fini-IsTracked :
    (env : Env) (s : Wscli) (t : Trace)
    → is_neg s.websock4 ≡ true
    → let (o, u) = run env (wscli_init true s >>= λ r. wscli_fini r.1) t in
      Ends (λ r v. IsTracked t r.1 v × (held r.1 ≡ [])) o u
init-fini-IsTracked env s t h =
    run-Holds Any (Ends (λ r v. IsTracked t r.1 v × (held r.1 ≡ []))) env (any env) _ t (
      Holds-then Any (λ r. IsTracked t r.1) (Ends (λ r v. IsTracked t r.1 v × (held r.1 ≡ [])))
        (wscli_init true s) (λ r. wscli_fini r.1) t (init-IsTracked s t h)
        (λ r u k. fini-IsTracked r.1 t u k))
