-- ===== src/Ble/Check/Relay.antt =====
-- The requests to the relay that the check of src/ble_rc.c makes.
use esp32s3_szpi_sta.Base.{
  ℕ, zero, suc, ◌≡◌, refl, ap, Bool, true, false, not, List, [], ◌∷◌, ◌++◌, pos, negsuc, is_neg,
  codes,
}
use esp32s3_szpi_sta.Ble.Check.Takes.{is_outer}
use esp32s3_szpi_sta.HttpClient.{
  setup_socket, connect_socket, run_http_get_req, run_set_sk_v, set_url,
}
use esp32s3_szpi_sta.HttpClient.Sockets.{AreShort, AreShort-deliver}
use esp32s3_szpi_sta.Zephyr.Avoids.{Avoids, Holds-avoids, Holds-kept}
use esp32s3_szpi_sta.Zephyr.Calls.{Call, Answer, net, socket, connect_sock, http_client_req}
use esp32s3_szpi_sta.Zephyr.Prog.{Prog, Trace, Holds}
use esp32s3_szpi_sta.Zephyr.Partial.{IfDone, IfDone-kept}
use esp32s3_szpi_sta.Zephyr.Holds.{Admits, Holds-mono}

-- what the relay is asked for where it is to be on, and where it is to be off
abbrev pub relay_url : Bool → List ℕ
relay_url true = codes "/set?Relay=1"
relay_url false = codes "/set?Relay=0"

-- what the relay was asked for, in order
abbrev pub switches : Trace → List (List ℕ)
switches [] = []
switches ((net (http_client_req s url), r) ∷ t) = switches t ++ (url ∷ [])
switches (_ ∷ t) = switches t

-- `n` requests for on and off in turn, from `b` on
abbrev pub alternate : Bool → ℕ → List (List ℕ)
alternate b zero = []
alternate b (suc n) = relay_url b ∷ alternate (not b) n

-- the relay can be connected to, and no response fragment fills the receive buffer
abbrev pub Reaches : Admits
Reaches t (net socket) rc = is_neg rc ≡ false
Reaches t (net (connect_sock s)) rc = is_neg rc ≡ false
Reaches t (net (http_client_req s url)) r = AreShort r.responses
Reaches _ _ _ = Unit

pub set-Switches :
    (v : ℕ) (url : List ℕ) (t : Trace)
    → set_url v ≡ url
    → Holds Reaches (run_set_sk_v v) t (IfDone (λ _ u. switches u ≡ switches t ++ (url ∷ [])))
unfolding run_set_sk_v run_http_get_req connect_socket setup_socket
set-Switches v url t e = elim [
  | negsuc n ↦ λ d. absurd cc
  | pos s ↦ λ _. elim [
    | negsuc n ↦ λ d. absurd cc
    | pos n ↦ λ _ answer d.
        rw (AreShort-deliver answer.responses d) (λ _ _. ap (λ l. switches t ++ (l ∷ [])) e)
  ]
]

outer-Switches :
    (t u : Trace) (c : Call) (r : Answer c)
    → is_outer c ≡ false
    → switches u ≡ switches t
    → switches ((c, r) ∷ u) ≡ switches t
outer-Switches t u (net c) r e h = absurd cc
outer-Switches t u _ r e h = h

-- what comes between two requests asks nothing of the relay
pub inner-Switches :
    {A : Type 0} (m : Prog A) (t : Trace)
    → Avoids is_outer m
    → Holds Reaches m t (IfDone (λ a u. switches u ≡ switches t))
inner-Switches m t av =
    let J : Trace → Type 0 = λ u. switches u ≡ switches t in
    Holds-mono Reaches m t (λ o u h. IfDone-kept J o u h.1)
      (Holds-avoids is_outer Reaches Reaches J (λ o u. Unit {0}) m t (outer-Switches t)
        (λ u c r j d. d) refl av (Holds-kept Reaches (λ u. Unit {0}) m t (λ u c r d h. tt) tt))
