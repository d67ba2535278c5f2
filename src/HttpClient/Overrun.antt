-- ===== src/HttpClient/Overrun.antt =====
-- The terminating 0 of the response callback.
use esp32s3_szpi_sta.Base.{
  ℕ, ◌≤◌, ◌≡◌, refl, ◌⊎◌, List, [], ◌∷◌, pos, negsuc, arith, inl, inr, is_neg, false,
}
use esp32s3_szpi_sta.Zephyr.Calls.{Response, http_client_req, socket, connect_sock, net}
use esp32s3_szpi_sta.Zephyr.Prog.{fault, faulted, Trace, Env, run, Holds}
use esp32s3_szpi_sta.Zephyr.Holds.{Admits, Answers, run-Holds}
use esp32s3_szpi_sta.HttpClient.{
  max_recv_buf_len, setup_socket, connect_socket, response_cb, deliver, run_http_get_req,
}

abbrev pub HasFull : List Response → Type 0
HasFull [] = ⊥
HasFull (r ∷ rs) = (max_recv_buf_len ≤ r.data_len) ⊎ HasFull rs

-- the connection is made, and some fragment of the response fills the buffer
abbrev pub FullResponse : Admits
FullResponse t (net socket) s = is_neg s ≡ false
FullResponse t (net (connect_sock s)) rc = is_neg rc ≡ false
FullResponse t (net (http_client_req s url)) r = HasFull r.responses
FullResponse _ _ _ = Unit

HasFull-deliver : (rs : List Response) → HasFull rs → deliver rs ≡ fault
unfolding deliver response_cb
HasFull-deliver [] h = absurd h
HasFull-deliver (r ∷ rs) (inl full) = ground arith
HasFull-deliver (r ∷ rs) (inr later) = ground (arith, HasFull-deliver rs later)

get_overruns :
    (url : List ℕ) (t : Trace) → Holds FullResponse (run_http_get_req url) t (λ o u. o ≡ faulted)
unfolding run_http_get_req connect_socket setup_socket
get_overruns url t = elim [
  | negsuc e ↦ λ d. cc
  | pos s ↦ λ _. elim [
    | negsuc e ↦ λ d. cc
    | pos n ↦ λ _ answer d. rw (HasFull-deliver answer.responses d) refl
  ]
]

-- A request whose connection is made and whose response has a fragment that fills the buffer writes
-- outside of the buffer.
pub run_http_get_req_overruns :
    (env : Env) (url : List ℕ) (t : Trace)
    → Answers FullResponse env
    → (run env (run_http_get_req url) t).0 ≡ faulted
run_http_get_req_overruns env url t d =
    run-Holds FullResponse (λ o u. o ≡ faulted) env d _ t (get_overruns url t)
