-- ===== src/HttpClient/Sockets.antt =====
-- Every request closes the socket that it opened.
use esp32s3_szpi_sta.Base.{ℕ, ◌<◌, ◌≡◌, refl, List, [], ◌∷◌, pos, negsuc, arith}
use esp32s3_szpi_sta.Zephyr.Calls.{Response, http_client_req, net}
use esp32s3_szpi_sta.Zephyr.Prog.{ret, Trace, Env, run, Holds}
use esp32s3_szpi_sta.Zephyr.Holds.{Admits, Answers, Ends, run-Holds, Holds-then}
use esp32s3_szpi_sta.Zephyr.Usage.{unclosed, remove_first}
use esp32s3_szpi_sta.HttpClient.{
  max_recv_buf_len, setup_socket, connect_socket, response_cb, deliver, run_http_get_req,
  run_set_sk_v, run_queries, set_url,
}

-- no fragment fills the receive buffer
abbrev pub AreShort : List Response → Type 0
AreShort [] = Unit
AreShort (r ∷ rs) = (r.data_len < max_recv_buf_len) × AreShort rs

abbrev pub ShortResponses : Admits
ShortResponses t (net (http_client_req s url)) r = AreShort r.responses
ShortResponses _ _ _ = Unit

pub AreShort-deliver : (rs : List Response) → AreShort rs → deliver rs ≡ ret tt
unfolding deliver response_cb
AreShort-deliver [] h = refl
AreShort-deliver (r ∷ rs) (h, hs) = ground (arith, AreShort-deliver rs hs)

-- the descriptors that are open are those that were open
abbrev pub IsClosed : Trace → Trace → Type 0
IsClosed t u = unclosed u ≡ unclosed t

get-IsClosed :
    (url : List ℕ) (t : Trace)
    → Holds ShortResponses (run_http_get_req url) t (Ends (λ rc. IsClosed t))
unfolding run_http_get_req connect_socket setup_socket
get-IsClosed url t = elim [
  | negsuc e ↦ λ _. refl
  | pos s ↦ λ _. elim [
    | negsuc e ↦ λ _ _ _ e' _. remove_first s (unclosed t)
    | pos n ↦
        λ _ answer d. rw (AreShort-deliver answer.responses d) (λ _ _. remove_first s (unclosed t))
  ]
]

pub set-IsClosed :
    (v : ℕ) (t : Trace)
    → Holds ShortResponses (run_set_sk_v v) t (Ends (λ rc u. (rc ≡ pos 0) × IsClosed t u))
unfolding run_set_sk_v
set-IsClosed v t =
    Holds-then ShortResponses (λ rc. IsClosed t) _ (run_http_get_req (set_url v)) (λ _. ret (pos 0))
      t (get-IsClosed (set_url v) t) (λ rc u h. (refl, h))

queries-IsClosed : (t : Trace) → Holds ShortResponses run_queries t (Ends (λ rc. IsClosed t))
unfolding run_queries connect_socket setup_socket
queries-IsClosed t = elim [
  | negsuc e ↦ λ _. refl
  | pos s ↦ λ _. elim [
    | negsuc e ↦ λ _ _ _ e' _. remove_first s (unclosed t)
    | pos n ↦
        λ _ answer d. rw (AreShort-deliver answer.responses d) (λ _ _. remove_first s (unclosed t))
  ]
]

-- Where no response fragment fills the 512 bytes of the receive buffer, setting the relay ends with
-- the result 0, whether the connection or the request failed or not, and it and `run_queries` close
-- the descriptor of every socket that they open, and no other, on every path.
pub requests-IsClosed :
    (env : Env) (v : ℕ) (t : Trace)
    → Answers ShortResponses env
    → (let (o, u) = run env (run_set_sk_v v) t in Ends (λ rc w. (rc ≡ pos 0) × IsClosed t w) o u)
      × (let (o, u) = run env run_queries t in Ends (λ rc. IsClosed t) o u)
requests-IsClosed env v t d = (
  run-Holds ShortResponses (Ends (λ rc w. (rc ≡ pos 0) × IsClosed t w)) env d _ t
      (set-IsClosed v t),
  run-Holds ShortResponses (Ends (λ rc. IsClosed t)) env d _ t (queries-IsClosed t),
)
