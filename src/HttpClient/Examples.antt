-- ===== src/HttpClient/Examples.antt =====
-- Requests against concrete servers.
use esp32s3_szpi_sta.Base.{ℕ, ◌≡◌, refl, [], ◌∷◌, pos, false, true, codes, arith, inl}
use esp32s3_szpi_sta.Zephyr.Calls.{Response, http_client_req, connect_sock, socket, net}
use esp32s3_szpi_sta.Zephyr.Prog.{faulted, Env, run}
use esp32s3_szpi_sta.Zephyr.Holds.{Answers, Ends}
use esp32s3_szpi_sta.Zephyr.Sample.{reader}
use esp32s3_szpi_sta.HttpClient.{run_http_get_req, run_set_sk_v, run_queries}
use esp32s3_szpi_sta.HttpClient.Sockets.{ShortResponses, IsClosed, requests-IsClosed}
use esp32s3_szpi_sta.HttpClient.Overrun.{FullResponse, run_http_get_req_overruns}

abbrev fragment : ℕ → Response
fragment n = record {
  data_len = n;
  cl_present = false;
  content_length = 0;
  body_found = true;
  body_frag = [];
  is_final = true;
}

-- a server whose answer is one fragment of that length
serving : ℕ → Env
serving n t (net (http_client_req s url)) = record { responses = fragment n ∷ []; result = pos 120 }
serving n t c = reader [] t c

serving-ShortResponses : Answers ShortResponses (serving 120)
unfolding serving
serving-ShortResponses t (net (http_client_req s url)) = omega arith
serving-ShortResponses t _ = tt

serving-FullResponse : Answers FullResponse (serving 512)
unfolding serving reader
serving-FullResponse t (net socket) = refl
serving-FullResponse t (net (connect_sock s)) = refl
serving-FullResponse t (net (http_client_req s url)) = inl (omega arith)
serving-FullResponse t _ = tt

requests-IsClosed_example :
    (let (o, u) = run (serving 120) (run_set_sk_v 1) [] in
      Ends (λ rc w. (rc ≡ pos 0) × IsClosed [] w) o u)
    × (let (o, u) = run (serving 120) run_queries [] in Ends (λ rc. IsClosed []) o u)
requests-IsClosed_example = requests-IsClosed (serving 120) 1 [] serving-ShortResponses

run_http_get_req_overruns_example :
    (run (serving 512) (run_http_get_req (codes "/get?value=Relay")) []).0 ≡ faulted
run_http_get_req_overruns_example =
    run_http_get_req_overruns (serving 512) (codes "/get?value=Relay") [] serving-FullResponse
