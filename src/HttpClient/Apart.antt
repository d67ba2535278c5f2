-- ===== src/HttpClient/Apart.antt =====
-- The requests of src/http_client.c leave the BLE part alone.
use esp32s3_szpi_sta.Base.{ℕ, refl, List, [], ◌∷◌, ltb, is_neg}
use esp32s3_szpi_sta.HttpClient.{
  setup_socket, connect_socket, response_cb, deliver, max_recv_buf_len, run_http_get_req,
  run_set_sk_v, set_url,
}
use esp32s3_szpi_sta.Zephyr.Calls.{Response}
use esp32s3_szpi_sta.Zephyr.Avoids.{Avoids, is_bt, Avoids-if, Avoids-bind}

deliver-Avoids : (rsps : List Response) → Avoids is_bt (deliver rsps)
unfolding deliver response_cb
deliver-Avoids [] = tt
deliver-Avoids (rsp ∷ rsps) =
    Avoids-bind is_bt (response_cb rsp) _
      (Avoids-if is_bt (ltb rsp.data_len max_recv_buf_len) _ _ tt tt) (λ _. deliver-Avoids rsps)

get-Avoids : (url : List ℕ) → Avoids is_bt (run_http_get_req url)
unfolding run_http_get_req connect_socket setup_socket
get-Avoids url =
    Avoids-bind is_bt connect_socket _
      (
        refl,
        λ sock.
            Avoids-if is_bt (is_neg sock) _ _ tt
              (refl, λ rc. Avoids-if is_bt (is_neg rc) _ _ (refl, λ _. (refl, λ e. tt)) tt),
      )
      (λ r. Avoids-if is_bt (is_neg r.1) _ _ tt (
        refl,
        λ answer.
            Avoids-bind is_bt (deliver answer.responses) _ (deliver-Avoids answer.responses)
              (λ _. (refl, λ _. tt)),
      ))

pub set_sk_v-Avoids : (v : ℕ) → Avoids is_bt (run_set_sk_v v)
unfolding run_set_sk_v
set_sk_v-Avoids v =
    Avoids-bind is_bt (run_http_get_req (set_url v)) _ (get-Avoids (set_url v)) (λ _. tt)
