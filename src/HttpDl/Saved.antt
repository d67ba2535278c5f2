-- ===== src/HttpDl/Saved.antt =====
-- What a download leaves in the file.
use esp32s3_szpi_sta.Base.{
  take-all, ℕ, zero, suc, ◌+◌, ◌%◌, ◌^◌, ◌≤◌, ◌<◌, ◌≡◌, refl, sym, ap, ◌∙◌, ◌⊎◌, inl, inr, Bool,
  true, false, not, ◌&&◌, ◌||◌, List, [], ◌∷◌, ◌++◌, ℤ, pos, negsuc, neg, length, ltb, leb,
  if◌then◌else◌, Bool-cases, arith, append-nil, append_assoc, length-append,
}
use esp32s3_szpi_sta.Zephyr.Calls.{
  Response, http_client_req, getaddrinfo, socket, connect_sock, net, write, fs,
}
use esp32s3_szpi_sta.Zephyr.Prog.{Trace, Env, run, Holds}
use esp32s3_szpi_sta.Zephyr.Holds.{Admits, Answers, Ends, run-Holds, Holds-weaken, Holds-then}
use esp32s3_szpi_sta.Zephyr.Usage.{unclosed, remove, remove_first}
use esp32s3_szpi_sta.HttpDl.Observed.{
  saved, failures, body, bodies, served, body-written, body-none,
}
use esp32s3_szpi_sta.HttpDl.{
  DownloadCtx, note_size, throttle, add_written, http_dl_response_cb, deliver_dl, http_dl_get_req,
  http_dl_socket_connect, http_dl_socket_init,
}

-- a write that does not fail writes everything
abbrev pub WritesAll : Admits
WritesAll t (fs (write bs)) (pos n) = n ≡ length bs
WritesAll _ _ _ = Unit

-- The beginning of `todo` has been written behind `t`, all of it if no write failed, and it is
-- counted from `start` on.
abbrev pub IsSaved : List ℕ → ℕ → Trace → ℕ → Trace → Type 0
IsSaved todo start t total u =
    (xs : List ℕ) × (rest : List ℕ) × (todo ≡ xs ++ rest)
    × (saved u ≡ saved t ++ xs)
    × (total ≡ (start + length xs) % 2 ^ 32)
    × (failures t ≤ failures u)
    × (failures u ≡ failures t → rest ≡ [])

-- the traces have the same sockets open, and the same bodies served
abbrev pub IsQuiet : Trace → Trace → Type 0
IsQuiet t u = (unclosed u ≡ unclosed t) × (served u ≡ served t)

IsSaved-step :
    (ys todo : List ℕ) (start start' total : ℕ) (t t' u : Trace)
    → saved t' ≡ saved t ++ ys
    → failures t' ≡ failures t
    → start' ≡ (start + length ys) % 2 ^ 32
    → IsSaved todo start' t' total u
    → IsSaved (ys ++ todo) start t total u
IsSaved-step ys todo start start' total t t' u s f n (xs, rest, e, w, c, le, all) = (
  ys ++ xs,
  rest,
  ap (λ zs. ys ++ zs) e ∙ sym (append_assoc ys xs rest),
  w ∙ ap (λ zs. zs ++ xs) s ∙ append_assoc (saved t) ys xs,
  (let l = length-append ys xs in omega arith),
  omega arith,
  λ same. all (omega arith),
)

note_size-total :
    (rsp : Response) (ctx : DownloadCtx) → (note_size rsp ctx).total_written ≡ ctx.total_written
unfolding note_size
note_size-total rsp ctx = elim (Bool-cases (rsp.cl_present && not ctx.has_size)) [
  | inl e ↦ rw e refl
  | inr e ↦ rw e refl
]

printed-total :
    (shown : Bool) (now : ℕ) (ctx : DownloadCtx)
    → (if shown then record ctx { last_print_time = now } else ctx).total_written
      ≡ ctx.total_written
printed-total true now ctx = refl
printed-total false now ctx = refl

-- what the result of a delivery from `ctx` and `t` on is to be
abbrev pub IsDelivered : List ℕ → DownloadCtx → Trace → DownloadCtx → Trace → Type 0
IsDelivered todo ctx t later u =
    IsSaved todo ctx.total_written t later.total_written u × IsQuiet t u

module _ (rsp : Response) (rsps : List Response) (ctx ctx' : DownloadCtx) (t t' : Trace)
    (s : saved t' ≡ saved t ++ body rsp) (f : failures t' ≡ failures t)
    (n : ctx'.total_written ≡ (ctx.total_written + length (body rsp)) % 2 ^ 32)
    (q : IsQuiet t t') where
  IsDelivered-next :
      Holds WritesAll (deliver_dl rsps ctx') t' (Ends (IsDelivered (bodies rsps) ctx' t'))
      → Holds WritesAll (deliver_dl rsps ctx') t' (Ends (IsDelivered (bodies (rsp ∷ rsps)) ctx t))
  IsDelivered-next h =
      Holds-weaken WritesAll (IsDelivered (bodies rsps) ctx' t')
        (IsDelivered (bodies (rsp ∷ rsps)) ctx t) (deliver_dl rsps ctx') t'
        (λ later u (d, (o, v)). (
          IsSaved-step (body rsp) (bodies rsps) ctx.total_written ctx'.total_written
              later.total_written t t' u s f n d,
          (o ∙ q.0, v ∙ q.1),
        ))
        h

wrapped : (start n : ℕ) → start < 2 ^ 32 → n ≡ 0 → start ≡ (start + n) % 2 ^ 32
wrapped start n h e = omega arith

deliver-IsDelivered :
    (rsps : List Response) (ctx : DownloadCtx) (t : Trace)
    → ctx.total_written < 2 ^ 32
    → Holds WritesAll (deliver_dl rsps ctx) t (Ends (IsDelivered (bodies rsps) ctx t))
unfolding deliver_dl http_dl_response_cb throttle
deliver-IsDelivered [] ctx t h =
    (([], [], refl, sym (append-nil (saved t)), omega arith, omega arith, λ _. refl), (refl, refl))
deliver-IsDelivered (rsp ∷ rsps) ctx t h =
    elim (Bool-cases (rsp.body_found && ltb 0 (length rsp.body_frag))) [
      | inl e ↦ rw e (elim [
        | negsuc n ↦ λ _. (
          (
            [],
            body rsp ++ bodies rsps,
            refl,
            sym (append-nil (saved t)),
            (let k = note_size-total rsp ctx in omega arith),
            omega arith,
            λ same. absurd (omega arith),
          ),
          (refl, refl),
        )
        | pos n ↦ λ d now _.
            let b = body-written rsp e in
            let k = note_size-total rsp ctx in
            let total =
              printed-total (rsp.is_final || leb ((note_size rsp ctx).last_print_time + 1000) now)
                now (add_written rsp (note_size rsp ctx)) in
            IsDelivered-next rsp rsps ctx _ t _
              (rw b (ap (λ xs. saved t ++ xs) (take-all n rsp.body_frag (omega arith)))) refl
              (rw b (total ∙ ap (λ w. (w + length rsp.body_frag) % 2 ^ 32) k)) (refl, refl)
              (deliver-IsDelivered rsps _ _ (rw total (omega arith)))
      ])
      | inr e ↦ rw e (λ now _.
          let b = body-none rsp e in
          let k = note_size-total rsp ctx in
          let total =
            printed-total (rsp.is_final || leb ((note_size rsp ctx).last_print_time + 1000) now) now
              (note_size rsp ctx) in
          IsDelivered-next rsp rsps ctx _ t _ (rw b (sym (append-nil (saved t)))) refl
            (rw b (total ∙ k ∙ wrapped ctx.total_written 0 h refl)) (refl, refl)
            (deliver-IsDelivered rsps _ _ (rw total (rw k h))))
    ]

-- what a request from `ctx` and `t` on is to come to
abbrev pub IsFetched : DownloadCtx → Trace → ℤ × DownloadCtx → Trace → Type 0
IsFetched ctx t (rc, later) u =
    ((rc ≡ pos 0) ⊎ (rc ≡ neg 113))
    × (unclosed u ≡ unclosed t)
    × (todo : List ℕ) × (served u ≡ served t ++ todo)
    × IsSaved todo ctx.total_written t later.total_written u

nothing-IsSaved : (start : ℕ) (t : Trace) → start < 2 ^ 32 → IsSaved [] start t start t
nothing-IsSaved start t h =
    ([], [], refl, sym (append-nil (saved t)), omega arith, omega arith, λ _. refl)

pub get_req-IsFetched :
    (hostname port path : List ℕ) (ctx : DownloadCtx) (t : Trace)
    → ctx.total_written < 2 ^ 32
    → Holds WritesAll (http_dl_get_req hostname port path ctx) t (Ends (IsFetched ctx t))
unfolding http_dl_get_req http_dl_socket_connect http_dl_socket_init
get_req-IsFetched hostname port path ctx t h =
    let none_served = sym (append-nil (served t)) in
    let none_saved = nothing-IsSaved ctx.total_written t h in
    elim [
      | negsuc e ↦ λ _. (inr refl, refl, [], none_served, none_saved)
      | pos (suc e) ↦ λ _. (inr refl, refl, [], none_served, none_saved)
      | pos zero ↦ λ _. elim [
        | negsuc e ↦ λ _. (inr refl, refl, [], none_served, none_saved)
        | pos s ↦ λ _. elim [
          | negsuc e ↦
              λ _ _ _ e' _. (inr refl, remove_first s (unclosed t), [], none_served, none_saved)
          | pos n ↦ λ _ answer _.
              let sent : Trace =
                (net (http_client_req (pos s) path), answer)
                ∷ (net (connect_sock (pos s)), pos n)
                ∷ (net socket, pos s)
                ∷ (net (getaddrinfo hostname port), pos 0)
                ∷ t in
              Holds-then WritesAll (IsDelivered (bodies answer.responses) ctx sent)
                (Ends (IsFetched ctx t)) (deliver_dl answer.responses ctx) _ sent
                (deliver-IsDelivered answer.responses ctx sent h)
                (λ later u (d, (o, v)) _ _. (
                  inl refl,
                  ap (remove s) o ∙ remove_first s (unclosed t),
                  bodies answer.responses,
                  v,
                  d,
                ))
        ]
      ]
    ]

-- From a count below 2^32, and where a write that does not fail writes all that it is given, a
-- request ends, whatever the network does, with 0 or -ECONNABORTED, and has closed the
-- descriptor of every socket that it obtained, and no other. What it has appended to the file is the beginning of the bodies served, in their
-- order, and all of them if no write failed; and the bytes counted are those appended, modulo 2^32.
pub http_dl_get_req-IsFetched :
    (env : Env) (hostname port path : List ℕ) (ctx : DownloadCtx) (t : Trace)
    → ctx.total_written < 2 ^ 32
    → Answers WritesAll env
    → let (o, u) = run env (http_dl_get_req hostname port path ctx) t in Ends (IsFetched ctx t) o u
http_dl_get_req-IsFetched env hostname port path ctx t h d =
    run-Holds WritesAll (Ends (IsFetched ctx t)) env d _ t
      (get_req-IsFetched hostname port path ctx t h)
