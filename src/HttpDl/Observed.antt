-- ===== src/HttpDl/Observed.antt =====
-- What a download is seen to do: the bytes written into files, and the bodies served.
use esp32s3_szpi_sta.Base.{
  ℕ, suc, ◌≡◌, refl, inl, inr, Bool, true, false, ◌&&◌, List, [], ◌∷◌, ◌++◌, pos, negsuc, length,
  take, ltb, if◌then◌else◌, Bool-cases, arith,
}
use esp32s3_szpi_sta.Zephyr.Calls.{
  Response, http_client_req, net, write, open_file, create_write, fs,
}
use esp32s3_szpi_sta.Zephyr.Prog.{Trace}

-- the bytes written into files since one was opened with FS_O_CREATE | FS_O_WRITE
abbrev pub saved : Trace → List ℕ
saved [] = []
saved ((fs (open_file p create_write), rc) ∷ t) = []
saved ((fs (write bs), pos n) ∷ t) = saved t ++ take n bs
saved (_ ∷ t) = saved t

-- the file that was opened last with FS_O_CREATE | FS_O_WRITE
abbrev pub saved_to : Trace → List ℕ
saved_to [] = []
saved_to ((fs (open_file p create_write), rc) ∷ t) = p
saved_to (_ ∷ t) = saved_to t

-- the writes into files that failed
abbrev pub failures : Trace → ℕ
failures [] = 0
failures ((fs (write bs), negsuc e) ∷ t) = suc (failures t)
failures (_ ∷ t) = failures t

abbrev pub body : Response → List ℕ
body rsp = if rsp.body_found then rsp.body_frag else []

abbrev pub bodies : List Response → List ℕ
bodies [] = []
bodies (rsp ∷ rsps) = body rsp ++ bodies rsps

-- the bodies of the responses
abbrev pub served : Trace → List ℕ
served [] = []
served ((net (http_client_req s path), answer) ∷ t) = served t ++ bodies answer.responses
served (_ ∷ t) = served t

and_left : (a b : Bool) → a && b ≡ true → a ≡ true
and_left true b e = refl
and_left false b e = e

and_right : (a b : Bool) → a ≡ true → a && b ≡ false → b ≡ false
and_right true b f e = e
and_right false b f e = cc

pub body-written :
    (rsp : Response)
    → rsp.body_found && ltb 0 (length rsp.body_frag) ≡ true
    → body rsp ≡ rsp.body_frag
body-written rsp e = rw (and_left rsp.body_found _ e) refl

no-body : (bs : List ℕ) → ltb 0 (length bs) ≡ false → bs ≡ []
no-body [] e = refl
no-body (b ∷ bs) e = absurd (ground arith)

pub body-none :
    (rsp : Response) → rsp.body_found && ltb 0 (length rsp.body_frag) ≡ false → body rsp ≡ []
body-none rsp e = elim (Bool-cases rsp.body_found) [
  | inl f ↦ rw f (no-body rsp.body_frag (and_right rsp.body_found _ f e))
  | inr f ↦ rw f refl
]
