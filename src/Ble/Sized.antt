-- ===== src/Ble/Sized.antt =====
-- The shared variables of src/ble_rc.c keep the types that C declares for them.
use esp32s3_szpi_sta.Base.{
  ℕ, ◌+◌, ◌≤◌, ◌<◌, ◌≡◌, refl, Option, none, some, inl, inr, Bool-cases, List, [], ◌∷◌, ltb, ltb→ge,
  length, length-take, arith,
}
use esp32s3_szpi_sta.Ble.State.{Addr, Ble}
use esp32s3_szpi_sta.Ble.Adv.{note_peer, update_fe_data}
use esp32s3_szpi_sta.Ble.Keys.{input_ccc_changed, write_ctrl_point, pressed, released}
use esp32s3_szpi_sta.Ble.Keys.Reports.{length-overwrite}
use esp32s3_szpi_sta.Ble.Interleave.{System, system, Reach}
use esp32s3_szpi_sta.Ble.Threads.{Handler, Reach-Keeps}
use esp32s3_szpi_sta.Ble.Threads.Effects.{Moves}
use esp32s3_szpi_sta.HttpClient.Sockets.{AreShort, ShortResponses}
use esp32s3_szpi_sta.Zephyr.Calls.{Call, Answer, bt, net, conn_get_dst, http_client_req}
use esp32s3_szpi_sta.Zephyr.Prog.{Trace, Env}
use esp32s3_szpi_sta.Zephyr.Holds.{Admits, Answers}

abbrev pub AreBytes : List ℕ → Type 0
AreBytes [] = Unit
AreBytes (x ∷ xs) = (x < 256) × AreBytes xs

-- `uint8_t report_val[8]`, `uint8_t ctrl_point`, three bytes of an address, and a flag
pub record IsSized (b : Ble) : Type 0 where
  pub report : length b.report_val ≡ 8
  pub bytes : AreBytes b.report_val
  pub point : length b.ctrl_point ≡ 1
  pub address : length b.fe_data ≡ 3
  pub flag : b.simulate_input_allow ≤ 1

-- `bt_addr_le_t` has six bytes
abbrev pub HasSixBytes : Option Addr → Type 0
HasSixBytes none = Unit
HasSixBytes (some addr) = length addr.val ≡ 6

-- an address is one, and no response fragment of the relay fills the receive buffer
abbrev pub Fits : Admits
Fits t (net (http_client_req s url)) r = AreShort r.responses
Fits t (bt conn_get_dst) dst = HasSixBytes dst
Fits _ _ _ = Unit

Fits-short : (u : Trace) (c : Call) (r : Answer c) → Fits u c r → ShortResponses u c r
Fits-short u (net (http_client_req s url)) r e = e
Fits-short u _ r e = tt

noted-IsSized :
    (dst : Option Addr) (b : Ble) → HasSixBytes dst → IsSized b → IsSized (note_peer dst b)
unfolding note_peer update_fe_data
noted-IsSized none b six h = h
noted-IsSized (some addr) b six h = record {
  report = h.report;
  bytes = h.bytes;
  point = h.point;
  address = let l = length-take 3 addr.val in omega arith;
  flag = h.flag;
}

reported-IsSized :
    (key : ℕ) (b : Ble) → key < 256 → IsSized b → IsSized (record b { report_val = pressed key })
unfolding pressed
reported-IsSized key b k h = record {
  report = refl;
  bytes = omega arith;
  point = h.point;
  address = h.address;
  flag = h.flag;
}

unreported-IsSized : (b : Ble) → IsSized b → IsSized (record b { report_val = released })
unreported-IsSized b h = record {
  report = refl;
  bytes = omega arith;
  point = h.point;
  address = h.address;
  flag = h.flag;
}

allowed-IsSized : (value : ℕ) (b : Ble) → IsSized b → IsSized (input_ccc_changed value b)
unfolding input_ccc_changed
allowed-IsSized value b h = ground arith

written-IsSized :
    (buf : List ℕ) (offset : ℕ) (b : Ble) → IsSized b → IsSized (write_ctrl_point buf offset b).1
unfolding write_ctrl_point
written-IsSized buf offset b h =
    elim (Bool-cases (ltb (length b.ctrl_point) (offset + length buf))) [
      | inl far ↦ simp (far) h
      | inr near ↦ simp (near) (record {
        report = h.report;
        bytes = h.bytes;
        point = let l = length-overwrite offset buf b.ctrl_point (ltb→ge _ _ near) in omega arith;
        address = h.address;
        flag = h.flag;
      })
    ]

same :
    (b b' : Ble)
    → b.report_val ≡ b'.report_val
    → b.ctrl_point ≡ b'.ctrl_point
    → b.fe_data ≡ b'.fe_data
    → b.simulate_input_allow ≡ b'.simulate_input_allow
    → IsSized b
    → IsSized b'
same b b' e f g i h = record {
  report = rw (← e) h.report;
  bytes = rw (← e) h.bytes;
  point = rw (← f) h.point;
  address = rw (← g) h.address;
  flag = rw (← i) h.flag;
}

Moves-IsSized : Moves Fits (λ b t. IsSized b)
Moves-IsSized = record {
  called = λ b t c r e h. h;
  started = λ b t p id r off e h. same b _ refl refl refl refl h;
  not_started = λ b t p id r off e h. h;
  stopped = λ b t r on e h. same b _ refl refl refl refl h;
  not_stopped = λ b t r on e h. h;
  adv_over = λ b t h. same b _ refl refl refl refl h;
  given = λ b t h. h;
  taken = λ b t h g. same b _ refl refl refl refl h;
  told = λ b t h. same b _ refl refl refl refl h;
  moded = λ w b t h. same b _ refl refl refl refl h;
  bonded = λ a b t h. same b _ refl refl refl refl h;
  linked = λ l b t h. same b _ refl refl refl refl h;
  noted = λ dst b t u d h. noted-IsSized dst b d h;
  reported = λ key b t k h. reported-IsSized key b k h;
  unreported = λ b t h. unreported-IsSized b h;
  allowed = λ value b t h. allowed-IsSized value b h;
  written = λ buf offset b t h. written-IsSized buf offset b h;
}

-- However the threads interleave, the shared variables keep their types: `report_val` has eight
-- bytes, each below 256, `ctrl_point` has one, `fe_data` has three, and `simulate_input_allow` is 0
-- or 1. They have them at the start, the address of a peer has six bytes, and no response fragment
-- of the relay fills the receive buffer.
pub Reach-IsSized :
    (env : Env) (b : Ble) (t : Trace) (s : System)
    → Answers Fits env
    → IsSized b
    → Reach Handler env (system b t) s
    → IsSized s.ble
Reach-IsSized env b t s d h r =
    Reach-Keeps Fits (λ b' t'. IsSized b') Moves-IsSized Fits-short d h r
