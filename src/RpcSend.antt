-- ===== src/RpcSend.antt =====
-- src/rpc_send.c: the messages to the WebSocket server.
pub mod Payload
pub mod Size
mod Examples
use esp32s3_szpi_sta.Base.{
  ℕ, zero, suc, ◌-◌, ◌^◌, Option, none, some, is_zero, Bool, true, false, not, ◌||◌, List, [], ◌∷◌,
  ◌++◌, ℤ, pos, negsuc, is_neg, length, codes, leb, if◌then◌else◌,
}

-- MAX_PARAS_COUNT
abbrev pub max_paras_count : ℕ
max_paras_count = 10

pub record ParaItem : Type 0 where
  pub k : List ℕ
  pub v : List ℕ

-- `struct msg_payload`, with the first `num_paras` of its array
pub record MsgPayload : Type 0 where
  pub func : List ℕ
  pub paras : List ParaItem

unfoldable pub payload_paras_add : MsgPayload → List ℕ → List ℕ → ℤ × MsgPayload
payload_paras_add payload k v =
    if leb max_paras_count (length payload.paras)
    then (negsuc 0, payload)
    else (pos 0, record payload { paras = payload.paras ++ (record { k = k; v = v } ∷ []) })

-- `json_obj_encode_buf` with the size of the buffer: its result, and the string in the buffer
abbrev pub Encode : Type 0
Encode = MsgPayload → ℕ → ℤ × List ℕ

-- `buf_len - 1` as a `size_t`, for a `buf_len` that is not negative
abbrev pub offered : ℕ → ℕ
offered zero = 2 ^ 32 - 1
offered (suc n) = n

-- The return value, and the string in the buffer. There is none for a negative length: `memset` takes
-- it for a size of 2 GB at least, and leaves the buffer.
unfoldable pub payload_to_josn_str : Encode → MsgPayload → ℤ → Option (ℤ × List ℕ)
payload_to_josn_str encode payload (negsuc n) = none
payload_to_josn_str encode payload (pos buf_len) =
    let (rc, text) = encode payload (offered buf_len) in
    some (if is_neg rc then (negsuc 0, text) else (pos (length text), text))

-- what the two builders share, behind their check of the buffer
unfoldable pub build : Encode → List ℕ → List ℕ → List ℕ → ℤ → Option (ℤ × List ℕ)
unfolding payload_paras_add
build encode func k v buf_len =
    let (rc, payload) = payload_paras_add (record { func = func; paras = [] }) k v in
    payload_to_josn_str encode payload buf_len

-- `has_buf` is that `buf` is no null pointer
unfoldable pub build_action_hello : Encode → Bool → ℤ → Option (ℤ × List ℕ)
build_action_hello encode has_buf buf_len =
    if not has_buf || is_zero buf_len
    then some (negsuc 0, [])
    else build encode (codes "hello") (codes "mac") (codes "11:22:33:44:55:66") buf_len

unfoldable pub build_status_ble_ready : Encode → Bool → ℤ → Option (ℤ × List ℕ)
build_status_ble_ready encode has_buf buf_len =
    if not has_buf || is_zero buf_len
    then some (negsuc 0, [])
    else build encode (codes "status") (codes "state") (codes "ble_ready") buf_len
