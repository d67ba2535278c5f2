-- ===== src/Main/Message.antt =====
-- `struct evt_msg` of src/main.c, without its list node and its data, which is a null pointer in
-- every call of `evt_send`.
use esp32s3_szpi_sta.Base.{ℕ}

pub record EvtMsg : Type 0 where
  pub type : ℕ
  pub len : ℕ
