-- ===== src/RpcSend/Examples.antt =====
-- Messages by a simple encoder.
use esp32s3_szpi_sta.Base.{true, [], pos, take, codes, length-take-le}
use esp32s3_szpi_sta.RpcSend.{
  ParaItem, MsgPayload, Encode, build_action_hello, build_status_ble_ready,
}
use esp32s3_szpi_sta.RpcSend.Size.{StaysIn, IsBuilt, builders-IsBuilt}

-- an encoder that writes the name of the function alone
encode_name : Encode
encode_name payload n = (pos 0, take n payload.func)

encode_name-StaysIn : StaysIn encode_name
unfolding encode_name
encode_name-StaysIn payload n = length-take-le n payload.func

builders-IsBuilt_example :
    IsBuilt true (pos 64) (build_action_hello encode_name true (pos 64))
    × IsBuilt true (pos 64) (build_status_ble_ready encode_name true (pos 64))
builders-IsBuilt_example = builders-IsBuilt encode_name true (pos 64) encode_name-StaysIn

abbrev item : ParaItem
item = record { k = codes "k"; v = codes "v" }

abbrev empty : MsgPayload
empty = record { func = codes "f"; paras = [] }
