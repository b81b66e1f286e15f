-- ===== src/Messages.antt =====
-- The messages between the head-end system and a device (src/common/messages): their types, their
-- payloads and the errors of their codec.
pub mod Rlp
pub mod Payload
pub mod Codec
pub mod Create
pub mod RoundTrip
pub mod Complete
pub mod Timestamp
mod Tests
use head_end_system_tpp.Prelude.{
  ℕ, ◌/◌, ◌%◌, ◌*◌, Bool, Option, none, some, List, ◌==◌, if◌then◌else◌,
}
use Prim.Native.String.{String}

-- The texts that come with an input or output error or a decoding error are not modelled.
pub data MsgCodecError : Type 0 where
  invalid_length unknown_msg_type io_error payload_decode_error : MsgCodecError

unfoldable pub as_metric_label : MsgCodecError → String
as_metric_label invalid_length = "invalid_length"
as_metric_label unknown_msg_type = "unknown_msg_type"
as_metric_label payload_decode_error = "payload_decode"
as_metric_label io_error = "io"

pub data MessageError : Type 0 where
  invalid_length unknown_msg_type io_error system_time_error invalid_time_stamp : MessageError

pub data Result (E A : Type 0) : Type 0 where
  ok : A → Result E A
  err : E → Result E A

infixl 5 ◌>>=◌
abbrev pub ◌>>=◌ : {E A B : Type 0} → Result E A → (A → Result E B) → Result E B
ok a >>= f = f a
err e >>= f = err e

-- `opt.ok_or(e)`, and `map_err` on an error of a library.
abbrev pub ok_or : {E A : Type 0} → Option A → E → Result E A
ok_or (some a) e = ok a
ok_or none e = err e

pub record HandshakeMessage : Type 0 where
  pub nonce : List ℕ

pub record HandshakeResponseMessage : Type 0 where
  pub status : ℕ

pub record RegistryRequestMessage : Type 0 where
  pub imei : List ℕ
  pub ipv6 : List ℕ

pub record RegistryResponseMessage : Type 0 where
  pub flag : ℕ
  pub next_wake_time : ℕ

pub record ReadRequestMessage : Type 0 where
  pub obis_codes : List (List ℕ)

pub record ObisValue : Type 0 where
  pub code : List ℕ
  pub value : List ℕ

pub record ReadResponseMessage : Type 0 where
  pub values : List ObisValue

pub record WriteParameter : Type 0 where
  pub code : List ℕ
  pub value : List ℕ

pub record WriteRequestMessage : Type 0 where
  pub parameters : List WriteParameter

pub record WriteResponseMessage : Type 0 where
  pub success : Bool
  pub written_codes : List (List ℕ)

pub record NackMessage : Type 0 where
  pub error_code : ℕ

abbrev pub nack_device_not_found : ℕ
nack_device_not_found = 0x01

abbrev pub nack_internal_error : ℕ
nack_internal_error = 0x02

-- The messages for executing and for actions have no fields.
pub data MessagePayload : Type 0 where
  handshake : HandshakeMessage → MessagePayload
  handshake_response : HandshakeResponseMessage → MessagePayload
  registry_request : RegistryRequestMessage → MessagePayload
  registry_response : RegistryResponseMessage → MessagePayload
  read_request : ReadRequestMessage → MessagePayload
  read_response : ReadResponseMessage → MessagePayload
  write_request : WriteRequestMessage → MessagePayload
  write_response : WriteResponseMessage → MessagePayload
  execute_request execute_response action_request action_response ack : MessagePayload
  nack : NackMessage → MessagePayload
  session_start_request : MessagePayload

pub data MsgType : Type 0 where
  handshake handshake_response register_request register_response read_request read_response
        write_request write_response execute_request execute_response action_request action_response
        ack nack session_start_request :
      MsgType

unfoldable pub msg_type_as_str : MsgType → String
msg_type_as_str MsgType.handshake = "handshake"
msg_type_as_str MsgType.handshake_response = "handshake_response"
msg_type_as_str MsgType.register_request = "register_request"
msg_type_as_str MsgType.register_response = "register_response"
msg_type_as_str MsgType.read_request = "read_request"
msg_type_as_str MsgType.read_response = "read_response"
msg_type_as_str MsgType.write_request = "write_request"
msg_type_as_str MsgType.write_response = "write_response"
msg_type_as_str MsgType.execute_request = "execute_request"
msg_type_as_str MsgType.execute_response = "execute_response"
msg_type_as_str MsgType.action_request = "action_request"
msg_type_as_str MsgType.action_response = "action_response"
msg_type_as_str MsgType.ack = "ack"
msg_type_as_str MsgType.nack = "nack"
msg_type_as_str MsgType.session_start_request = "session_start_request"

unfoldable pub msg_type_code : MsgType → ℕ
msg_type_code MsgType.handshake = 0x00
msg_type_code MsgType.handshake_response = 0x01
msg_type_code MsgType.register_request = 0x02
msg_type_code MsgType.register_response = 0x03
msg_type_code MsgType.read_request = 0x0a
msg_type_code MsgType.read_response = 0x0b
msg_type_code MsgType.write_request = 0x14
msg_type_code MsgType.write_response = 0x15
msg_type_code MsgType.execute_request = 0x1e
msg_type_code MsgType.execute_response = 0x1f
msg_type_code MsgType.action_request = 0x28
msg_type_code MsgType.action_response = 0x29
msg_type_code MsgType.ack = 0xff
msg_type_code MsgType.nack = 0xfe
msg_type_code MsgType.session_start_request = 0xf0

unfoldable pub msg_type_from_code : ℕ → Result MsgCodecError MsgType
msg_type_from_code code =
    if code == 0x00
    then ok MsgType.handshake
    else if code == 0x01
    then ok MsgType.handshake_response
    else if code == 0x02
    then ok MsgType.register_request
    else if code == 0x03
    then ok MsgType.register_response
    else if code == 0x0a
    then ok MsgType.read_request
    else if code == 0x0b
    then ok MsgType.read_response
    else if code == 0x14
    then ok MsgType.write_request
    else if code == 0x15
    then ok MsgType.write_response
    else if code == 0x1e
    then ok MsgType.execute_request
    else if code == 0x1f
    then ok MsgType.execute_response
    else if code == 0x28
    then ok MsgType.action_request
    else if code == 0x29
    then ok MsgType.action_response
    else if code == 0xfe
    then ok MsgType.nack
    else if code == 0xff
    then ok MsgType.ack
    else if code == 0xf0
    then ok MsgType.session_start_request
    else err unknown_msg_type

pub record Message : Type 0 where
  pub version : ℕ
  pub msg_type : MsgType
  pub device_id : ℕ
  pub seq : ℕ
  pub timestamp : ℕ
  pub payload : MessagePayload
  pub mac : ℕ

-- `from_timestamp` is that of the `chrono` crate, from seconds and nanoseconds to a time. The seconds
-- of a timestamp are far below the largest `i64`.
unfoldable pub get_timestamp : (ℕ → ℕ → Option ℕ) → Message → Result MessageError ℕ
get_timestamp from_timestamp m =
    ok_or (from_timestamp (m.timestamp / 1000) (m.timestamp % 1000 * 1000000)) invalid_time_stamp
