-- ===== src/Messages/Codec.antt =====
-- The codec of the messages with devices (src/common/messages/codec.rs), and the payload's `encode`
-- and `decode` (message.rs).
use head_end_system_tpp.Prelude.{
  ℕ, ◌+◌, ◌-◌, ltb, ◌==◌, if◌then◌else◌, Option, none, some, List, [], ◌∷◌, length, true, false,
}
use head_end_system_tpp.Wire.{ok, err, Decoder, ◌>>=◌, return, Encoder, Bytes, write, read, copy}
use head_end_system_tpp.Messages.{
  MsgCodecError, unknown_msg_type, invalid_length, MessagePayload, Message, msg_type_code,
  msg_type_from_code,
}
use head_end_system_tpp.Messages as Types
use head_end_system_tpp.Messages.Rlp.{Rlp}
use head_end_system_tpp.Messages.Payload.{
  Decoded, encode_handshake, decode_handshake, encode_handshake_response, decode_handshake_response,
  encode_registry_request, decode_registry_request, encode_registry_response,
  decode_registry_response, encode_read_request, decode_read_request, encode_read_response,
  decode_read_response, encode_write_request, decode_write_request, encode_write_response,
  decode_write_response, encode_nack, decode_nack,
}

abbrev pub header_size : ℕ
header_size = 30

abbrev pub mac_size : ℕ
mac_size = 16

abbrev pub min_msg_len : ℕ
min_msg_len = header_size + mac_size

abbrev pub fmap : {A B : Type 0} → (A → B) → Decoded A → Decoded B
fmap f (Types.Result.ok a) = Types.Result.ok (f a)
fmap f (Types.Result.err e) = Types.Result.err e

-- `result.inspect_err(|_| buf.clear())?`.
unfoldable pub clear_on_err : {A : Type 0} → Decoded A → Decoder MsgCodecError A
clear_on_err (Types.Result.ok a) buf = ok a buf
clear_on_err (Types.Result.err e) buf = err e []

module _ (rlp : Rlp) where
  unfoldable pub encode_message_payload : MessagePayload → Encoder
  encode_message_payload (MessagePayload.handshake m) rest = encode_handshake rlp m rest
  encode_message_payload (MessagePayload.handshake_response m) rest =
      encode_handshake_response rlp m rest
  encode_message_payload (MessagePayload.registry_request m) rest =
      encode_registry_request rlp m rest
  encode_message_payload (MessagePayload.registry_response m) rest =
      encode_registry_response rlp m rest
  encode_message_payload (MessagePayload.read_request m) rest = encode_read_request rlp m rest
  encode_message_payload (MessagePayload.read_response m) rest = encode_read_response rlp m rest
  encode_message_payload (MessagePayload.write_request m) rest = encode_write_request rlp m rest
  encode_message_payload (MessagePayload.write_response m) rest = encode_write_response rlp m rest
  encode_message_payload MessagePayload.execute_request rest = rest
  encode_message_payload MessagePayload.execute_response rest = rest
  encode_message_payload MessagePayload.action_request rest = rest
  encode_message_payload MessagePayload.action_response rest = rest
  encode_message_payload MessagePayload.ack rest = rest
  encode_message_payload (MessagePayload.nack m) rest = encode_nack rlp m rest
  encode_message_payload MessagePayload.session_start_request rest = rest

  unfoldable pub decode_message_payload : ℕ → List ℕ → Decoded MessagePayload
  decode_message_payload code msg_data =
      if code == 0x00
      then fmap MessagePayload.handshake (decode_handshake rlp msg_data)
      else if code == 0x01
      then fmap MessagePayload.handshake_response (decode_handshake_response rlp msg_data)
      else if code == 0x02
      then fmap MessagePayload.registry_request (decode_registry_request rlp msg_data)
      else if code == 0x03
      then fmap MessagePayload.registry_response (decode_registry_response rlp msg_data)
      else if code == 0x0a
      then fmap MessagePayload.read_request (decode_read_request rlp msg_data)
      else if code == 0x0b
      then fmap MessagePayload.read_response (decode_read_response rlp msg_data)
      else if code == 0x14
      then fmap MessagePayload.write_request (decode_write_request rlp msg_data)
      else if code == 0x15
      then fmap MessagePayload.write_response (decode_write_response rlp msg_data)
      else if code == 0x1e
      then Types.Result.ok MessagePayload.execute_request
      else if code == 0x1f
      then Types.Result.ok MessagePayload.execute_response
      else if code == 0x28
      then Types.Result.ok MessagePayload.action_request
      else if code == 0x29
      then Types.Result.ok MessagePayload.action_response
      else if code == 0xfe
      then fmap MessagePayload.nack (decode_nack rlp msg_data)
      else if code == 0xff
      then Types.Result.ok MessagePayload.ack
      else if code == 0xf0
      then Types.Result.ok MessagePayload.session_start_request
      else Types.Result.err unknown_msg_type

-- `buf.len().checked_sub(MAC_SIZE)`, and clearing the buffer where there is too little.
unfoldable pub payload_len : Decoder MsgCodecError ℕ
payload_len buf =
    if ltb (length buf) mac_size then err invalid_length [] else ok (length buf - mac_size) buf

module _ (wire : Bytes) (rlp : Rlp) where
  -- `decode` behind its check of the length.
  unfoldable pub decode_fields : Decoder MsgCodecError (Option Message)
  unfolding payload_len clear_on_err
  decode_fields = do
    version ← read wire 1
    msg_type_code ← read wire 1
    device_id ← read wire 16
    seq ← read wire 4
    timestamp ← read wire 8
    len ← payload_len
    payload_data ← copy wire len
    mac ← read wire 16
    msg_type ← clear_on_err (msg_type_from_code msg_type_code)
    payload ← clear_on_err (decode_message_payload rlp msg_type_code payload_data)
    return (
        some (record {
          version = version;
          msg_type = msg_type;
          device_id = device_id;
          seq = seq;
          timestamp = timestamp;
          payload = payload;
          mac = mac;
        }))

  -- A packet that is too short is discarded.
  unfoldable pub too_short : Decoder MsgCodecError (Option Message)
  too_short [] = ok none []
  too_short (b ∷ buf) = err invalid_length []

  unfoldable pub codec_decode : Decoder MsgCodecError (Option Message)
  unfolding too_short
  codec_decode buf = elim (ltb (length buf) min_msg_len) [
    | true ↦ too_short buf
    | false ↦ decode_fields buf
  ]

  -- What `encode` appends to the buffer. No payload fails to encode.
  unfoldable pub codec_encode : Message → List ℕ
  codec_encode m = write wire 1 m.version (
      write wire 1 (msg_type_code m.msg_type) (
        write wire 16 m.device_id (
          write wire 4 m.seq (
            write wire 8 m.timestamp
              (encode_message_payload rlp m.payload (write wire 16 m.mac []))))))
