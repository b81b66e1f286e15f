-- ===== src/Messages/RoundTrip.antt =====
-- Encoding and then decoding the messages of devices (src/common/messages).
use head_end_system_tpp.Prelude.{
  ℕ, ◌+◌, ◌^◌, ◌≤◌, ◌<◌, ◌≡◌, refl, ap, arith, some, List, [], ◌++◌, length, length-append, le→ltb,
}
use head_end_system_tpp.Wire.{Bytes, write, ok}
use head_end_system_tpp.Wire.RoundTrip.{bind_ok, read-write, copy-append, length-write}
use head_end_system_tpp.Messages.{Result, MsgType, Message, msg_type_code, msg_type_from_code}
use head_end_system_tpp.Messages.Rlp.{Rlp}
use head_end_system_tpp.Messages.Payload.{Decoded}
use head_end_system_tpp.Messages.Codec.{
  encode_message_payload, codec_encode, codec_decode, decode_fields, min_msg_len, payload_len,
  clear_on_err,
}
use head_end_system_tpp.Messages.Payload.RoundTrip.{
  IsPayload, encode_payload-append, decode_payload-encode,
}

-- The fields of the header and the tag fit their places.
pub record IsMessage (m : Message) : Type 0 where
  pub version_u8 : m.version < 256
  pub device_u128 : m.device_id < 256 ^ 16
  pub seq_u32 : m.seq < 256 ^ 4
  pub timestamp_u64 : m.timestamp < 256 ^ 8
  pub mac_u128 : m.mac < 256 ^ 16
  pub payload_ok : IsPayload m.msg_type m.payload

-- The codes of the types are different bytes.
from_code-code : (t : MsgType) → msg_type_from_code (msg_type_code t) ≡ Result.ok t
unfolding msg_type_from_code msg_type_code
from_code-code MsgType.handshake = refl
from_code-code MsgType.handshake_response = refl
from_code-code t = refl

code-lt : (t : MsgType) → msg_type_code t < 256
unfolding msg_type_code
code-lt MsgType.handshake = omega arith
code-lt t = omega arith

module _ (wire : Bytes) (rlp : Rlp) where
  -- What follows the header, in two parts.
  tail_of : Message → List ℕ
  tail_of m = encode_message_payload rlp m.payload [] ++ write wire 16 m.mac []

  length-tail :
      (m : Message) → length (tail_of m) ≡ length (encode_message_payload rlp m.payload []) + 16
  unfolding tail_of
  length-tail m = omega (
    arith,
    length-append (encode_message_payload rlp m.payload []) (write wire 16 m.mac []),
    length-write wire 16 m.mac [],
  )

  encode-tail :
      (m : Message)
      → codec_encode wire rlp m
        ≡ write wire 1 m.version (
            write wire 1 (msg_type_code m.msg_type) (
              write wire 16 m.device_id
                (write wire 4 m.seq (write wire 8 m.timestamp (tail_of m)))))
  unfolding codec_encode tail_of
  encode-tail m =
      ap
        (λ t. write wire 1 m.version (
          write wire 1 (msg_type_code m.msg_type)
            (write wire 16 m.device_id (write wire 4 m.seq (write wire 8 m.timestamp t)))))
        (encode_payload-append rlp m.payload (write wire 16 m.mac []))

  payload_len-tail :
      (m : Message)
      → payload_len (tail_of m) ≡ ok (length (encode_message_payload rlp m.payload [])) (tail_of m)
  unfolding payload_len
  payload_len-tail m = ground (arith, length-tail m)

  clear_ok :
      {A : Type 0} {r : Decoded A} (a : A) (buf : List ℕ)
      → r ≡ Result.ok a
      → clear_on_err r buf ≡ ok a buf
  unfolding clear_on_err
  clear_ok a buf h = rw (h, clear_on_err)

  decode_fields-encode :
      (m : Message)
      → IsMessage m
      → decode_fields wire rlp (codec_encode wire rlp m) ≡ ok (some m) []
  unfolding decode_fields tail_of
  decode_fields-encode m v = rw (encode-tail m) (
      bind_ok _ _ (read-write wire 1 m.version _ v.version_u8) (
        bind_ok _ _ (read-write wire 1 (msg_type_code m.msg_type) _ (code-lt m.msg_type)) (
          bind_ok _ _ (read-write wire 16 m.device_id _ v.device_u128) (
            bind_ok _ _ (read-write wire 4 m.seq _ v.seq_u32) (
              bind_ok _ _ (read-write wire 8 m.timestamp _ v.timestamp_u64) (
                bind_ok _ _ (payload_len-tail m) (
                  bind_ok _ _ (copy-append wire (encode_message_payload rlp m.payload []) _) (
                    bind_ok _ _ (read-write wire 16 m.mac [] v.mac_u128) (
                      bind_ok _ _ (clear_ok m.msg_type [] (from_code-code m.msg_type)) (
                        bind_ok _ _
                          (clear_ok m.payload []
                            (decode_payload-encode rlp m.msg_type m.payload v.payload_ok))
                          refl))))))))))

  length-encode : (m : Message) → min_msg_len ≤ length (codec_encode wire rlp m)
  length-encode m = rw (encode-tail m) (
      omega (
        arith,
        length-tail m,
        length-write wire 8 m.timestamp (tail_of m),
        length-write wire 4 m.seq (write wire 8 m.timestamp (tail_of m)),
        length-write wire 16 m.device_id
            (write wire 4 m.seq (write wire 8 m.timestamp (tail_of m))),
        length-write wire 1 (msg_type_code m.msg_type)
            (write wire 16 m.device_id (write wire 4 m.seq (write wire 8 m.timestamp (tail_of m)))),
        length-write wire 1 m.version (
            write wire 1 (msg_type_code m.msg_type) (
              write wire 16 m.device_id
                (write wire 4 m.seq (write wire 8 m.timestamp (tail_of m))))),
      ))

  -- Decoding the packet that encodes a message of a device gives the message back and leaves nothing,
  -- for each of the fifteen types, if the payload is the one of its type, its strings are UTF-8 and
  -- the numbers fit their fields.
  pub codec_decode-encode :
      (m : Message) → IsMessage m → codec_decode wire rlp (codec_encode wire rlp m) ≡ ok (some m) []
  unfolding codec_decode
  codec_decode-encode m v =
      rw (le→ltb (length (codec_encode wire rlp m)) min_msg_len (length-encode m), codec_decode)
        (decode_fields-encode m v)
