-- ===== src/Messages/Tests.antt =====
-- The theorems about messages at concrete packets, and runs of the codec.
use head_end_system_tpp.Prelude.{
  ℕ, ◌+◌, ◌*◌, ◌≡◌, ◌≤◌, ◌⊎◌, Option, refl, arith, some, List, [], ◌∷◌, ◌++◌, length,
}
use head_end_system_tpp.Wire.{ok, err, ◌>>=◌, read, copy}
use head_end_system_tpp.Wire.BigEndian.{big_endian, digits, read_digits, split, value}
use head_end_system_tpp.Messages.{
  MessageError, Result, invalid_length, unknown_msg_type, MsgType, MessagePayload, Message,
  msg_type_from_code, get_timestamp,
}
use head_end_system_tpp.Messages as Types
use head_end_system_tpp.Wire.Utf8.{is_utf8}
use head_end_system_tpp.Messages.Timestamp.{get_timestamp-new_message}
use head_end_system_tpp.Messages.Create.{new_message}
use head_end_system_tpp.Messages.Rlp.Framed.{framed}
use head_end_system_tpp.Messages.Codec.{codec_decode, decode_fields, codec_encode, min_msg_len}
use head_end_system_tpp.Messages.RoundTrip.{codec_decode-encode}
use head_end_system_tpp.Messages.Complete.{IsSettled, codec_decode-IsSettled}

-- "1.0.1" for 77 litres and "C.6.1" for a battery at 90 percent.
abbrev reading : Message
reading = record {
  version = 1;
  msg_type = MsgType.read_response;
  device_id = 42;
  seq = 1;
  timestamp = 1700000000;
  payload = MessagePayload.read_response (record {
    values =
        record { code = 49 ∷ 46 ∷ 48 ∷ 46 ∷ 49 ∷ []; value = 77 ∷ [] }
        ∷ record { code = 67 ∷ 46 ∷ 54 ∷ 46 ∷ 49 ∷ []; value = 90 ∷ [] }
        ∷ [];
  });
  mac = 0;
}

codec_decode-encode_example :
    codec_decode big_endian framed (codec_encode big_endian framed reading) ≡ ok (some reading) []
unfolding is_utf8
codec_decode-encode_example = codec_decode-encode big_endian framed reading (record {
  version_u8 = omega arith;
  device_u128 = omega arith;
  seq_u32 = omega arith;
  timestamp_u64 = omega arith;
  mac_u128 = omega arith;
  payload_ok = (refl, (refl, tt));
})

-- A header and a tag with a type that no message has.
abbrev unknown_type : List ℕ
unknown_type = 1 ∷ 0xab ∷ digits 16 0 ++ digits 12 0 ++ digits 16 0

codec_decode-IsSettled_example :
    IsSettled (codec_decode big_endian framed unknown_type)
    × ((min_msg_len ≤ length unknown_type)
        ⊎ (codec_decode big_endian framed unknown_type ≡ err invalid_length []))
codec_decode-IsSettled_example = codec_decode-IsSettled big_endian framed unknown_type (λ e. cc)

unknown_type_run : codec_decode big_endian framed unknown_type ≡ err unknown_msg_type []
unfolding codec_decode decode_fields digits read_digits split value ◌>>=◌ read copy
    msg_type_from_code
unknown_type_run = refl

from_timestamp : ℕ → ℕ → Option ℕ
from_timestamp s n = some (s * 1000000000 + n)

get_timestamp-new_message_example :
    (Types.◌>>=◌
        (new_message (some 1700000000) MsgType.ack 42 1 MessagePayload.ack)
        (get_timestamp from_timestamp)
      ≡ Result.ok 1700000000000000)
    × (Types.◌>>=◌
          (new_message (some 1700000030) MsgType.ack 42 1 MessagePayload.ack)
          (get_timestamp from_timestamp)
        ≡ Result.ok 1700000030000000)
unfolding from_timestamp
get_timestamp-new_message_example =
    get_timestamp-new_message from_timestamp 1700000000 30 42 1 MsgType.ack MessagePayload.ack
      (λ s n h. refl)
