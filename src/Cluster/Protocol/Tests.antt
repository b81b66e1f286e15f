-- ===== src/Cluster/Protocol/Tests.antt =====
-- The theorems about cluster messages at concrete packets, over a concrete buffer
-- (src/cluster/protocol).
use head_end_system_tpp.Prelude.{ℕ, ◌≡◌, refl, arith, List, [], ◌∷◌, none, some}
use head_end_system_tpp.Prelude.{true, false}
use head_end_system_tpp.Wire.{ok, err, panic}
use head_end_system_tpp.Wire.BigEndian.{big_endian}
use head_end_system_tpp.Wire.Utf8.{is_utf8}
use head_end_system_tpp.Cluster.Address.{SocketAddr, AddrText, IsText, IsPrintable}
use head_end_system_tpp.Cluster.Node.{active, starting}
use head_end_system_tpp.Cluster.Protocol.{ClusterMessage, ClusterMessageType, ClusterPayload}
use head_end_system_tpp.Cluster.Protocol.{HeartbeatPayload, StatusResponsePayload}
use head_end_system_tpp.Cluster.Protocol.{invalid_length}
use head_end_system_tpp.Cluster.Protocol.Message
use head_end_system_tpp.Cluster.Protocol.Message.{
  Header, IsHeader, encode_header, decode_header, type_from_code_iff,
}
use head_end_system_tpp.Cluster.Protocol.Codec.{decode, encode}
use head_end_system_tpp.Cluster.Protocol.RoundTrip.{IsPayload, decode-encode}
use head_end_system_tpp.Cluster.Protocol.Panics.{
  has_optional, decode_panics, cut_ack, decode-cut_ack,
}
use head_end_system_tpp.Cluster.Protocol.Sent.{Built, decode-encode_built}

-- 127.0.0.1:6570, and the text form of that address alone.
abbrev loopback : SocketAddr
loopback = SocketAddr.v4 0x7f000001 6570

abbrev loopback_text : AddrText
loopback_text = record {
  to_string = λ a.
      b'1' ∷ b'2' ∷ b'7' ∷ b'.' ∷ b'0' ∷ b'.' ∷ b'0' ∷ b'.' ∷ b'1' ∷ b':' ∷ b'6' ∷ b'5' ∷ b'7'
      ∷ b'0' ∷ [];
  parse = λ s. some loopback;
}

abbrev hes : List ℕ
hes = b'h' ∷ b'e' ∷ b's' ∷ []

hes-IsText : IsText hes
unfolding is_utf8
hes-IsText = record { utf8 = refl; short = omega arith }

loopback-IsPrintable : IsPrintable loopback_text loopback
unfolding is_utf8
loopback-IsPrintable = record {
  parses = refl;
  printed = record { utf8 = refl; short = omega arith };
}

abbrev answer : StatusResponsePayload
answer = record {
  node_name = hes;
  status = active;
  bucket_count = 48;
  device_count = 100;
  load_percent = 10;
  max_device_suggested = 1000;
  backdoor_port = 6565;
  known_nodes =
      record {
        node_id = 7;
        node_name = hes;
        cluster_addr = loopback;
        backdoor_port = 6565;
        status = starting;
      }
      ∷ [];
}

abbrev message : ClusterMessage
message = record {
  version = 1;
  msg_type = ClusterMessageType.status_response;
  node_id = 3;
  seq = 5;
  timestamp = 1_700_000_000_000;
  payload = ClusterPayload.status_response answer;
}

message-IsPayload : IsPayload loopback_text ClusterMessageType.status_response message.payload
message-IsPayload = record {
  name = hes-IsText;
  buckets = omega arith;
  devices = omega arith;
  load = omega arith;
  target = omega arith;
  port = omega arith;
  nodes = (
    record {
      id = omega arith;
      name = hes-IsText;
      address = loopback-IsPrintable;
      port = omega arith;
    },
    tt,
  );
  count = omega arith;
}

decode-encode_example :
    decode big_endian loopback_text (encode big_endian loopback_text message) ≡ ok (some message) []
decode-encode_example =
    decode-encode big_endian loopback_text message
      (record {
        version_u8 = omega arith;
        node_u128 = omega arith;
        seq_u32 = omega arith;
        timestamp_u64 = omega arith;
      })
      message-IsPayload

decode-encode_built_example :
    decode big_endian loopback_text
      (encode big_endian loopback_text (Message.status_response (some 9) 3 5 answer))
    ≡ ok (some (Message.status_response (some 9) 3 5 answer)) []
decode-encode_built_example =
    decode-encode_built big_endian loopback_text (some 9) 3 5
      (Built.status_response answer message-IsPayload) (omega arith) (omega arith)

abbrev ack_header : ClusterMessage
ack_header = record {
  version = 1;
  msg_type = ClusterMessageType.config_update_ack;
  node_id = 3;
  seq = 5;
  timestamp = 0;
  payload = ClusterPayload.empty;
}

decode-cut_ack_example :
    decode big_endian loopback_text (cut_ack big_endian ack_header 9 false (0 ∷ [])) ≡ panic
decode-cut_ack_example =
    decode-cut_ack big_endian loopback_text ack_header 9 false (0 ∷ [])
      (record {
        version_u8 = omega arith;
        node_u128 = omega arith;
        seq_u32 = omega arith;
        timestamp_u64 = omega arith;
      })
      refl (omega arith) (omega arith)

decode_panics_example :
    (h : Header) × (rest : List ℕ) × (decode_header big_endian
        (cut_ack big_endian ack_header 9 false (0 ∷ []))
      ≡ ok h rest)
    × (has_optional h.msg_type ≡ true)
decode_panics_example =
    decode_panics big_endian loopback_text (cut_ack big_endian ack_header 9 false (0 ∷ []))
      decode-cut_ack_example

abbrev beat : HeartbeatPayload
beat = record {
  status = active;
  bucket_count = 1;
  device_count = 2;
  load_percent = 3;
  max_device_suggested = 4;
  known_nodes = 5 ∷ 6 ∷ [];
}

-- The tests of codec.rs: an empty buffer holds no message, a short one is an error.
empty_buffer : decode big_endian loopback_text [] ≡ ok none []
unfolding decode
empty_buffer = refl

short_buffer : decode big_endian loopback_text (0 ∷ 0 ∷ []) ≡ err invalid_length []
unfolding decode
short_buffer = refl
