-- ===== src/Cluster/Protocol/Message.antt =====
-- Cluster messages: their header and their constructors (src/cluster/protocol/message.rs).
use head_end_system_tpp.Prelude.{
  ℕ, ◌+◌, ◌%◌, ◌^◌, ◌<◌, ◌≡◌, ◌↔◌, refl, arith, List, length, Option, some, Bool,
}
use head_end_system_tpp.Wire.{ok, Decoder, ◌>>=◌, ◌>>◌, return, ensure, ok_or, Encoder}
use head_end_system_tpp.Wire.{Bytes, write, read}
use head_end_system_tpp.Wire.RoundTrip.{bind_ok, ensure_ok, ok_or_ok, read-write, length-write}
use head_end_system_tpp.Wire.Safety.{SafeFrom, return_safe, ensure_safe, ok_or_safe, read_safe}
use head_end_system_tpp.Cluster.Protocol.{ClusterCodecError, invalid_length, unknown_message_type}
use head_end_system_tpp.Cluster.Protocol.{
  ClusterMessageType, type_code, type_from_code, ClusterMessage, ClusterPayload,
}
use head_end_system_tpp.Cluster.Protocol.{HeartbeatPayload, NodeJoinPayload, DelegateRequestPayload}
use head_end_system_tpp.Cluster.Protocol.{DelegateAcceptPayload, StatusResponsePayload}
use head_end_system_tpp.Cluster.Protocol.{ConfigUpdatePayload, ConfigUpdateAckPayload}
use head_end_system_tpp.Cluster.Protocol.Heartbeat.{IsUuid}
use mathlib.Core.Option

abbrev pub cluster_header_size : ℕ
cluster_header_size = 30

abbrev cluster_protocol_version : ℕ
cluster_protocol_version = 1

-- A byte is accepted exactly when it is the code of the message type that it decodes to.
pub type_from_code_iff :
    (c : ℕ) (t : ClusterMessageType) → (type_from_code c ≡ some t) ↔ (c ≡ type_code t)
unfolding type_from_code type_code
type_from_code_iff c ClusterMessageType.heartbeat = (ground arith, ground arith)
type_from_code_iff c t = (ground arith, ground arith)

type_code-lt : (t : ClusterMessageType) → type_code t < 256
unfolding type_code
type_code-lt ClusterMessageType.heartbeat = omega arith
type_code-lt t = omega arith

-- What `decode_header` returns.
pub record Header : Type 0 where
  pub version : ℕ
  pub msg_type : ClusterMessageType
  pub node_id : ℕ
  pub seq : ℕ
  pub timestamp : ℕ

module _ (bytes : Bytes) where
  unfoldable pub encode_header : ClusterMessage → Encoder
  encode_header m rest = write bytes 1 m.version (
      write bytes 1 (type_code m.msg_type)
        (write bytes 16 m.node_id (write bytes 4 m.seq (write bytes 8 m.timestamp rest))))

  unfoldable pub decode_header : Decoder ClusterCodecError Header
  decode_header = do
    ensure cluster_header_size invalid_length
    version ← read bytes 1
    msg_type_byte ← read bytes 1
    node_id ← read bytes 16
    seq ← read bytes 4
    timestamp ← read bytes 8
    msg_type ← ok_or (type_from_code msg_type_byte) (unknown_message_type msg_type_byte)
    return (record {
      version = version;
      msg_type = msg_type;
      node_id = node_id;
      seq = seq;
      timestamp = timestamp;
    })

abbrev pub header_of : ClusterMessage → Header
header_of m = record {
  version = m.version;
  msg_type = m.msg_type;
  node_id = m.node_id;
  seq = m.seq;
  timestamp = m.timestamp;
}

pub record IsHeader (m : ClusterMessage) : Type 0 where
  pub version_u8 : m.version < 2 ^ 8
  pub node_u128 : IsUuid m.node_id
  pub seq_u32 : m.seq < 2 ^ 32
  pub timestamp_u64 : m.timestamp < 2 ^ 64

module _ (bytes : Bytes) where
  pub length-encode_header :
      (m : ClusterMessage) (rest : List ℕ) → length (encode_header bytes m rest) ≡ 30 + length rest
  unfolding encode_header
  length-encode_header m rest = simp (length-write bytes) (omega arith)

  pub decode_header-encode :
      (m : ClusterMessage) (rest : List ℕ)
      → IsHeader m
      → decode_header bytes (encode_header bytes m rest) ≡ ok (header_of m) rest
  unfolding decode_header encode_header
  decode_header-encode m rest w =
      bind_ok _ _ (ensure_ok _ _ _ (simp (length-write bytes) (omega arith))) (
        bind_ok _ _ (read-write bytes 1 _ _ w.version_u8) (
          bind_ok _ _ (read-write bytes 1 _ _ (type_code-lt m.msg_type)) (
            bind_ok _ _ (read-write bytes 16 _ _ w.node_u128) (
              bind_ok _ _ (read-write bytes 4 _ _ w.seq_u32) (
                bind_ok _ _ (read-write bytes 8 _ _ w.timestamp_u64)
                  (bind_ok _ _ (ok_or_ok _ _ ((type_from_code_iff _ m.msg_type).1 refl)) refl))))))

  pub decode_header_safe : SafeFrom 0 (decode_header bytes)
  unfolding decode_header
  decode_header_safe = ensure_safe 30 _ _ (
      read_safe bytes 1 _ (omega arith) λ version. read_safe bytes 1 _ (omega arith) λ code.
        read_safe bytes 16 _ (omega arith) λ node_id. read_safe bytes 4 _ (omega arith) λ seq.
          read_safe bytes 8 _ (omega arith)
            λ timestamp. ok_or_safe _ _ _ λ msg_type. return_safe 0 _)

-- The constructors of `ClusterMessage`. `now` is the time since the epoch in milliseconds, `none`
-- for a clock before it.
module _ (now : Option ℕ) (node_id seq : ℕ) where
  unfoldable pub new : ClusterMessageType → ClusterPayload → ClusterMessage
  new msg_type payload = record {
    version = cluster_protocol_version;
    msg_type = msg_type;
    node_id = node_id;
    seq = seq;
    timestamp = Option.get_or (Option.map (λ ms. ms % 2 ^ 64) now) 0;
    payload = payload;
  }

  unfoldable pub heartbeat : HeartbeatPayload → ClusterMessage
  unfolding new
  heartbeat p = new ClusterMessageType.heartbeat (ClusterPayload.heartbeat p)

  unfoldable pub heartbeat_ack : ClusterMessage
  unfolding new
  heartbeat_ack = new ClusterMessageType.heartbeat_ack ClusterPayload.empty

  unfoldable pub node_join : NodeJoinPayload → ClusterMessage
  unfolding new
  node_join p = new ClusterMessageType.node_join (ClusterPayload.node_join p)

  unfoldable pub node_leave : ClusterMessage
  unfolding new
  node_leave = new ClusterMessageType.node_leave ClusterPayload.empty

  unfoldable pub node_suspect : ℕ → ClusterMessage
  unfolding new
  node_suspect id =
      new ClusterMessageType.node_suspect
        (ClusterPayload.node_suspect (record { suspect_node_id = id }))

  unfoldable pub node_dead : ℕ → ClusterMessage
  unfolding new
  node_dead id =
      new ClusterMessageType.node_dead (ClusterPayload.node_dead (record { dead_node_id = id }))

  unfoldable pub delegate_request : DelegateRequestPayload → ClusterMessage
  unfolding new
  delegate_request p = new ClusterMessageType.delegate_request (ClusterPayload.delegate_request p)

  unfoldable pub delegate_accept : DelegateAcceptPayload → ClusterMessage
  unfolding new
  delegate_accept p = new ClusterMessageType.delegate_accept (ClusterPayload.delegate_accept p)

  unfoldable pub delegate_reject : List ℕ → ClusterMessage
  unfolding new
  delegate_reject r =
      new ClusterMessageType.delegate_reject
        (ClusterPayload.delegate_reject (record { reason = r }))

  unfoldable pub status_request : ClusterMessage
  unfolding new
  status_request = new ClusterMessageType.status_request ClusterPayload.empty

  unfoldable pub status_response : StatusResponsePayload → ClusterMessage
  unfolding new
  status_response p = new ClusterMessageType.status_response (ClusterPayload.status_response p)

  unfoldable pub probe_request : ℕ → ClusterMessage
  unfolding new
  probe_request id =
      new ClusterMessageType.probe_request
        (ClusterPayload.probe_request (record { target_node_id = id }))

  unfoldable pub config_update : ConfigUpdatePayload → ClusterMessage
  unfolding new
  config_update p = new ClusterMessageType.config_update (ClusterPayload.config_update p)

  unfoldable pub config_update_ack : ConfigUpdateAckPayload → ClusterMessage
  unfolding new
  config_update_ack p =
      new ClusterMessageType.config_update_ack (ClusterPayload.config_update_ack p)

  unfoldable pub probe_response : ℕ → Bool → ClusterMessage
  unfolding new
  probe_response id alive =
      new ClusterMessageType.probe_response
        (ClusterPayload.probe_response (record { target_node_id = id; is_alive = alive }))
