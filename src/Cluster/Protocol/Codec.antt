-- ===== src/Cluster/Protocol/Codec.antt =====
-- The codec of cluster messages (src/cluster/protocol/codec.rs), and the payload's `encode`.
use head_end_system_tpp.Prelude.{ℕ, List, [], ◌∷◌, length, ltb, true, false, Option, none, some}
use head_end_system_tpp.Wire.{ok, err, Decoder, ◌>>=◌, return, Encoder, Bytes}
use head_end_system_tpp.Cluster.Address.{AddrText}
use head_end_system_tpp.Cluster.Protocol.{
  ClusterCodecError, invalid_length, ClusterMessageType, ClusterPayload,
}
use head_end_system_tpp.Cluster.Protocol.{ClusterMessage}
use head_end_system_tpp.Cluster.Protocol.Heartbeat.{encode_heartbeat, decode_heartbeat}
use head_end_system_tpp.Cluster.Protocol.Join.{encode_node_join, decode_node_join}
use head_end_system_tpp.Cluster.Protocol.Delegate.{encode_delegate_request, decode_delegate_request}
use head_end_system_tpp.Cluster.Protocol.Delegate.{encode_delegate_accept, decode_delegate_accept}
use head_end_system_tpp.Cluster.Protocol.Delegate.{encode_delegate_reject, decode_delegate_reject}
use head_end_system_tpp.Cluster.Protocol.Status.{encode_status_response, decode_status_response}
use head_end_system_tpp.Cluster.Protocol.Probe.{encode_node_suspect, decode_node_suspect}
use head_end_system_tpp.Cluster.Protocol.Probe.{encode_node_dead, decode_node_dead}
use head_end_system_tpp.Cluster.Protocol.Probe.{encode_probe_request, decode_probe_request}
use head_end_system_tpp.Cluster.Protocol.Probe.{encode_probe_response, decode_probe_response}
use head_end_system_tpp.Cluster.Protocol.Config.{encode_config_update, decode_config_update}
use head_end_system_tpp.Cluster.Protocol.Config.{encode_config_update_ack, decode_config_update_ack}
use head_end_system_tpp.Cluster.Protocol.Message.{cluster_header_size, encode_header, decode_header}

module _ (bytes : Bytes) (text : AddrText) where
  unfoldable pub encode_payload : ClusterPayload → Encoder
  encode_payload ClusterPayload.empty rest = rest
  encode_payload (ClusterPayload.heartbeat p) rest = encode_heartbeat bytes p rest
  encode_payload (ClusterPayload.node_join p) rest = encode_node_join bytes text p rest
  encode_payload (ClusterPayload.node_suspect p) rest = encode_node_suspect bytes p rest
  encode_payload (ClusterPayload.node_dead p) rest = encode_node_dead bytes p rest
  encode_payload (ClusterPayload.delegate_request p) rest = encode_delegate_request bytes p rest
  encode_payload (ClusterPayload.delegate_accept p) rest = encode_delegate_accept bytes p rest
  encode_payload (ClusterPayload.delegate_reject p) rest = encode_delegate_reject bytes p rest
  encode_payload (ClusterPayload.status_response p) rest = encode_status_response bytes text p rest
  encode_payload (ClusterPayload.probe_request p) rest = encode_probe_request bytes p rest
  encode_payload (ClusterPayload.probe_response p) rest = encode_probe_response bytes p rest
  encode_payload (ClusterPayload.config_update p) rest = encode_config_update bytes p rest
  encode_payload (ClusterPayload.config_update_ack p) rest = encode_config_update_ack bytes p rest

  unfoldable pub decode_payload : ClusterMessageType → Decoder ClusterCodecError ClusterPayload
  decode_payload ClusterMessageType.heartbeat = do
    p ← decode_heartbeat bytes
    return (ClusterPayload.heartbeat p)
  decode_payload ClusterMessageType.heartbeat_ack = return ClusterPayload.empty
  decode_payload ClusterMessageType.status_request = return ClusterPayload.empty
  decode_payload ClusterMessageType.status_response = do
    p ← decode_status_response bytes text
    return (ClusterPayload.status_response p)
  decode_payload ClusterMessageType.delegate_request = do
    p ← decode_delegate_request bytes
    return (ClusterPayload.delegate_request p)
  decode_payload ClusterMessageType.delegate_accept = do
    p ← decode_delegate_accept bytes
    return (ClusterPayload.delegate_accept p)
  decode_payload ClusterMessageType.delegate_reject = do
    p ← decode_delegate_reject bytes
    return (ClusterPayload.delegate_reject p)
  decode_payload ClusterMessageType.node_join = do
    p ← decode_node_join bytes text
    return (ClusterPayload.node_join p)
  decode_payload ClusterMessageType.node_leave = return ClusterPayload.empty
  decode_payload ClusterMessageType.node_suspect = do
    p ← decode_node_suspect bytes
    return (ClusterPayload.node_suspect p)
  decode_payload ClusterMessageType.node_dead = do
    p ← decode_node_dead bytes
    return (ClusterPayload.node_dead p)
  decode_payload ClusterMessageType.probe_request = do
    p ← decode_probe_request bytes
    return (ClusterPayload.probe_request p)
  decode_payload ClusterMessageType.probe_response = do
    p ← decode_probe_response bytes
    return (ClusterPayload.probe_response p)
  decode_payload ClusterMessageType.config_update = do
    p ← decode_config_update bytes
    return (ClusterPayload.config_update p)
  decode_payload ClusterMessageType.config_update_ack = do
    p ← decode_config_update_ack bytes
    return (ClusterPayload.config_update_ack p)

  -- `decode` behind its check of the length.
  unfoldable pub decode_message : Decoder ClusterCodecError (Option ClusterMessage)
  decode_message = do
    h ← decode_header bytes
    payload ← decode_payload h.msg_type
    return (
        some (record {
          version = h.version;
          msg_type = h.msg_type;
          node_id = h.node_id;
          seq = h.seq;
          timestamp = h.timestamp;
          payload = payload;
        }))

  -- A buffer that is too short is cleared.
  unfoldable pub discard : Decoder ClusterCodecError (Option ClusterMessage)
  discard [] = ok none []
  discard (b ∷ buf) = err invalid_length []

  unfoldable pub decode : Decoder ClusterCodecError (Option ClusterMessage)
  unfolding discard
  decode buf = elim (ltb (length buf) cluster_header_size) [
    | true ↦ discard buf
    | false ↦ decode_message buf
  ]

  -- What `encode` appends to the buffer.
  unfoldable pub encode : ClusterMessage → List ℕ
  encode m = encode_header bytes m (encode_payload m.payload [])
