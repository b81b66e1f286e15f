-- ===== src/Cluster/Protocol/RoundTrip.antt =====
-- Encoding and then decoding cluster messages (src/cluster/protocol/codec.rs).
use head_end_system_tpp.Prelude.{ℕ, ◌≡◌, refl, arith, List, [], length, some, le→ltb}
use head_end_system_tpp.Wire.{ok, Bytes}
use head_end_system_tpp.Wire.RoundTrip.{bind_ok}
use head_end_system_tpp.Cluster.Address.{AddrText, IsText}
use head_end_system_tpp.Cluster.Protocol.{ClusterMessageType, ClusterPayload, ClusterMessage}
use head_end_system_tpp.Cluster.Protocol.Heartbeat.{IsUuid, IsHeartbeat, decode_heartbeat-encode}
use head_end_system_tpp.Cluster.Protocol.Join.{IsNodeJoin, decode_node_join-encode}
use head_end_system_tpp.Cluster.Protocol.Delegate.{IsDelegateRequest, IsDelegateAccept}
use head_end_system_tpp.Cluster.Protocol.Delegate.{
  decode_delegate_request-encode, decode_delegate_accept-encode,
}
use head_end_system_tpp.Cluster.Protocol.Delegate.{decode_delegate_reject-encode}
use head_end_system_tpp.Cluster.Protocol.Status.{IsStatusResponse, decode_status_response-encode}
use head_end_system_tpp.Cluster.Protocol.Probe.{decode_node_suspect-encode, decode_node_dead-encode}
use head_end_system_tpp.Cluster.Protocol.Probe.{
  decode_probe_request-encode, decode_probe_response-encode,
}
use head_end_system_tpp.Cluster.Protocol.Config.{IsConfigUpdate, IsConfigUpdateAck}
use head_end_system_tpp.Cluster.Protocol.Config.{
  decode_config_update-encode, decode_config_update_ack-encode,
}
use head_end_system_tpp.Cluster.Protocol.Message.{
  IsHeader, encode_header, length-encode_header, decode_header-encode,
}
use head_end_system_tpp.Cluster.Protocol.Codec.{
  encode_payload, decode_payload, decode_message, decode, encode,
}

-- The payload is the one that the message type announces, with its fields in range.
abbrev pub IsPayload : AddrText → ClusterMessageType → ClusterPayload → Type 0
IsPayload text ClusterMessageType.heartbeat (ClusterPayload.heartbeat p) = IsHeartbeat p
IsPayload text ClusterMessageType.heartbeat_ack ClusterPayload.empty = Unit {0}
IsPayload text ClusterMessageType.status_request ClusterPayload.empty = Unit {0}
IsPayload text ClusterMessageType.status_response (ClusterPayload.status_response p) =
    IsStatusResponse text p
IsPayload text ClusterMessageType.delegate_request (ClusterPayload.delegate_request p) =
    IsDelegateRequest p
IsPayload text ClusterMessageType.delegate_accept (ClusterPayload.delegate_accept p) =
    IsDelegateAccept p
IsPayload text ClusterMessageType.delegate_reject (ClusterPayload.delegate_reject p) =
    IsText p.reason
IsPayload text ClusterMessageType.node_join (ClusterPayload.node_join p) = IsNodeJoin text p
IsPayload text ClusterMessageType.node_leave ClusterPayload.empty = Unit {0}
IsPayload text ClusterMessageType.node_suspect (ClusterPayload.node_suspect p) =
    IsUuid p.suspect_node_id
IsPayload text ClusterMessageType.node_dead (ClusterPayload.node_dead p) = IsUuid p.dead_node_id
IsPayload text ClusterMessageType.probe_request (ClusterPayload.probe_request p) =
    IsUuid p.target_node_id
IsPayload text ClusterMessageType.probe_response (ClusterPayload.probe_response p) =
    IsUuid p.target_node_id
IsPayload text ClusterMessageType.config_update (ClusterPayload.config_update p) = IsConfigUpdate p
IsPayload text ClusterMessageType.config_update_ack (ClusterPayload.config_update_ack p) =
    IsConfigUpdateAck p
IsPayload text t p = ⊥

module _ (bytes : Bytes) (text : AddrText) where
  pub decode_payload-encode :
      (t : ClusterMessageType) (p : ClusterPayload) (rest : List ℕ)
      → IsPayload text t p
      → decode_payload bytes text t (encode_payload bytes text p rest) ≡ ok p rest
  unfolding decode_payload encode_payload
  decode_payload-encode ClusterMessageType.heartbeat (ClusterPayload.heartbeat p) rest w =
      bind_ok _ _ (decode_heartbeat-encode bytes p rest w) refl
  decode_payload-encode ClusterMessageType.heartbeat_ack ClusterPayload.empty rest w = refl
  decode_payload-encode ClusterMessageType.status_request ClusterPayload.empty rest w = refl
  decode_payload-encode ClusterMessageType.status_response (ClusterPayload.status_response p) rest
        w =
      bind_ok _ _ (decode_status_response-encode bytes text p rest w) refl
  decode_payload-encode ClusterMessageType.delegate_request (ClusterPayload.delegate_request p) rest
        w =
      bind_ok _ _ (decode_delegate_request-encode bytes p rest w) refl
  decode_payload-encode ClusterMessageType.delegate_accept (ClusterPayload.delegate_accept p) rest
        w =
      bind_ok _ _ (decode_delegate_accept-encode bytes p rest w) refl
  decode_payload-encode ClusterMessageType.delegate_reject (ClusterPayload.delegate_reject p) rest
        w =
      bind_ok _ _ (decode_delegate_reject-encode bytes p rest w) refl
  decode_payload-encode ClusterMessageType.node_join (ClusterPayload.node_join p) rest w =
      bind_ok _ _ (decode_node_join-encode bytes text p rest w) refl
  decode_payload-encode ClusterMessageType.node_leave ClusterPayload.empty rest w = refl
  decode_payload-encode ClusterMessageType.node_suspect (ClusterPayload.node_suspect p) rest w =
      bind_ok _ _ (decode_node_suspect-encode bytes p rest w) refl
  decode_payload-encode ClusterMessageType.node_dead (ClusterPayload.node_dead p) rest w =
      bind_ok _ _ (decode_node_dead-encode bytes p rest w) refl
  decode_payload-encode ClusterMessageType.probe_request (ClusterPayload.probe_request p) rest w =
      bind_ok _ _ (decode_probe_request-encode bytes p rest w) refl
  decode_payload-encode ClusterMessageType.probe_response (ClusterPayload.probe_response p) rest w =
      bind_ok _ _ (decode_probe_response-encode bytes p rest w) refl
  decode_payload-encode ClusterMessageType.config_update (ClusterPayload.config_update p) rest w =
      bind_ok _ _ (decode_config_update-encode bytes p rest w) refl
  decode_payload-encode ClusterMessageType.config_update_ack (ClusterPayload.config_update_ack p)
        rest w =
      bind_ok _ _ (decode_config_update_ack-encode bytes p rest w) refl
  decode_payload-encode t p rest w = absurd w

  -- A message whose fields are in range and whose payload fits its type is encoded to bytes that
  -- decode to that message, with nothing left in the buffer.
  pub decode-encode :
      (m : ClusterMessage)
      → IsHeader m
      → IsPayload text m.msg_type m.payload
      → decode bytes text (encode bytes text m) ≡ ok (some m) []
  unfolding decode encode decode_message
  decode-encode m h w =
      let body = encode_payload bytes text m.payload [] in
      let long =
        le→ltb (length (encode_header bytes m body)) 30
          (omega (arith, length-encode_header bytes m body)) in
      rw (long, decode)
        (bind_ok _ _ (decode_header-encode bytes m body h)
          (bind_ok _ _ (decode_payload-encode m.msg_type m.payload [] w) refl))
