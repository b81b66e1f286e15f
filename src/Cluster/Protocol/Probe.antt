-- ===== src/Cluster/Protocol/Probe.antt =====
-- NODE_SUSPECT, NODE_DEAD, PROBE_REQUEST and PROBE_RESPONSE payloads
-- (src/cluster/protocol/payload.rs).
use head_end_system_tpp.Prelude.{ℕ, ◌≡◌, refl, arith, List, ◌==◌}
use head_end_system_tpp.Wire.{ok, Decoder, ◌>>=◌, ◌>>◌, return, ensure, Encoder}
use head_end_system_tpp.Wire.{Bytes, write, read}
use head_end_system_tpp.Wire.RoundTrip.{bind_ok, ensure_ok, read-write, length-write}
use head_end_system_tpp.Wire.Safety.{SafeFrom, return_safe, ensure_safe, read_safe}
use head_end_system_tpp.Cluster.Protocol.{ClusterCodecError, invalid_length}
use head_end_system_tpp.Cluster.Protocol.{NodeSuspectPayload, NodeDeadPayload}
use head_end_system_tpp.Cluster.Protocol.{ProbeRequestPayload, ProbeResponsePayload}
use head_end_system_tpp.Cluster.Protocol.Text.{bool_byte, bool_byte-lt, bool_byte_one}
use head_end_system_tpp.Cluster.Protocol.Heartbeat.{IsUuid}

module _ (bytes : Bytes) where
  unfoldable pub encode_node_suspect : NodeSuspectPayload → Encoder
  encode_node_suspect p rest = write bytes 16 p.suspect_node_id rest

  unfoldable pub decode_node_suspect : Decoder ClusterCodecError NodeSuspectPayload
  decode_node_suspect = do
    ensure 16 invalid_length
    id ← read bytes 16
    return (record { suspect_node_id = id })

  unfoldable pub encode_node_dead : NodeDeadPayload → Encoder
  encode_node_dead p rest = write bytes 16 p.dead_node_id rest

  unfoldable pub decode_node_dead : Decoder ClusterCodecError NodeDeadPayload
  decode_node_dead = do
    ensure 16 invalid_length
    id ← read bytes 16
    return (record { dead_node_id = id })

  unfoldable pub encode_probe_request : ProbeRequestPayload → Encoder
  encode_probe_request p rest = write bytes 16 p.target_node_id rest

  unfoldable pub decode_probe_request : Decoder ClusterCodecError ProbeRequestPayload
  decode_probe_request = do
    ensure 16 invalid_length
    id ← read bytes 16
    return (record { target_node_id = id })

  unfoldable pub encode_probe_response : ProbeResponsePayload → Encoder
  encode_probe_response p rest =
      write bytes 16 p.target_node_id (write bytes 1 (bool_byte p.is_alive) rest)

  unfoldable pub decode_probe_response : Decoder ClusterCodecError ProbeResponsePayload
  decode_probe_response = do
    ensure 17 invalid_length
    id ← read bytes 16
    alive ← read bytes 1
    return (record { target_node_id = id; is_alive = alive == 1 })

  pub decode_node_suspect-encode :
      (p : NodeSuspectPayload) (rest : List ℕ)
      → IsUuid p.suspect_node_id
      → decode_node_suspect (encode_node_suspect p rest) ≡ ok p rest
  unfolding decode_node_suspect encode_node_suspect
  decode_node_suspect-encode p rest w =
      bind_ok _ _ (ensure_ok _ _ _ (simp (length-write bytes) (omega arith)))
        (bind_ok _ _ (read-write bytes 16 _ _ w) refl)

  pub decode_node_dead-encode :
      (p : NodeDeadPayload) (rest : List ℕ)
      → IsUuid p.dead_node_id
      → decode_node_dead (encode_node_dead p rest) ≡ ok p rest
  unfolding decode_node_dead encode_node_dead
  decode_node_dead-encode p rest w =
      bind_ok _ _ (ensure_ok _ _ _ (simp (length-write bytes) (omega arith)))
        (bind_ok _ _ (read-write bytes 16 _ _ w) refl)

  pub decode_probe_request-encode :
      (p : ProbeRequestPayload) (rest : List ℕ)
      → IsUuid p.target_node_id
      → decode_probe_request (encode_probe_request p rest) ≡ ok p rest
  unfolding decode_probe_request encode_probe_request
  decode_probe_request-encode p rest w =
      bind_ok _ _ (ensure_ok _ _ _ (simp (length-write bytes) (omega arith)))
        (bind_ok _ _ (read-write bytes 16 _ _ w) refl)

  pub decode_probe_response-encode :
      (p : ProbeResponsePayload) (rest : List ℕ)
      → IsUuid p.target_node_id
      → decode_probe_response (encode_probe_response p rest) ≡ ok p rest
  unfolding decode_probe_response encode_probe_response
  decode_probe_response-encode p rest w =
      bind_ok _ _ (ensure_ok _ _ _ (simp (length-write bytes) (omega arith))) (
        bind_ok _ _ (read-write bytes 16 _ _ w) (
          bind_ok _ _ (read-write bytes 1 _ _ (bool_byte-lt p.is_alive))
            (rw (bool_byte_one p.is_alive))))

  pub decode_node_suspect_safe : SafeFrom 0 decode_node_suspect
  unfolding decode_node_suspect
  decode_node_suspect_safe =
      ensure_safe 16 _ _ (read_safe bytes 16 _ (omega arith) λ id. return_safe 0 _)

  pub decode_node_dead_safe : SafeFrom 0 decode_node_dead
  unfolding decode_node_dead
  decode_node_dead_safe =
      ensure_safe 16 _ _ (read_safe bytes 16 _ (omega arith) λ id. return_safe 0 _)

  pub decode_probe_request_safe : SafeFrom 0 decode_probe_request
  unfolding decode_probe_request
  decode_probe_request_safe =
      ensure_safe 16 _ _ (read_safe bytes 16 _ (omega arith) λ id. return_safe 0 _)

  pub decode_probe_response_safe : SafeFrom 0 decode_probe_response
  unfolding decode_probe_response
  decode_probe_response_safe = ensure_safe 17 _ _ (
      read_safe bytes 16 _ (omega arith)
        λ id. read_safe bytes 1 _ (omega arith) λ alive. return_safe 0 _)
