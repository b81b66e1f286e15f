-- ===== src/Cluster/Protocol/Heartbeat.antt =====
-- HEARTBEAT payloads (`HeartbeatPayload` of src/cluster/protocol/payload.rs).
use head_end_system_tpp.Prelude.{ℕ, ◌+◌, ◌*◌, ◌^◌, ◌<◌, ◌≡◌, refl, arith, List, length, All}
use head_end_system_tpp.Wire.{
  ok, Decoder, ◌>>=◌, ◌>>◌, return, ensure, ok_or, repeat, Encoder, each,
}
use head_end_system_tpp.Wire.{Bytes, write, read, as_u16}
use head_end_system_tpp.Wire.RoundTrip.{
  bind_ok, ensure_ok, ok_or_ok, read-write, length-write, repeat-each, length-each,
}
use head_end_system_tpp.Wire.Safety.{
  SafeFrom, return_safe, ensure_safe, ok_or_safe, read_safe, repeat-read_safe,
}
use head_end_system_tpp.Cluster.Node.{status_code, status_from_code}
use head_end_system_tpp.Cluster.Node.Codes.{status_from_code-status_code, status_code-lt}
use head_end_system_tpp.Cluster.Protocol.{
  ClusterCodecError, invalid_length, invalid_payload, unknown_status,
}
use head_end_system_tpp.Cluster.Protocol.{HeartbeatPayload}

-- status, bucket_count, device_count, load, max_device_suggested and the count of nodes
abbrev pub heartbeat_min_size : ℕ
heartbeat_min_size = 14

unfoldable pub heartbeat_encoded_size : HeartbeatPayload → ℕ
heartbeat_encoded_size p = heartbeat_min_size + length p.known_nodes * 16

module _ (bytes : Bytes) where
  unfoldable pub encode_heartbeat : HeartbeatPayload → Encoder
  encode_heartbeat p rest = write bytes 1 (status_code p.status) (
      write bytes 2 p.bucket_count (
        write bytes 4 p.device_count (
          write bytes 1 p.load_percent (
            write bytes 4 p.max_device_suggested (
              write bytes 2 (as_u16 (length p.known_nodes))
                (each (write bytes 16) p.known_nodes rest))))))

  unfoldable pub decode_heartbeat : Decoder ClusterCodecError HeartbeatPayload
  decode_heartbeat = do
    ensure heartbeat_min_size invalid_length
    status_byte ← read bytes 1
    status ← ok_or (status_from_code status_byte) (invalid_payload (unknown_status status_byte))
    bucket_count ← read bytes 2
    device_count ← read bytes 4
    load_percent ← read bytes 1
    max_device_suggested ← read bytes 4
    node_count ← read bytes 2
    ensure (node_count * 16) invalid_length
    known_nodes ← repeat node_count (read bytes 16)
    return (record {
      status = status;
      bucket_count = bucket_count;
      device_count = device_count;
      load_percent = load_percent;
      max_device_suggested = max_device_suggested;
      known_nodes = known_nodes;
    })

abbrev pub IsUuid : ℕ → Type 0
IsUuid n = n < 256 ^ 16

-- The ranges of the machine integers, and fewer nodes than a 16-bit count announces.
pub record IsHeartbeat (p : HeartbeatPayload) : Type 0 where
  pub buckets : p.bucket_count < 2 ^ 16
  pub devices : p.device_count < 2 ^ 32
  pub load : p.load_percent < 2 ^ 8
  pub target : p.max_device_suggested < 2 ^ 32
  pub known : All IsUuid p.known_nodes
  pub count : length p.known_nodes < 2 ^ 16

module _ (bytes : Bytes) where
  pub uuids_length :
      (ids rest : List ℕ) → length (each (write bytes 16) ids rest) ≡ length ids * 16 + length rest
  uuids_length = length-each bytes (write bytes 16) 16 (length-write bytes 16)

  pub decode_heartbeat-encode :
      (p : HeartbeatPayload) (rest : List ℕ)
      → IsHeartbeat p
      → decode_heartbeat bytes (encode_heartbeat bytes p rest) ≡ ok p rest
  unfolding decode_heartbeat encode_heartbeat
  decode_heartbeat-encode p rest w =
      let count : as_u16 (length p.known_nodes) ≡ length p.known_nodes = omega (arith, w.count) in
      bind_ok _ _ (ensure_ok _ _ _ (simp (length-write bytes) (omega arith))) (
        bind_ok _ _ (read-write bytes 1 _ _ (status_code-lt p.status)) (
          bind_ok _ _ (ok_or_ok _ _ (status_from_code-status_code p.status)) (
            bind_ok _ _ (read-write bytes 2 _ _ w.buckets) (
              bind_ok _ _ (read-write bytes 4 _ _ w.devices) (
                bind_ok _ _ (read-write bytes 1 _ _ w.load) (
                  bind_ok _ _ (read-write bytes 4 _ _ w.target) (
                    bind_ok _ _ (read-write bytes 2 _ _ (omega arith)) (
                      rw count (
                        bind_ok _ _
                          (ensure_ok _ _ _ (omega (arith, uuids_length p.known_nodes rest)))
                          (bind_ok _ _
                            (repeat-each _ _ IsUuid (read-write bytes 16) p.known_nodes rest
                              w.known)
                            refl))))))))))

  -- A heartbeat payload takes as many bytes in the buffer as `encoded_size` says.
  pub length-encode_heartbeat :
      (p : HeartbeatPayload) (rest : List ℕ)
      → length (encode_heartbeat bytes p rest) ≡ heartbeat_encoded_size p + length rest
  unfolding encode_heartbeat heartbeat_encoded_size
  length-encode_heartbeat p rest =
      simp (length-write bytes) (omega (arith, uuids_length p.known_nodes rest))

  pub decode_heartbeat_safe : SafeFrom 0 (decode_heartbeat bytes)
  unfolding decode_heartbeat
  decode_heartbeat_safe = ensure_safe 14 _ _ (
      read_safe bytes 1 _ (omega arith) λ b. ok_or_safe _ _ _ λ status.
        read_safe bytes 2 _ (omega arith) λ buckets. read_safe bytes 4 _ (omega arith) λ devices.
          read_safe bytes 1 _ (omega arith) λ load. read_safe bytes 4 _ (omega arith) λ target.
            read_safe bytes 2 _ (omega arith) λ count.
              ensure_safe (count * 16) _ _
                (repeat-read_safe bytes 16 count _ λ nodes. return_safe 0 _))
