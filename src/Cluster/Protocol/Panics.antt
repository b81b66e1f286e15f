-- ===== src/Cluster/Protocol/Panics.antt =====
-- Panics of the decoder of cluster messages: `decode_optional_string` of
-- src/cluster/protocol/payload.rs reads a flag and a length without a check of its own.
use head_end_system_tpp.Prelude.{ℕ, ◌<◌, ◌≡◌, ◌≢◌, inl, inr, arith, List, [], ◌∷◌, length, ltb}
use head_end_system_tpp.Prelude.{Bool, true, false, Bool-cases, le→ltb, ◌==◌}
use head_end_system_tpp.Wire.{ok, panic, Bytes, write}
use head_end_system_tpp.Wire.RoundTrip.{bind_ok, ensure_ok, read-write, length-write}
use head_end_system_tpp.Wire.Safety.{
  SafeFrom, return_safe, read_safe, bind_safe, bind_panic, bind-panic, read_short,
}
use head_end_system_tpp.Cluster.Address.{AddrText}
use head_end_system_tpp.Cluster.Protocol.{ClusterMessageType, ClusterMessage}
use head_end_system_tpp.Cluster.Protocol.Text.{
  decode_optional_string, optional_string, get_text_safe, bool_byte, bool_byte-lt,
}
use head_end_system_tpp.Cluster.Protocol.Heartbeat.{IsUuid, decode_heartbeat_safe}
use head_end_system_tpp.Cluster.Protocol.Join.{decode_node_join_safe}
use head_end_system_tpp.Cluster.Protocol.Delegate.{
  decode_delegate_accept_safe, decode_delegate_reject_safe,
}
use head_end_system_tpp.Cluster.Protocol.Status.{decode_status_response_safe}
use head_end_system_tpp.Cluster.Protocol.Probe.{decode_node_suspect_safe, decode_node_dead_safe}
use head_end_system_tpp.Cluster.Protocol.Probe.{
  decode_probe_request_safe, decode_probe_response_safe,
}
use head_end_system_tpp.Cluster.Protocol.Config.{
  decode_config_update_safe, decode_config_update_ack,
}
use head_end_system_tpp.Cluster.Protocol.Message.{IsHeader, Header, encode_header, decode_header}
use head_end_system_tpp.Cluster.Protocol.Message.{
  decode_header-encode, decode_header_safe, length-encode_header,
}
use head_end_system_tpp.Cluster.Protocol.Codec.{decode_payload, decode_message, discard, decode}

-- The two payloads that hold optional strings.
unfoldable pub has_optional : ClusterMessageType → Bool
has_optional ClusterMessageType.delegate_request = true
has_optional ClusterMessageType.config_update_ack = true
has_optional t = false

module _ (bytes : Bytes) (text : AddrText) where
  -- The decoder of a payload with no optional string never panics.
  decode_payload_safe :
      (t : ClusterMessageType) → has_optional t ≡ false → SafeFrom 0 (decode_payload bytes text t)
  unfolding decode_payload has_optional
  decode_payload_safe ClusterMessageType.heartbeat h =
      bind_safe 0 _ _ (decode_heartbeat_safe bytes) λ p. return_safe 0 _
  decode_payload_safe ClusterMessageType.heartbeat_ack h = return_safe 0 _
  decode_payload_safe ClusterMessageType.status_request h = return_safe 0 _
  decode_payload_safe ClusterMessageType.status_response h =
      bind_safe 0 _ _ (decode_status_response_safe bytes text) λ p. return_safe 0 _
  decode_payload_safe ClusterMessageType.delegate_request h = cc
  decode_payload_safe ClusterMessageType.delegate_accept h =
      bind_safe 0 _ _ (decode_delegate_accept_safe bytes) λ p. return_safe 0 _
  decode_payload_safe ClusterMessageType.delegate_reject h =
      bind_safe 0 _ _ (decode_delegate_reject_safe bytes) λ p. return_safe 0 _
  decode_payload_safe ClusterMessageType.node_join h =
      bind_safe 0 _ _ (decode_node_join_safe bytes text) λ p. return_safe 0 _
  decode_payload_safe ClusterMessageType.node_leave h = return_safe 0 _
  decode_payload_safe ClusterMessageType.node_suspect h =
      bind_safe 0 _ _ (decode_node_suspect_safe bytes) λ p. return_safe 0 _
  decode_payload_safe ClusterMessageType.node_dead h =
      bind_safe 0 _ _ (decode_node_dead_safe bytes) λ p. return_safe 0 _
  decode_payload_safe ClusterMessageType.probe_request h =
      bind_safe 0 _ _ (decode_probe_request_safe bytes) λ p. return_safe 0 _
  decode_payload_safe ClusterMessageType.probe_response h =
      bind_safe 0 _ _ (decode_probe_response_safe bytes) λ p. return_safe 0 _
  decode_payload_safe ClusterMessageType.config_update h =
      bind_safe 0 _ _ (decode_config_update_safe bytes) λ p. return_safe 0 _
  decode_payload_safe ClusterMessageType.config_update_ack h = cc

  message_panics :
      (buf : List ℕ)
      → decode_message bytes text buf ≡ panic
      → (h : Header) × (rest : List ℕ) × (decode_header bytes buf ≡ ok h rest)
        × (has_optional h.msg_type ≡ true)
  unfolding decode_message
  message_panics buf p = elim (bind_panic _ _ buf p) [
    | inl bad ↦ absurd (decode_header_safe bytes buf (omega arith) bad)
    | inr (h, rest, e, q) ↦ (
      h,
      rest,
      e,
      elim (Bool-cases (has_optional h.msg_type)) [
        | inl yes_optional ↦ yes_optional
        | inr plain ↦ elim (bind_panic _ _ rest q) [
          | inl bad ↦ absurd (decode_payload_safe h.msg_type plain rest (omega arith) bad)
          | inr (a, more, e', q') ↦ cc
        ]
      ],
    )
  ]

  discard-ne-panic : (buf : List ℕ) → discard bytes text buf ≢ panic
  unfolding discard
  discard-ne-panic [] e = cc
  discard-ne-panic (b ∷ buf) e = cc

  -- A packet on which `decode` panics has a whole header, and its type is DELEGATE_REQUEST or
  -- CONFIG_UPDATE_ACK: on every other packet `decode` returns.
  pub decode_panics :
      (buf : List ℕ)
      → decode bytes text buf ≡ panic
      → (h : Header) × (rest : List ℕ) × (decode_header bytes buf ≡ ok h rest)
        × (has_optional h.msg_type ≡ true)
  unfolding decode
  decode_panics buf p = elim (Bool-cases (ltb (length buf) 30)) [
    | inl short ↦ absurd (discard-ne-panic buf (rw (short, decode) at p))
    | inr long ↦ message_panics buf (rw (long, decode) at p)
  ]

module _ (bytes : Bytes) where
  optional_string_safe : (flag : Bool) → SafeFrom 2 (optional_string bytes flag)
  unfolding optional_string
  optional_string_safe true =
      read_safe bytes 2 _ (omega arith) λ len. get_text_safe bytes len _ λ s. return_safe 0 _
  optional_string_safe false = return_safe 2 _

  -- With three bytes left an optional string is decoded without a panic.
  pub decode_optional_string_safe : SafeFrom 3 (decode_optional_string bytes)
  unfolding decode_optional_string
  decode_optional_string_safe =
      read_safe bytes 1 _ (omega arith) λ flag. optional_string_safe (flag == 1)

  optional_string_cut :
      (short : List ℕ)
      → length short < 2
      → decode_optional_string bytes (write bytes 1 1 short) ≡ panic
  unfolding decode_optional_string
  optional_string_cut short h =
      bind_ok _ _ (read-write bytes 1 1 short (omega arith))
        (bind-panic _ _ (read_short bytes 2 short h))

  -- The acknowledgment whose message is announced and cut off in front of its length.
  unfoldable pub cut_ack : ClusterMessage → ℕ → Bool → List ℕ → List ℕ
  cut_ack m update_id success short =
      encode_header bytes m
        (write bytes 16 update_id (write bytes 1 (bool_byte success) (write bytes 1 1 short)))

  ack_cut :
      (update_id : ℕ) (success : Bool) (short : List ℕ)
      → IsUuid update_id
      → length short < 2
      → decode_config_update_ack bytes
          (write bytes 16 update_id (write bytes 1 (bool_byte success) (write bytes 1 1 short)))
        ≡ panic
  unfolding decode_config_update_ack
  ack_cut update_id success short id h =
      bind_ok _ _ (ensure_ok _ _ _ (simp (length-write bytes) (omega arith))) (
        bind_ok _ _ (read-write bytes 16 _ _ id) (
          bind_ok _ _ (read-write bytes 1 _ _ (bool_byte-lt success))
            (bind-panic _ _ (optional_string_cut short h))))

  -- `decode` panics on every CONFIG_UPDATE_ACK packet that passes the length check of its payload
  -- (18 bytes), announces an error message, and ends before the two bytes of that message's length.
  pub decode-cut_ack :
      (text : AddrText) (m : ClusterMessage) (update_id : ℕ) (success : Bool) (short : List ℕ)
      → IsHeader m
      → m.msg_type ≡ ClusterMessageType.config_update_ack
      → IsUuid update_id
      → length short < 2
      → decode bytes text (cut_ack m update_id success short) ≡ panic
  unfolding decode decode_message decode_payload cut_ack
  decode-cut_ack text m update_id success short w t id h =
      let body =
        write bytes 16 update_id (write bytes 1 (bool_byte success) (write bytes 1 1 short)) in
      let long =
        le→ltb (length (encode_header bytes m body)) 30
          (omega (arith, length-encode_header bytes m body)) in
      rw (long, decode)
        (bind_ok _ _ (decode_header-encode bytes m body w) (
          bind-panic _ _
            (rw (t, decode_payload) (bind-panic _ _ (ack_cut update_id success short id h)))))
