-- ===== src/Cluster/Protocol/Delegate.antt =====
-- DELEGATE_REQUEST, DELEGATE_ACCEPT and DELEGATE_REJECT payloads
-- (src/cluster/protocol/payload.rs).
use head_end_system_tpp.Prelude.{
  ℕ, ◌+◌, ◌*◌, ◌^◌, ◌≤◌, ◌<◌, ◌≡◌, refl, arith, List, length, All, some,
}
use head_end_system_tpp.Prelude.{◌↔◌}
use head_end_system_tpp.Wire.{
  ok, Decoder, ◌>>=◌, ◌>>◌, return, ensure, ok_or, repeat, Encoder, each,
}
use head_end_system_tpp.Wire.{Bytes, write, read, as_u16}
use head_end_system_tpp.Wire.RoundTrip.{
  bind_ok, ensure_ok, ok_or_ok, read-write, length-write, repeat-each,
}
use head_end_system_tpp.Wire.Safety.{
  SafeFrom, return_safe, ensure_safe, read_safe, repeat-read_safe,
}
use head_end_system_tpp.Cluster.Address.{IsText}
use head_end_system_tpp.Cluster.Protocol.{
  ClusterCodecError, invalid_length, invalid_payload, unknown_reason,
}
use head_end_system_tpp.Cluster.Protocol.{DelegationReason, overload, reason_code, reason_from_code}
use head_end_system_tpp.Cluster.Protocol.{DelegatedDevicePayload, DelegateRequestPayload}
use head_end_system_tpp.Cluster.Protocol.{DelegateAcceptPayload, DelegateRejectPayload}
use head_end_system_tpp.Cluster.Protocol.Text.{
  put_string, get_text, read-put_string, get_text-append,
}
use head_end_system_tpp.Cluster.Protocol.Text.{get_text_safe, length-put_string, IsOptText}
use head_end_system_tpp.Cluster.Protocol.Text.{encode_optional_string, decode_optional_string}
use head_end_system_tpp.Cluster.Protocol.Text.{
  decode_optional_string-encode, length-encode_optional_string,
}
use head_end_system_tpp.Cluster.Protocol.Heartbeat.{IsUuid, uuids_length}

-- A byte is accepted exactly when it is the code of the reason that it decodes to.
pub reason_from_code_iff :
    (c : ℕ) (r : DelegationReason) → (reason_from_code c ≡ some r) ↔ (c ≡ reason_code r)
unfolding reason_from_code reason_code
reason_from_code_iff c overload = (ground arith, ground arith)
reason_from_code_iff c r = (ground arith, ground arith)

reason_code-lt : (r : DelegationReason) → reason_code r < 256
unfolding reason_code
reason_code-lt overload = omega arith
reason_code-lt r = omega arith

module _ (bytes : Bytes) where
  unfoldable pub encode_delegated_device : DelegatedDevicePayload → Encoder
  encode_delegated_device d rest = write bytes 16 d.device_id (
      encode_optional_string bytes d.ipv4
        (encode_optional_string bytes d.ipv6 (write bytes 8 d.schedule_time rest)))

  unfoldable pub decode_delegated_device : Decoder ClusterCodecError DelegatedDevicePayload
  decode_delegated_device = do
    ensure 26 invalid_length
    device_id ← read bytes 16
    ipv4 ← decode_optional_string bytes
    ipv6 ← decode_optional_string bytes
    ensure 8 invalid_length
    schedule_time ← read bytes 8
    return
        (record { device_id = device_id; ipv4 = ipv4; ipv6 = ipv6; schedule_time = schedule_time })

  unfoldable pub encode_delegate_request : DelegateRequestPayload → Encoder
  encode_delegate_request p rest =
      write bytes 2 (as_u16 (length p.devices))
        (each encode_delegated_device p.devices (write bytes 1 (reason_code p.reason) rest))

  unfoldable pub decode_delegate_request : Decoder ClusterCodecError DelegateRequestPayload
  decode_delegate_request = do
    ensure 3 invalid_length
    device_count ← read bytes 2
    devices ← repeat device_count decode_delegated_device
    ensure 1 invalid_length
    reason_byte ← read bytes 1
    reason ← ok_or (reason_from_code reason_byte) (invalid_payload (unknown_reason reason_byte))
    return (record { devices = devices; reason = reason })

  unfoldable pub encode_delegate_accept : DelegateAcceptPayload → Encoder
  encode_delegate_accept p rest =
      write bytes 2 (as_u16 (length p.accepted_device_ids))
        (each (write bytes 16) p.accepted_device_ids rest)

  unfoldable pub decode_delegate_accept : Decoder ClusterCodecError DelegateAcceptPayload
  decode_delegate_accept = do
    ensure 2 invalid_length
    device_count ← read bytes 2
    ensure (device_count * 16) invalid_length
    accepted_device_ids ← repeat device_count (read bytes 16)
    return (record { accepted_device_ids = accepted_device_ids })

  unfoldable pub encode_delegate_reject : DelegateRejectPayload → Encoder
  encode_delegate_reject p rest = put_string bytes p.reason rest

  unfoldable pub decode_delegate_reject : Decoder ClusterCodecError DelegateRejectPayload
  decode_delegate_reject = do
    ensure 2 invalid_length
    len ← read bytes 2
    reason ← get_text bytes len
    return (record { reason = reason })

pub record IsDelegatedDevice (d : DelegatedDevicePayload) : Type 0 where
  pub id : IsUuid d.device_id
  pub v4 : IsOptText d.ipv4
  pub v6 : IsOptText d.ipv6
  pub time : d.schedule_time < 2 ^ 64

pub record IsDelegateRequest (p : DelegateRequestPayload) : Type 0 where
  pub each_device : All IsDelegatedDevice p.devices
  pub count : length p.devices < 2 ^ 16

pub record IsDelegateAccept (p : DelegateAcceptPayload) : Type 0 where
  pub ids : All IsUuid p.accepted_device_ids
  pub count : length p.accepted_device_ids < 2 ^ 16

module _ (bytes : Bytes) where
  device_length :
      (d : DelegatedDevicePayload) (rest : List ℕ)
      → 26 + length rest ≤ length (encode_delegated_device bytes d rest)
  unfolding encode_delegated_device
  device_length d rest =
      let tail = write bytes 8 d.schedule_time rest in
      let second = encode_optional_string bytes d.ipv6 tail in
      omega (
        arith,
        length-write bytes 16 d.device_id (encode_optional_string bytes d.ipv4 second),
        length-encode_optional_string bytes d.ipv4 second,
        length-encode_optional_string bytes d.ipv6 tail,
        length-write bytes 8 d.schedule_time rest,
      )

  pub decode_delegated_device-encode :
      (d : DelegatedDevicePayload) (rest : List ℕ)
      → IsDelegatedDevice d
      → decode_delegated_device bytes (encode_delegated_device bytes d rest) ≡ ok d rest
  unfolding decode_delegated_device encode_delegated_device
  decode_delegated_device-encode d rest w =
      bind_ok _ _ (ensure_ok _ _ _ (omega (arith, device_length d rest))) (
        bind_ok _ _ (read-write bytes 16 _ _ w.id) (
          bind_ok _ _ (decode_optional_string-encode bytes d.ipv4 _ w.v4) (
            bind_ok _ _ (decode_optional_string-encode bytes d.ipv6 _ w.v6) (
              bind_ok _ _
                (ensure_ok _ _ _ (omega (arith, length-write bytes 8 d.schedule_time rest)))
                (bind_ok _ _ (read-write bytes 8 _ _ w.time) refl)))))

  devices_length :
      (ds : List DelegatedDevicePayload) (rest : List ℕ)
      → length rest ≤ length (each (encode_delegated_device bytes) ds rest)
  unfolding each
  devices_length List.[] rest = omega arith
  devices_length (List.◌∷◌ d ds) rest = omega (
    arith,
    device_length d (each (encode_delegated_device bytes) ds rest),
    devices_length ds rest,
  )

  pub decode_delegate_request-encode :
      (p : DelegateRequestPayload) (rest : List ℕ)
      → IsDelegateRequest p
      → decode_delegate_request bytes (encode_delegate_request bytes p rest) ≡ ok p rest
  unfolding decode_delegate_request encode_delegate_request
  decode_delegate_request-encode p rest w =
      let count : as_u16 (length p.devices) ≡ length p.devices = omega (arith, w.count) in
      let last = write bytes 1 (reason_code p.reason) rest in
      let one : length last ≡ 1 + length rest = length-write bytes 1 (reason_code p.reason) rest in
      bind_ok _ _
        (ensure_ok _ _ _
          (simp (length-write bytes) (omega (arith, one, devices_length p.devices last))))
        (bind_ok _ _ (read-write bytes 2 _ _ (omega arith)) (
          rw count (
            bind_ok _ _
              (repeat-each _ _ IsDelegatedDevice decode_delegated_device-encode p.devices _
                w.each_device)
              (bind_ok _ _ (ensure_ok _ _ _ (omega (arith, one))) (
                bind_ok _ _ (read-write bytes 1 _ _ (reason_code-lt p.reason))
                  (bind_ok _ _ (ok_or_ok _ _ ((reason_from_code_iff _ p.reason).1 refl)) refl))))))

  pub decode_delegate_accept-encode :
      (p : DelegateAcceptPayload) (rest : List ℕ)
      → IsDelegateAccept p
      → decode_delegate_accept bytes (encode_delegate_accept bytes p rest) ≡ ok p rest
  unfolding decode_delegate_accept encode_delegate_accept
  decode_delegate_accept-encode p rest w =
      let ids = p.accepted_device_ids in
      let count : as_u16 (length ids) ≡ length ids = omega (arith, w.count) in
      bind_ok _ _ (ensure_ok _ _ _ (simp (length-write bytes) (omega arith))) (
        bind_ok _ _ (read-write bytes 2 _ _ (omega arith)) (
          rw count (
            bind_ok _ _ (ensure_ok _ _ _ (omega (arith, uuids_length bytes ids rest)))
              (bind_ok _ _ (repeat-each _ _ IsUuid (read-write bytes 16) ids rest w.ids) refl))))

  pub decode_delegate_reject-encode :
      (p : DelegateRejectPayload) (rest : List ℕ)
      → IsText p.reason
      → decode_delegate_reject bytes (encode_delegate_reject bytes p rest) ≡ ok p rest
  unfolding decode_delegate_reject encode_delegate_reject
  decode_delegate_reject-encode p rest w =
      bind_ok _ _ (ensure_ok _ _ _ (omega (arith, length-put_string bytes p.reason rest))) (
        bind_ok _ _ (read-put_string bytes p.reason rest w)
          (bind_ok _ _ (get_text-append bytes p.reason rest w) refl))

  pub decode_delegate_accept_safe : SafeFrom 0 (decode_delegate_accept bytes)
  unfolding decode_delegate_accept
  decode_delegate_accept_safe = ensure_safe 2 _ _ (
      read_safe bytes 2 _ (omega arith) λ count.
        ensure_safe (count * 16) _ _ (repeat-read_safe bytes 16 count _ λ ids. return_safe 0 _))

  pub decode_delegate_reject_safe : SafeFrom 0 (decode_delegate_reject bytes)
  unfolding decode_delegate_reject
  decode_delegate_reject_safe =
      ensure_safe 2 _ _ (
        read_safe bytes 2 _ (omega arith)
          λ len. get_text_safe bytes len _ λ reason. return_safe 0 _)
