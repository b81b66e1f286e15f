-- ===== src/Cluster/Protocol/Config.antt =====
-- CONFIG_UPDATE and CONFIG_UPDATE_ACK payloads (src/cluster/protocol/payload.rs).
use head_end_system_tpp.Prelude.{ℕ, ◌≡◌, refl, arith, List, ◌==◌}
use head_end_system_tpp.Wire.{ok, Decoder, ◌>>=◌, ◌>>◌, return, ensure, Encoder}
use head_end_system_tpp.Wire.{Bytes, write, read}
use head_end_system_tpp.Wire.RoundTrip.{bind_ok, ensure_ok, read-write, length-write}
use head_end_system_tpp.Wire.Safety.{SafeFrom, return_safe, ensure_safe, read_safe}
use head_end_system_tpp.Cluster.Address.{IsText}
use head_end_system_tpp.Cluster.Protocol.{ClusterCodecError, invalid_length}
use head_end_system_tpp.Cluster.Protocol.{ConfigUpdatePayload, ConfigUpdateAckPayload}
use head_end_system_tpp.Cluster.Protocol.Text.{bool_byte, bool_byte-lt, bool_byte_one, IsOptText}
use head_end_system_tpp.Cluster.Protocol.Text.{
  put_string, get_text, length-put_string, read-put_string,
}
use head_end_system_tpp.Cluster.Protocol.Text.{get_text-append, get_text_safe}
use head_end_system_tpp.Cluster.Protocol.Text.{encode_optional_string, decode_optional_string}
use head_end_system_tpp.Cluster.Protocol.Text.{
  decode_optional_string-encode, length-encode_optional_string,
}
use head_end_system_tpp.Cluster.Protocol.Heartbeat.{IsUuid}

module _ (bytes : Bytes) where
  unfoldable pub encode_config_update : ConfigUpdatePayload → Encoder
  encode_config_update p rest =
      write bytes 16 p.update_id (put_string bytes p.key (put_string bytes p.value rest))

  unfoldable pub decode_config_update : Decoder ClusterCodecError ConfigUpdatePayload
  decode_config_update = do
    ensure 20 invalid_length
    update_id ← read bytes 16
    key_len ← read bytes 2
    key ← get_text bytes key_len
    ensure 2 invalid_length
    val_len ← read bytes 2
    value ← get_text bytes val_len
    return (record { update_id = update_id; key = key; value = value })

  unfoldable pub encode_config_update_ack : ConfigUpdateAckPayload → Encoder
  encode_config_update_ack p rest =
      write bytes 16 p.update_id
        (write bytes 1 (bool_byte p.success) (encode_optional_string bytes p.error_message rest))

  unfoldable pub decode_config_update_ack : Decoder ClusterCodecError ConfigUpdateAckPayload
  decode_config_update_ack = do
    ensure 18 invalid_length
    update_id ← read bytes 16
    success ← read bytes 1
    error_message ← decode_optional_string bytes
    return (record { update_id = update_id; success = success == 1; error_message = error_message })

pub record IsConfigUpdate (p : ConfigUpdatePayload) : Type 0 where
  pub id : IsUuid p.update_id
  pub key_text : IsText p.key
  pub value_text : IsText p.value

pub record IsConfigUpdateAck (p : ConfigUpdateAckPayload) : Type 0 where
  pub id : IsUuid p.update_id
  pub message : IsOptText p.error_message

module _ (bytes : Bytes) where
  pub decode_config_update-encode :
      (p : ConfigUpdatePayload) (rest : List ℕ)
      → IsConfigUpdate p
      → decode_config_update bytes (encode_config_update bytes p rest) ≡ ok p rest
  unfolding decode_config_update encode_config_update
  decode_config_update-encode p rest w =
      bind_ok _ _
        (ensure_ok _ _ _ (simp (length-write bytes, length-put_string bytes) (omega arith)))
        (bind_ok _ _ (read-write bytes 16 _ _ w.id) (
          bind_ok _ _ (read-put_string bytes p.key _ w.key_text) (
            bind_ok _ _ (get_text-append bytes p.key _ w.key_text) (
              bind_ok _ _ (ensure_ok _ _ _ (omega (arith, length-put_string bytes p.value rest))) (
                bind_ok _ _ (read-put_string bytes p.value _ w.value_text)
                  (bind_ok _ _ (get_text-append bytes p.value _ w.value_text) refl))))))

  pub decode_config_update_ack-encode :
      (p : ConfigUpdateAckPayload) (rest : List ℕ)
      → IsConfigUpdateAck p
      → decode_config_update_ack bytes (encode_config_update_ack bytes p rest) ≡ ok p rest
  unfolding decode_config_update_ack encode_config_update_ack
  decode_config_update_ack-encode p rest w =
      bind_ok _ _
        (ensure_ok _ _ _ (
          simp (length-write bytes)
            (omega (arith, length-encode_optional_string bytes p.error_message rest))))
        (bind_ok _ _ (read-write bytes 16 _ _ w.id) (
          bind_ok _ _ (read-write bytes 1 _ _ (bool_byte-lt p.success)) (
            bind_ok _ _ (decode_optional_string-encode bytes p.error_message rest w.message)
              (rw (bool_byte_one p.success)))))

  pub decode_config_update_safe : SafeFrom 0 (decode_config_update bytes)
  unfolding decode_config_update
  decode_config_update_safe = ensure_safe 20 _ _ (
      read_safe bytes 16 _ (omega arith) λ id. read_safe bytes 2 _ (omega arith) λ key_len.
        get_text_safe bytes key_len _ λ key. ensure_safe 2 _ _ (
          read_safe bytes 2 _ (omega arith)
            λ val_len. get_text_safe bytes val_len _ λ value. return_safe 0 _))
