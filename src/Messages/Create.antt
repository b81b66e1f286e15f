-- ===== src/Messages/Create.antt =====
-- The constructors of messages (src/common/messages/message.rs). `now` is the time since the epoch in
-- seconds, or `none` where the clock stands before the epoch.
use head_end_system_tpp.Prelude.{ℕ, Bool, Option, List}
use head_end_system_tpp.Messages.{
  MessageError, system_time_error, Result, ok, ◌>>=◌, ok_or, MsgType, MessagePayload, Message,
  ObisValue, WriteParameter,
}

abbrev pub current_protocol_version : ℕ
current_protocol_version = 1

-- The tag is not computed yet.
unfoldable pub calculate_mac : Message → Message
calculate_mac m = record m { mac = 0 }

module _ (now : Option ℕ) where
  -- What the constructors share.
  unfoldable pub new_message : MsgType → ℕ → ℕ → MessagePayload → Result MessageError Message
  unfolding calculate_mac
  new_message msg_type device_id seq payload = do
    timestamp ← ok_or now system_time_error
    ok (
        calculate_mac (record {
          version = current_protocol_version;
          msg_type = msg_type;
          device_id = device_id;
          seq = seq;
          timestamp = timestamp;
          payload = payload;
          mac = 0;
        }))

  unfoldable pub new_register_request_message : List ℕ → List ℕ → Result MessageError Message
  unfolding new_message
  new_register_request_message imei ipv6 =
      new_message MsgType.register_request 0 0
        (MessagePayload.registry_request (record { imei = imei; ipv6 = ipv6 }))

  unfoldable pub new_register_response_message : ℕ → ℕ → ℕ → ℕ → Result MessageError Message
  unfolding new_message
  new_register_response_message device_id seq flag next_wake_time =
      new_message MsgType.register_response device_id seq
        (MessagePayload.registry_response (record { flag = flag; next_wake_time = next_wake_time }))

  unfoldable pub new_handshake_message : ℕ → ℕ → List ℕ → Result MessageError Message
  unfolding new_message
  new_handshake_message device_id seq nonce =
      new_message MsgType.handshake device_id seq
        (MessagePayload.handshake (record { nonce = nonce }))

  unfoldable pub new_nack_message : ℕ → ℕ → ℕ → Result MessageError Message
  unfolding new_message
  new_nack_message device_id seq error_code =
      new_message MsgType.nack device_id seq
        (MessagePayload.nack (record { error_code = error_code }))

  unfoldable pub new_ack_message : ℕ → ℕ → Result MessageError Message
  unfolding new_message
  new_ack_message device_id seq = new_message MsgType.ack device_id seq MessagePayload.ack

  unfoldable pub new_handshake_response_message : ℕ → ℕ → ℕ → Result MessageError Message
  unfolding new_message
  new_handshake_response_message device_id seq status =
      new_message MsgType.handshake_response device_id seq
        (MessagePayload.handshake_response (record { status = status }))

  unfoldable pub new_read_response_message : ℕ → ℕ → List ObisValue → Result MessageError Message
  unfolding new_message
  new_read_response_message device_id seq values =
      new_message MsgType.read_response device_id seq
        (MessagePayload.read_response (record { values = values }))

  unfoldable pub new_write_response_message :
      ℕ → ℕ → Bool → List (List ℕ) → Result MessageError Message
  unfolding new_message
  new_write_response_message device_id seq success written_codes =
      new_message MsgType.write_response device_id seq (
        MessagePayload.write_response (record { success = success; written_codes = written_codes }))

  unfoldable pub new_read_request_message : ℕ → ℕ → List (List ℕ) → Result MessageError Message
  unfolding new_message
  new_read_request_message device_id seq obis_codes =
      new_message MsgType.read_request device_id seq
        (MessagePayload.read_request (record { obis_codes = obis_codes }))

  unfoldable pub new_write_request_message :
      ℕ → ℕ → List WriteParameter → Result MessageError Message
  unfolding new_message
  new_write_request_message device_id seq parameters =
      new_message MsgType.write_request device_id seq
        (MessagePayload.write_request (record { parameters = parameters }))
