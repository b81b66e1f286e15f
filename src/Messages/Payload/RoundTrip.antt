-- ===== src/Messages/Payload/RoundTrip.antt =====
-- Encoding and then decoding the payload of a message (src/common/messages).
use head_end_system_tpp.Prelude.{
  ℕ, ◌+◌, ◌^◌, ◌<◌, ◌≡◌, refl, ap, not, ◌==◌, ◌∙◌, arith, Bool, true, false, List, [], ◌∷◌, ◌++◌,
  map, length, All,
}
use head_end_system_tpp.Messages.{
  Result, ◌>>=◌, MsgCodecError, payload_decode_error, MsgType, MessagePayload, Message,
  HandshakeMessage, ObisValue, WriteParameter, WriteResponseMessage, msg_type_code,
  msg_type_from_code,
}
use head_end_system_tpp.Messages as Types
use head_end_system_tpp.Messages.Rlp.{bytes, uint, Item, leaf, list, Rlp}
use head_end_system_tpp.Messages.Payload as P
use head_end_system_tpp.Messages.Payload.{Decoded, for_each, as_u8, pair}
use head_end_system_tpp.Messages.Codec.{encode_message_payload, decode_message_payload}
use mathlib.Core.List.{append-nil}
use head_end_system_tpp.Messages.Payload.Streams.{
  IsUtf8, for_each_lem, get_elem?-map, length-map, All-get_elem?, from_utf8_ok, at_ok, bytes_at_ok,
  uint_at_ok, item_count_ok, codes_ok, obis_value_at_ok, write_parameter_at_ok,
}

-- The payload is the one that the type announces. Its strings are UTF-8, and its integers bytes or
-- 64-bit numbers.
abbrev pub IsPayload : MsgType → MessagePayload → Type 0
IsPayload MsgType.handshake (MessagePayload.handshake m) = Unit {0}
IsPayload MsgType.handshake_response (MessagePayload.handshake_response m) = m.status < 256
IsPayload MsgType.register_request (MessagePayload.registry_request m) =
    IsUtf8 m.imei × IsUtf8 m.ipv6
IsPayload MsgType.register_response (MessagePayload.registry_response m) =
    (m.flag < 256) × (m.next_wake_time < 256 ^ 8)
IsPayload MsgType.read_request (MessagePayload.read_request m) = All IsUtf8 m.obis_codes
IsPayload MsgType.read_response (MessagePayload.read_response m) =
    All (λ (v : ObisValue). IsUtf8 v.code) m.values
IsPayload MsgType.write_request (MessagePayload.write_request m) =
    All (λ (p : WriteParameter). IsUtf8 p.code) m.parameters
IsPayload MsgType.write_response (MessagePayload.write_response m) = All IsUtf8 m.written_codes
IsPayload MsgType.execute_request MessagePayload.execute_request = Unit {0}
IsPayload MsgType.execute_response MessagePayload.execute_response = Unit {0}
IsPayload MsgType.action_request MessagePayload.action_request = Unit {0}
IsPayload MsgType.action_response MessagePayload.action_response = Unit {0}
IsPayload MsgType.ack MessagePayload.ack = Unit {0}
IsPayload MsgType.nack (MessagePayload.nack m) = m.error_code < 256
IsPayload MsgType.session_start_request MessagePayload.session_start_request = Unit {0}
IsPayload t p = ⊥

as_u8_small : (b : Bool) → as_u8 b < 256
unfolding as_u8
as_u8_small true = omega arith
as_u8_small false = omega arith

as_u8_back : (b : Bool) → not (as_u8 b == 0) ≡ b
unfolding as_u8
as_u8_back true = refl
as_u8_back false = refl

map_leaves :
    (codes : List (List ℕ)) → map leaf (map bytes codes) ≡ map (λ code. leaf (bytes code)) codes
map_leaves [] = refl
map_leaves (c ∷ codes) = ap (◌∷◌ (leaf (bytes c))) (map_leaves codes)

module _ (rlp : Rlp) where
  -- What a payload writes stands in front of what is written after it.
  pub encode_payload-append :
      (p : MessagePayload) (rest : List ℕ)
      → encode_message_payload rlp p rest ≡ encode_message_payload rlp p [] ++ rest
  unfolding encode_message_payload P.encode_handshake P.encode_handshake_response
      P.encode_registry_request P.encode_registry_response P.encode_read_request
      P.encode_read_response P.encode_write_request P.encode_write_response P.encode_nack
  encode_payload-append (MessagePayload.handshake m) rest = rw append-nil refl
  encode_payload-append (MessagePayload.handshake_response m) rest = rw append-nil refl
  encode_payload-append (MessagePayload.registry_request m) rest = rw append-nil refl
  encode_payload-append (MessagePayload.registry_response m) rest = rw append-nil refl
  encode_payload-append (MessagePayload.read_request m) rest = rw append-nil refl
  encode_payload-append (MessagePayload.read_response m) rest = rw append-nil refl
  encode_payload-append (MessagePayload.write_request m) rest = rw append-nil refl
  encode_payload-append (MessagePayload.write_response m) rest = rw append-nil refl
  encode_payload-append (MessagePayload.nack m) rest = rw append-nil refl
  encode_payload-append MessagePayload.execute_request rest = refl
  encode_payload-append MessagePayload.execute_response rest = refl
  encode_payload-append MessagePayload.action_request rest = refl
  encode_payload-append MessagePayload.action_response rest = refl
  encode_payload-append MessagePayload.ack rest = refl
  encode_payload-append MessagePayload.session_start_request rest = refl

  read_request-encode :
      (m : Types.ReadRequestMessage)
      → All IsUtf8 m.obis_codes
      → P.decode_read_request rlp (P.encode_read_request rlp m []) ≡ Result.ok m
  unfolding P.decode_read_request P.encode_read_request
  read_request-encode m utf8 =
      let items = map (λ code. leaf (bytes code)) m.obis_codes in
      rw
        (append-nil, item_count_ok rlp items, length-map, codes_ok rlp m.obis_codes items refl utf8)
        refl

  read_response-encode :
      (m : Types.ReadResponseMessage)
      → All (λ (v : ObisValue). IsUtf8 v.code) m.values
      → P.decode_read_response rlp (P.encode_read_response rlp m []) ≡ Result.ok m
  unfolding P.decode_read_response P.encode_read_response
  read_response-encode m utf8 =
      let item : ObisValue → Item = λ v. list (pair v.code v.value) in
      let xs = map item m.values in
      let loop : for_each (P.obis_value_at rlp (rlp.stream xs)) 0 (length m.values)
          ≡ Result.ok m.values =
        for_each_lem _ m.values 0 λ k v found.
          let zero_add : 0 + k ≡ k = omega arith in
          rw zero_add (
            obis_value_at_ok rlp xs k v (All-get_elem? _ m.values k v utf8 found)
              (get_elem?-map item m.values k v found)) in
      rw (append-nil, item_count_ok rlp xs, length-map, loop) refl

  write_request-encode :
      (m : Types.WriteRequestMessage)
      → All (λ (p : WriteParameter). IsUtf8 p.code) m.parameters
      → P.decode_write_request rlp (P.encode_write_request rlp m []) ≡ Result.ok m
  unfolding P.decode_write_request P.encode_write_request
  write_request-encode m utf8 =
      let item : WriteParameter → Item = λ p. list (pair p.code p.value) in
      let xs = map item m.parameters in
      let loop : for_each (P.write_parameter_at rlp (rlp.stream xs)) 0 (length m.parameters)
          ≡ Result.ok m.parameters =
        for_each_lem _ m.parameters 0 λ k p found.
          let zero_add : 0 + k ≡ k = omega arith in
          rw zero_add (
            write_parameter_at_ok rlp xs k p (All-get_elem? _ m.parameters k p utf8 found)
              (get_elem?-map item m.parameters k p found)) in
      rw (append-nil, item_count_ok rlp xs, length-map, loop) refl

  write_response-encode :
      (m : WriteResponseMessage)
      → All IsUtf8 m.written_codes
      → P.decode_write_response rlp (P.encode_write_response rlp m []) ≡ Result.ok m
  unfolding P.decode_write_response P.encode_write_response
  write_response-encode m utf8 =
      let xs = leaf (uint (as_u8 m.success)) ∷ list (map bytes m.written_codes) ∷ [] in
      let codes = map leaf (map bytes m.written_codes) in
      let inner : P.at rlp (rlp.stream xs) 1 ≡ Result.ok (rlp.stream codes) =
        at_ok rlp xs 1 (list (map bytes m.written_codes)) refl
        ∙ ap Result.ok (rlp.item-list (map bytes m.written_codes)) in
      rw
        (
          append-nil,
          uint_at_ok rlp 1 xs 0 (as_u8 m.success) (as_u8_small m.success) refl,
          inner,
          item_count_ok rlp codes,
          length-map,
          length-map,
          codes_ok rlp m.written_codes codes (map_leaves m.written_codes) utf8,
        )
        (rw (as_u8_back m.success) refl)

  -- Each payload is read back under the code of its type.
  pub decode_payload-encode :
      (t : MsgType) (p : MessagePayload)
      → IsPayload t p
      → decode_message_payload rlp (msg_type_code t) (encode_message_payload rlp p []) ≡ Result.ok p
  unfolding decode_message_payload encode_message_payload msg_type_code P.decode_handshake
      P.encode_handshake P.decode_handshake_response P.encode_handshake_response
      P.decode_registry_request P.encode_registry_request P.decode_registry_response
      P.encode_registry_response P.decode_nack P.encode_nack
  decode_payload-encode MsgType.handshake (MessagePayload.handshake m) h =
      rw (append-nil, bytes_at_ok rlp (leaf (bytes m.nonce) ∷ []) 0 m.nonce refl) refl
  decode_payload-encode MsgType.handshake_response (MessagePayload.handshake_response m) h =
      rw (append-nil, uint_at_ok rlp 1 (leaf (uint m.status) ∷ []) 0 m.status h refl) refl
  decode_payload-encode MsgType.register_request (MessagePayload.registry_request m) h =
      let xs = leaf (bytes m.imei) ∷ leaf (bytes m.ipv6) ∷ [] in
      rw
        (
          append-nil,
          bytes_at_ok rlp xs 0 m.imei refl,
          bytes_at_ok rlp xs 1 m.ipv6 refl,
          from_utf8_ok m.imei h.0,
          from_utf8_ok m.ipv6 h.1,
        )
        refl
  decode_payload-encode MsgType.register_response (MessagePayload.registry_response m) h =
      let xs = leaf (uint m.flag) ∷ leaf (uint m.next_wake_time) ∷ [] in
      rw
        (
          append-nil,
          uint_at_ok rlp 1 xs 0 m.flag h.0 refl,
          uint_at_ok rlp 8 xs 1 m.next_wake_time h.1 refl,
        )
        refl
  decode_payload-encode MsgType.read_request (MessagePayload.read_request m) h =
      rw (read_request-encode m h) refl
  decode_payload-encode MsgType.read_response (MessagePayload.read_response m) h =
      rw (read_response-encode m h) refl
  decode_payload-encode MsgType.write_request (MessagePayload.write_request m) h =
      rw (write_request-encode m h) refl
  decode_payload-encode MsgType.write_response (MessagePayload.write_response m) h =
      rw (write_response-encode m h) refl
  decode_payload-encode MsgType.execute_request MessagePayload.execute_request h = refl
  decode_payload-encode MsgType.execute_response MessagePayload.execute_response h = refl
  decode_payload-encode MsgType.action_request MessagePayload.action_request h = refl
  decode_payload-encode MsgType.action_response MessagePayload.action_response h = refl
  decode_payload-encode MsgType.ack MessagePayload.ack h = refl
  decode_payload-encode MsgType.nack (MessagePayload.nack m) h =
      rw (append-nil, uint_at_ok rlp 1 (leaf (uint m.error_code) ∷ []) 0 m.error_code h refl) refl
  decode_payload-encode MsgType.session_start_request MessagePayload.session_start_request h = refl
  decode_payload-encode t p h = absurd h
