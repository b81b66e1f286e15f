-- ===== src/Messages/Payload.antt =====
-- The encoding and decoding of each payload (src/common/messages, all but codec.rs and message.rs).
pub mod Streams
pub mod RoundTrip
use head_end_system_tpp.Prelude.{
  ℕ, zero, suc, Bool, true, false, not, ◌==◌, if◌then◌else◌, List, [], ◌∷◌, ◌++◌, map,
}
use head_end_system_tpp.Wire.{Encoder}
use head_end_system_tpp.Wire.Utf8.{is_utf8}
use head_end_system_tpp.Messages.{
  MsgCodecError, payload_decode_error, Result, ok, err, ◌>>=◌, ok_or, HandshakeMessage,
  HandshakeResponseMessage, RegistryRequestMessage, RegistryResponseMessage, ReadRequestMessage,
  ObisValue, ReadResponseMessage, WriteParameter, WriteRequestMessage, WriteResponseMessage,
  NackMessage,
}
use head_end_system_tpp.Messages.Rlp.{Leaf, bytes, uint, leaf, list, Rlp}

abbrev pub Decoded : Type 0 → Type 0
Decoded = Result MsgCodecError

-- `String::from_utf8(v).map_err(...)`.
unfoldable pub from_utf8 : List ℕ → Decoded (List ℕ)
from_utf8 s = if is_utf8 s then ok s else err payload_decode_error

-- `for i in 0..count { items.push(decode(i)?) }`, at the index `i` with `n` items left.
unfoldable pub for_each : {A : Type 0} → (ℕ → Decoded A) → ℕ → ℕ → Decoded (List A)
for_each decode i zero = ok []
for_each decode i (suc n) = do x ← decode i; xs ← for_each decode (suc i) n; ok (x ∷ xs)

-- `success as u8`.
unfoldable pub as_u8 : Bool → ℕ
as_u8 true = 1
as_u8 false = 0

abbrev pub pair : List ℕ → List ℕ → List Leaf
pair code value = bytes code ∷ bytes value ∷ []

module _ (rlp : Rlp) where
  -- `at(i)`, `val_at(i)` and `item_count()` behind `map_err(...)?`.
  unfoldable pub at : List ℕ → ℕ → Decoded (List ℕ)
  at slice i = ok_or (rlp.at slice i) payload_decode_error

  unfoldable pub bytes_at : List ℕ → ℕ → Decoded (List ℕ)
  unfolding at
  bytes_at slice i = do item ← at slice i; ok_or (rlp.as_bytes item) payload_decode_error

  unfoldable pub uint_at : ℕ → List ℕ → ℕ → Decoded ℕ
  unfolding at
  uint_at w slice i = do item ← at slice i; ok_or (rlp.as_uint w item) payload_decode_error

  unfoldable pub item_count : List ℕ → Decoded ℕ
  item_count slice = ok_or (rlp.item_count slice) payload_decode_error

  -- The body of the loops over OBIS codes.
  unfoldable pub code_at : List ℕ → ℕ → Decoded (List ℕ)
  unfolding bytes_at from_utf8
  code_at slice i = do code_bytes ← bytes_at slice i; from_utf8 code_bytes

  unfoldable pub encode_handshake : HandshakeMessage → Encoder
  encode_handshake m rest = rlp.stream (leaf (bytes m.nonce) ∷ []) ++ rest

  unfoldable pub decode_handshake : List ℕ → Decoded HandshakeMessage
  unfolding bytes_at
  decode_handshake slice = do nonce ← bytes_at slice 0; ok (record { nonce = nonce })

  unfoldable pub encode_handshake_response : HandshakeResponseMessage → Encoder
  encode_handshake_response m rest = rlp.stream (leaf (uint m.status) ∷ []) ++ rest

  unfoldable pub decode_handshake_response : List ℕ → Decoded HandshakeResponseMessage
  unfolding uint_at
  decode_handshake_response slice = do status ← uint_at 1 slice 0; ok (record { status = status })

  unfoldable pub encode_registry_request : RegistryRequestMessage → Encoder
  encode_registry_request m rest =
      rlp.stream (leaf (bytes m.imei) ∷ leaf (bytes m.ipv6) ∷ []) ++ rest

  unfoldable pub decode_registry_request : List ℕ → Decoded RegistryRequestMessage
  unfolding bytes_at from_utf8
  decode_registry_request slice = do
    imei_bytes ← bytes_at slice 0
    ipv6_bytes ← bytes_at slice 1
    imei ← from_utf8 imei_bytes
    ipv6 ← from_utf8 ipv6_bytes
    ok (record { imei = imei; ipv6 = ipv6 })

  unfoldable pub encode_registry_response : RegistryResponseMessage → Encoder
  encode_registry_response m rest =
      rlp.stream (leaf (uint m.flag) ∷ leaf (uint m.next_wake_time) ∷ []) ++ rest

  unfoldable pub decode_registry_response : List ℕ → Decoded RegistryResponseMessage
  unfolding uint_at
  decode_registry_response slice = do
    flag ← uint_at 1 slice 0
    next_wake_time ← uint_at 8 slice 1
    ok (record { flag = flag; next_wake_time = next_wake_time })

  unfoldable pub encode_read_request : ReadRequestMessage → Encoder
  encode_read_request m rest = rlp.stream (map (λ code. leaf (bytes code)) m.obis_codes) ++ rest

  unfoldable pub decode_read_request : List ℕ → Decoded ReadRequestMessage
  unfolding item_count code_at for_each
  decode_read_request slice = do
    count ← item_count slice
    obis_codes ← for_each (code_at slice) 0 count
    ok (record { obis_codes = obis_codes })

  unfoldable pub encode_read_response : ReadResponseMessage → Encoder
  encode_read_response m rest =
      rlp.stream (map (λ (v : ObisValue). list (pair v.code v.value)) m.values) ++ rest

  -- The body of the loop over values.
  unfoldable pub obis_value_at : List ℕ → ℕ → Decoded ObisValue
  unfolding at bytes_at from_utf8
  obis_value_at slice i = do
    item ← at slice i
    code_bytes ← bytes_at item 0
    code ← from_utf8 code_bytes
    value ← bytes_at item 1
    ok (record { code = code; value = value })

  unfoldable pub decode_read_response : List ℕ → Decoded ReadResponseMessage
  unfolding item_count obis_value_at for_each
  decode_read_response slice = do
    count ← item_count slice
    values ← for_each (obis_value_at slice) 0 count
    ok (record { values = values })

  unfoldable pub encode_write_request : WriteRequestMessage → Encoder
  encode_write_request m rest =
      rlp.stream (map (λ (p : WriteParameter). list (pair p.code p.value)) m.parameters) ++ rest

  -- The body of the loop over parameters.
  unfoldable pub write_parameter_at : List ℕ → ℕ → Decoded WriteParameter
  unfolding at bytes_at from_utf8
  write_parameter_at slice i = do
    item ← at slice i
    code_bytes ← bytes_at item 0
    code ← from_utf8 code_bytes
    value ← bytes_at item 1
    ok (record { code = code; value = value })

  unfoldable pub decode_write_request : List ℕ → Decoded WriteRequestMessage
  unfolding item_count write_parameter_at for_each
  decode_write_request slice = do
    count ← item_count slice
    parameters ← for_each (write_parameter_at slice) 0 count
    ok (record { parameters = parameters })

  unfoldable pub encode_write_response : WriteResponseMessage → Encoder
  unfolding as_u8
  encode_write_response m rest =
      rlp.stream (leaf (uint (as_u8 m.success)) ∷ list (map bytes m.written_codes) ∷ []) ++ rest

  unfoldable pub decode_write_response : List ℕ → Decoded WriteResponseMessage
  unfolding uint_at at item_count code_at for_each
  decode_write_response slice = do
    success_byte ← uint_at 1 slice 0
    codes_list ← at slice 1
    count ← item_count codes_list
    written_codes ← for_each (code_at codes_list) 0 count
    ok (record { success = not (success_byte == 0); written_codes = written_codes })

  unfoldable pub encode_nack : NackMessage → Encoder
  encode_nack m rest = rlp.stream (leaf (uint m.error_code) ∷ []) ++ rest

  unfoldable pub decode_nack : List ℕ → Decoded NackMessage
  unfolding uint_at
  decode_nack slice = do error_code ← uint_at 1 slice 0; ok (record { error_code = error_code })
