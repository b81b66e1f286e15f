-- ===== src/Messages/Complete.antt =====
-- What a packet from a device leaves of the buffer (src/common/messages/codec.rs).
use head_end_system_tpp.Prelude.{
  ℕ, ◌+◌, ◌-◌, ◌≤◌, ◌≡◌, ◌≢◌, refl, arith, Option, none, some, List, [], ◌∷◌, length, ltb, ◌⊎◌, inl,
  inr, Bool-cases, le→ltb,
}
use head_end_system_tpp.Wire.{Outcome, ok, err, panic, Decoder, ◌>>=◌, Bytes, read, copy}
use head_end_system_tpp.Messages.{
  MsgCodecError, invalid_length, Message, msg_type_from_code, Result,
}
use head_end_system_tpp.Messages.Rlp.{Rlp}
use head_end_system_tpp.Messages.Payload.{Decoded}
use head_end_system_tpp.Messages.Codec.{
  codec_decode, decode_fields, too_short, min_msg_len, payload_len, mac_size, clear_on_err,
  decode_message_payload,
}

-- A message or an error, and nothing is left.
abbrev pub IsSettled : Outcome MsgCodecError (Option Message) → Type 0
IsSettled (ok none rest) = ⊥
IsSettled (ok (some m) rest) = rest ≡ []
IsSettled (err e rest) = rest ≡ []
IsSettled panic = ⊥

empty_of_length : (xs : List ℕ) → length xs ≡ 0 → xs ≡ []
empty_of_length [] h = refl
empty_of_length (x ∷ xs) h = absurd (omega arith)

module _ {A : Type 0} where
  clear-IsSettled :
      (r : Decoded A) (f : A → Decoder MsgCodecError (Option Message)) (buf : List ℕ)
      → ((a : A) → IsSettled (f a buf))
      → IsSettled ((clear_on_err r >>= f) buf)
  unfolding clear_on_err ◌>>=◌
  clear-IsSettled (Result.ok a) f buf h = h a
  clear-IsSettled (Result.err e) f buf h = refl

module _ (wire : Bytes) where
  read-IsSettled :
      (w n : ℕ) (f : ℕ → Decoder MsgCodecError (Option Message)) (buf : List ℕ)
      → length buf ≡ w + n
      → ((x : ℕ) (rest : List ℕ) → length rest ≡ n → IsSettled (f x rest))
      → IsSettled ((read wire w >>= f) buf)
  unfolding read ◌>>=◌
  read-IsSettled w n f buf len h =
      let (x, rest, e, l) = wire.get_uint_enough w buf (omega arith) in
      rw (e, read, ◌>>=◌) (h x rest (omega arith))

  copy-IsSettled :
      (k n : ℕ) (f : List ℕ → Decoder MsgCodecError (Option Message)) (buf : List ℕ)
      → length buf ≡ k + n
      → ((s rest : List ℕ) → length rest ≡ n → IsSettled (f s rest))
      → IsSettled ((copy wire k >>= f) buf)
  unfolding copy ◌>>=◌
  copy-IsSettled k n f buf len h =
      let (s, rest, e, l) = wire.split_to_enough k buf (omega arith) in
      rw (e, copy, ◌>>=◌) (h s rest (omega arith))

payload_len-IsSettled :
    (f : ℕ → Decoder MsgCodecError (Option Message)) (buf : List ℕ)
    → mac_size ≤ length buf
    → IsSettled (f (length buf - mac_size) buf)
    → IsSettled ((payload_len >>= f) buf)
unfolding payload_len ◌>>=◌
payload_len-IsSettled f buf enough h = rw (le→ltb (length buf) mac_size enough, ◌>>=◌) h

module _ (wire : Bytes) (rlp : Rlp) where
  decode_fields-IsSettled :
      (n : ℕ) (buf : List ℕ) → length buf ≡ 46 + n → IsSettled (decode_fields wire rlp buf)
  unfolding decode_fields
  decode_fields-IsSettled n buf h =
      read-IsSettled wire 1 (45 + n) _ buf (omega arith) λ version b1 h1.
        read-IsSettled wire 1 (44 + n) _ b1 (omega arith) λ code b2 h2.
          read-IsSettled wire 16 (28 + n) _ b2 (omega arith) λ id b3 h3.
            read-IsSettled wire 4 (24 + n) _ b3 (omega arith) λ seq b4 h4.
              read-IsSettled wire 8 (16 + n) _ b4 (omega arith) λ time b5 h5.
                payload_len-IsSettled _ b5 (omega arith) (
                  copy-IsSettled wire (length b5 - mac_size) 16 _ b5 (omega arith) λ s b6 h6.
                    read-IsSettled wire 16 0 _ b6 (omega arith) λ mac b7 h7.
                      clear-IsSettled (msg_type_from_code code) _ b7 λ t.
                        clear-IsSettled (decode_message_payload rlp code s) _ b7
                          λ p. empty_of_length b7 h7)

  too_short-IsSettled : (buf : List ℕ) → buf ≢ [] → too_short wire rlp buf ≡ err invalid_length []
  unfolding too_short
  too_short-IsSettled [] h = absurd (h refl)
  too_short-IsSettled (b ∷ buf) h = refl

  -- Decoding a packet that is not empty never panics and never asks for more: it gives a message or
  -- an error, and the buffer is empty afterwards. A packet has at least 46 bytes or is
  -- an invalid length.
  pub codec_decode-IsSettled :
      (buf : List ℕ)
      → buf ≢ []
      → IsSettled (codec_decode wire rlp buf)
        × ((min_msg_len ≤ length buf) ⊎ (codec_decode wire rlp buf ≡ err invalid_length []))
  unfolding codec_decode
  codec_decode-IsSettled buf some_bytes = elim (Bool-cases (ltb (length buf) min_msg_len)) [
    | inl short ↦ rw (short, codec_decode, too_short-IsSettled buf some_bytes) (refl, inr refl)
    | inr enough ↦
        rw (enough, codec_decode)
          (decode_fields-IsSettled (length buf - 46) buf (ground arith), inl (ground arith))
  ]
