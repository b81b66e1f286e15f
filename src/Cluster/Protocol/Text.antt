-- ===== src/Cluster/Protocol/Text.antt =====
-- Length-prefixed and optional strings, as the payloads of src/cluster/protocol/payload.rs write
-- and read them.
use head_end_system_tpp.Prelude.{ℕ, ◌+◌, ◌≤◌, ◌<◌, ◌≡◌, refl, arith, Bool, true, false}
use head_end_system_tpp.Prelude.{Option, none, some, List, ◌++◌, length, ◌==◌, if◌then◌else◌}
use head_end_system_tpp.Prelude.{length-append}
use head_end_system_tpp.Wire.{ok, Decoder, ◌>>=◌, ◌>>◌, return, ensure, ok_or, Encoder, as_u16}
use head_end_system_tpp.Wire.{Bytes, write, read, copy}
use head_end_system_tpp.Wire.Utf8.{is_utf8}
use head_end_system_tpp.Wire.RoundTrip.{
  bind_ok, ensure_ok, ok_or_ok, read-write, copy-append, length-write,
}
use head_end_system_tpp.Wire.Safety.{
  SafeFrom, ensure_safe, ok_or_safe, ok_or-safe_last, copy_safe, bind_safe,
}
use head_end_system_tpp.Cluster.Address.{IsText}
use head_end_system_tpp.Cluster.Protocol.{
  ClusterCodecError, invalid_length, invalid_payload, not_utf8,
}

-- `String::from_utf8(bytes).map_err(..)?`.
unfoldable pub from_utf8 : List ℕ → Decoder ClusterCodecError (List ℕ)
from_utf8 s = ok_or (if is_utf8 s then some s else none) (invalid_payload not_utf8)

unfoldable pub bool_byte : Bool → ℕ
bool_byte true = 1
bool_byte false = 0

module _ (bytes : Bytes) where
  -- `buf.put_u16(bytes.len() as u16); buf.put_slice(bytes)`.
  unfoldable pub put_string : List ℕ → Encoder
  put_string s rest = write bytes 2 (as_u16 (length s)) (s ++ rest)

  -- The check of the length, the copy and the UTF-8 check, behind the length that was read.
  unfoldable pub get_text : ℕ → Decoder ClusterCodecError (List ℕ)
  unfolding from_utf8
  get_text len = do ensure len invalid_length; s ← copy bytes len; from_utf8 s

  unfoldable pub encode_optional_string : Option (List ℕ) → Encoder
  unfolding put_string
  encode_optional_string (some s) rest = write bytes 1 1 (put_string s rest)
  encode_optional_string none rest = write bytes 1 0 rest

  -- The two branches of `decode_optional_string`.
  unfoldable pub optional_string : Bool → Decoder ClusterCodecError (Option (List ℕ))
  unfolding get_text
  optional_string true = do len ← read bytes 2; s ← get_text len; return (some s)
  optional_string false = return none

  unfoldable pub decode_optional_string : Decoder ClusterCodecError (Option (List ℕ))
  unfolding optional_string
  decode_optional_string = do flag ← read bytes 1; optional_string (flag == 1)

abbrev pub IsOptText : Option (List ℕ) → Type 0
IsOptText none = Unit {0}
IsOptText (some s) = IsText s

pub from_utf8_ok : (s rest : List ℕ) → IsText s → from_utf8 s rest ≡ ok s rest
unfolding from_utf8
from_utf8_ok s rest t = ok_or_ok _ rest (rw t.utf8)

from_utf8-safe_last : (n : ℕ) (s : List ℕ) → SafeFrom n (from_utf8 s)
unfolding from_utf8
from_utf8-safe_last n s = ok_or-safe_last n _ _

pub from_utf8_safe :
    {B : Type 0} {n : ℕ} (s : List ℕ) (f : List ℕ → Decoder ClusterCodecError B)
    → ((r : List ℕ) → SafeFrom n (f r))
    → SafeFrom n (from_utf8 s >>= f)
unfolding from_utf8
from_utf8_safe s f safe = ok_or_safe _ _ f safe

module _ (bytes : Bytes) where
  pub length-put_string :
      (s rest : List ℕ) → length (put_string bytes s rest) ≡ 2 + (length s + length rest)
  unfolding put_string
  length-put_string s rest = rw (length-write, length-append)

  pub get_text-append :
      (s rest : List ℕ) → IsText s → get_text bytes (length s) (s ++ rest) ≡ ok s rest
  unfolding get_text
  get_text-append s rest t =
      bind_ok _ _ (ensure_ok (length s) _ _ (omega (arith, length-append s rest)))
        (bind_ok _ _ (copy-append bytes s rest) (from_utf8_ok s rest t))

  pub read-put_string :
      (s rest : List ℕ)
      → IsText s
      → read bytes {E = ClusterCodecError} 2 (put_string bytes s rest) ≡ ok (length s) (s ++ rest)
  unfolding put_string
  read-put_string s rest t =
      let e : as_u16 (length s) ≡ length s = omega (arith, t.short) in
      rw e (read-write bytes 2 (length s) (s ++ rest) t.short)

  pub decode_optional_string-encode :
      (o : Option (List ℕ)) (rest : List ℕ)
      → IsOptText o
      → decode_optional_string bytes (encode_optional_string bytes o rest) ≡ ok o rest
  unfolding decode_optional_string encode_optional_string
  decode_optional_string-encode none rest t =
      bind_ok _ _ (read-write bytes 1 0 rest (omega arith)) refl
  decode_optional_string-encode (some s) rest t =
      bind_ok _ _ (read-write bytes 1 1 _ (omega arith))
        (bind_ok _ _ (read-put_string s rest t) (bind_ok _ _ (get_text-append s rest t) refl))

  pub length-encode_optional_string :
      (o : Option (List ℕ)) (rest : List ℕ)
      → 1 + length rest ≤ length (encode_optional_string bytes o rest)
  unfolding encode_optional_string
  length-encode_optional_string none rest = omega (arith, length-write bytes 1 0 rest)
  length-encode_optional_string (some s) rest =
      omega (arith, length-write bytes 1 1 (put_string bytes s rest), length-put_string s rest)

  pub get_text_safe :
      {B : Type 0} {n : ℕ} (len : ℕ) (f : List ℕ → Decoder ClusterCodecError B)
      → ((s : List ℕ) → SafeFrom 0 (f s))
      → SafeFrom n (get_text bytes len >>= f)
  unfolding get_text
  get_text_safe {n = n} len f safe =
      bind_safe n f _
        (ensure_safe len _ _ (copy_safe bytes len _ (omega arith) (λ s. from_utf8-safe_last _ s)))
        safe

pub bool_byte-lt : (b : Bool) → bool_byte b < 256
unfolding bool_byte
bool_byte-lt true = omega arith
bool_byte-lt false = omega arith

pub bool_byte_one : (b : Bool) → (bool_byte b == 1) ≡ b
unfolding bool_byte
bool_byte_one true = refl
bool_byte_one false = refl
