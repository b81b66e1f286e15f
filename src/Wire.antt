-- ===== src/Wire.antt =====
-- Buffers of the `bytes` crate as the codecs use them (src/cluster/protocol, src/common/messages):
-- a `BytesMut` or `Buf` is the list of the bytes that are left in it.
pub mod Utf8
pub mod RoundTrip
pub mod Safety
pub mod BigEndian
use head_end_system_tpp.Prelude.{ℕ, zero, suc, ◌+◌, ◌^◌, ◌%◌, ◌≤◌, ◌<◌, ◌≡◌}
use head_end_system_tpp.Prelude.{
  Option, none, some, List, [], ◌∷◌, ◌++◌, length, ltb, if◌then◌else◌,
}

-- What a decoder leaves: a value or an error, each with the rest of the buffer, or a panic.
pub data Outcome (E A : Type 0) : Type 0 where
  ok : A → List ℕ → Outcome E A
  err : E → List ℕ → Outcome E A
  panic : Outcome E A

-- A function that takes `buf : &mut impl Buf`.
abbrev pub Decoder : Type 0 → Type 0 → Type 0
Decoder E A = List ℕ → Outcome E A

infixl 5 ◌>>=◌ ◌>>◌
unfoldable pub ◌>>=◌ : {E A B : Type 0} → Decoder E A → (A → Decoder E B) → Decoder E B
◌>>=◌ m f buf = elim (m buf) [ ok a rest ↦ f a rest | err e rest ↦ err e rest | panic ↦ panic ]

abbrev pub ◌>>◌ : {E B : Type 0} → Decoder E (Unit {0}) → Decoder E B → Decoder E B
m >> k = m >>= λ _. k

abbrev pub return : {E A : Type 0} → A → Decoder E A
return a buf = ok a buf

abbrev pub fail : {E A : Type 0} → E → Decoder E A
fail e buf = err e buf

-- `if buf.remaining() < n { return Err(e) }`.
unfoldable pub ensure : {E : Type 0} → ℕ → E → Decoder E (Unit {0})
ensure n e buf = if ltb (length buf) n then err e buf else ok tt buf

-- `opt.ok_or(e)?`.
unfoldable pub ok_or : {E A : Type 0} → Option A → E → Decoder E A
ok_or (some a) e buf = ok a buf
ok_or none e buf = err e buf

-- `for _ in 0..count { items.push(decode(buf)?) }`.
unfoldable pub repeat : {E A : Type 0} → ℕ → Decoder E A → Decoder E (List A)
repeat zero m = return []
repeat (suc n) m = m >>= λ x. repeat n m >>= λ xs. return (x ∷ xs)

-- An encoder is given by what it writes, in front of what is written after it.
abbrev pub Encoder : Type 0
Encoder = List ℕ → List ℕ

-- `for item in items { item.encode(buf) }`.
unfoldable pub each : {A : Type 0} → (A → Encoder) → List A → Encoder
each encode [] rest = rest
each encode (x ∷ xs) rest = encode x (each encode xs rest)

-- The crate's documented behaviour. Integers are written and read big-endian, `w` bytes wide; a
-- read past the end panics, which `none` stands for.
pub record Bytes : Type 0 where
  -- the bytes that `put_u8`, `put_u16`, `put_u32`, `put_u64`, `put_u128` append
  pub put_uint : ℕ → ℕ → List ℕ
  -- `get_u8`, `get_u16`, `get_u32`, `get_u64`, `get_u128`
  pub get_uint : ℕ → List ℕ → Option (ℕ × List ℕ)
  -- `copy_to_slice` into `n` bytes, `split_to(n)`
  pub split_to : ℕ → List ℕ → Option (List ℕ × List ℕ)
  pub length-put_uint : (w n : ℕ) → length (put_uint w n) ≡ w
  pub get_uint-put_uint :
      (w n : ℕ) (rest : List ℕ) → n < 256 ^ w → get_uint w (put_uint w n ++ rest) ≡ some (n, rest)
  pub get_uint_enough :
      (w : ℕ) (buf : List ℕ)
      → w ≤ length buf
      → (n : ℕ) × (rest : List ℕ) × (get_uint w buf ≡ some (n, rest))
        × (length rest + w ≡ length buf)
  pub get_uint_short : (w : ℕ) (buf : List ℕ) → length buf < w → get_uint w buf ≡ none
  pub split_to-append : (s rest : List ℕ) → split_to (length s) (s ++ rest) ≡ some (s, rest)
  pub split_to_enough :
      (n : ℕ) (buf : List ℕ)
      → n ≤ length buf
      → (s rest : List ℕ) × (split_to n buf ≡ some (s, rest)) × (length rest + n ≡ length buf)
  pub split_to_short : (n : ℕ) (buf : List ℕ) → length buf < n → split_to n buf ≡ none

-- `n as u16`.
abbrev pub as_u16 : ℕ → ℕ
as_u16 n = n % 2 ^ 16

module _ (bytes : Bytes) where
  unfoldable pub write : ℕ → ℕ → Encoder
  write w n rest = bytes.put_uint w n ++ rest

  unfoldable pub read : {E : Type 0} → ℕ → Decoder E ℕ
  read w buf = elim (bytes.get_uint w buf) [ none ↦ panic | some (n, rest) ↦ ok n rest ]

  unfoldable pub copy : {E : Type 0} → ℕ → Decoder E (List ℕ)
  copy n buf = elim (bytes.split_to n buf) [ none ↦ panic | some (s, rest) ↦ ok s rest ]
