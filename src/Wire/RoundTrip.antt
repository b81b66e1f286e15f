-- ===== src/Wire/RoundTrip.antt =====
-- Reads of what was written, for the codecs of src/cluster/protocol.
use head_end_system_tpp.Prelude.{ℕ, ◌+◌, ◌*◌, ◌^◌, ◌≤◌, ◌<◌, ◌≡◌, refl, arith, le→ltb}
use head_end_system_tpp.Prelude.{Option, some, List, [], ◌∷◌, ◌++◌, length, length-append, All}
use head_end_system_tpp.Wire.{Outcome, ok, Decoder, ◌>>=◌, ensure, ok_or, repeat, Encoder, each}
use head_end_system_tpp.Wire.{Bytes, write, read, copy}

module _ {E A B : Type 0} where
  -- One step of a decoder that succeeds.
  pub bind_ok :
      (m : Decoder E A) (f : A → Decoder E B) {buf rest : List ℕ} {a : A} {t : Outcome E B}
      → m buf ≡ ok a rest
      → f a rest ≡ t
      → (m >>= f) buf ≡ t
  unfolding ◌>>=◌
  bind_ok m f h k = rw (h, ◌>>=◌) k

pub ensure_ok :
    {E : Type 0} (n : ℕ) (e : E) (buf : List ℕ) → n ≤ length buf → ensure n e buf ≡ ok tt buf
unfolding ensure
ensure_ok n e buf h = rw (le→ltb (length buf) n h)

pub ok_or_ok :
    {E A : Type 0} {o : Option A} (e : E) {a : A} (buf : List ℕ)
    → o ≡ some a
    → ok_or o e buf ≡ ok a buf
unfolding ok_or
ok_or_ok e buf h = rw (h, ok_or)

-- A loop that decodes each item reads back the loop that encodes each item.
pub repeat-each :
    {E A : Type 0} (m : Decoder E A) (encode : A → Encoder) (P : A → Type 0)
    → ((x : A) (rest : List ℕ) → P x → m (encode x rest) ≡ ok x rest)
    → (xs : List A) (rest : List ℕ) → All P xs
    → repeat (length xs) m (each encode xs rest) ≡ ok xs rest
unfolding repeat each
repeat-each m encode P h [] rest p = refl
repeat-each m encode P h (x ∷ xs) rest p =
    bind_ok _ _ (h x _ p.0) (bind_ok _ _ (repeat-each m encode P h xs rest p.1) refl)

module _ (bytes : Bytes) where
  pub read-write :
      {E : Type 0} (w n : ℕ) (rest : List ℕ)
      → n < 256 ^ w
      → read bytes {E = E} w (write bytes w n rest) ≡ ok n rest
  unfolding read write
  read-write w n rest h = rw (bytes.get_uint-put_uint w n rest h, read)

  pub copy-append :
      {E : Type 0} (s rest : List ℕ) → copy bytes {E = E} (length s) (s ++ rest) ≡ ok s rest
  unfolding copy
  copy-append s rest = rw (bytes.split_to-append s rest, copy)

  pub length-write : (w n : ℕ) (rest : List ℕ) → length (write bytes w n rest) ≡ w + length rest
  unfolding write
  length-write w n rest = rw (length-append, bytes.length-put_uint)

  pub length-each :
      {A : Type 0} (encode : A → Encoder) (k : ℕ)
      → ((x : A) (rest : List ℕ) → length (encode x rest) ≡ k + length rest)
      → (xs : List A) (rest : List ℕ) → length (each encode xs rest) ≡ length xs * k + length rest
  unfolding each
  length-each encode k h [] rest = omega arith
  length-each encode k h (x ∷ xs) rest =
      omega (arith, h x (each encode xs rest), length-each encode k h xs rest)
