-- ===== src/Wire/Safety.antt =====
-- Decoders that do not panic, for src/cluster/protocol: what the length checks of a decoder promise to
-- the reads after them.
use head_end_system_tpp.Prelude.{ℕ, zero, suc, ◌-◌, ◌*◌, ◌≤◌, ◌<◌, ◌≡◌, ◌≢◌, refl, arith}
use head_end_system_tpp.Prelude.{Option, none, some, List, [], ◌∷◌, length, ltb, inl, inr, ◌⊎◌}
use head_end_system_tpp.Prelude.{Bool-cases}
use head_end_system_tpp.Wire.{
  Outcome, ok, err, panic, Decoder, ◌>>=◌, ◌>>◌, return, fail, ensure, ok_or, repeat,
}
use head_end_system_tpp.Wire.{Bytes, read, copy}

-- With `n` bytes in the buffer the decoder does not panic.
abbrev pub SafeFrom : {E A : Type 0} → ℕ → Decoder E A → Type 0
SafeFrom n m = (buf : List ℕ) → n ≤ length buf → m buf ≢ panic

pub return_safe : {E A : Type 0} (n : ℕ) (a : A) → SafeFrom {E = E} n (return a)
return_safe n a buf h e = cc

pub fail_safe : {E A : Type 0} (n : ℕ) (e : E) → SafeFrom {A = A} n (fail e)
fail_safe n e buf h p = cc

pub ensure_safe :
    {E B : Type 0} {n : ℕ} (k : ℕ) (e : E) (m : Decoder E B)
    → SafeFrom k m
    → SafeFrom n (ensure k e >> m)
unfolding ensure ◌>>=◌
ensure_safe k e m safe buf h = elim (Bool-cases (ltb (length buf) k)) [
  | inl short ↦ rw (short, ◌>>=◌) (λ p. cc)
  | inr enough ↦ rw (enough, ◌>>=◌) (safe buf (ground arith))
]

pub ok_or_safe :
    {E A B : Type 0} {n : ℕ} (o : Option A) (e : E) (f : A → Decoder E B)
    → ((a : A) → SafeFrom n (f a))
    → SafeFrom n (ok_or o e >>= f)
unfolding ok_or ◌>>=◌
ok_or_safe none e f safe buf h = λ p. cc
ok_or_safe (some a) e f safe buf h = safe a buf h

pub ok_or-safe_last : {E A : Type 0} (n : ℕ) (o : Option A) (e : E) → SafeFrom n (ok_or o e)
unfolding ok_or
ok_or-safe_last n none e buf h = λ p. cc
ok_or-safe_last n (some a) e buf h = λ p. cc

module _ {E A B : Type 0} (n : ℕ) (f : A → Decoder E B) where
  after_safe :
      (m : Decoder E A) (buf : List ℕ) (o : Outcome E A)
      → m buf ≡ o
      → o ≢ panic
      → ((a : A) → SafeFrom 0 (f a))
      → (m >>= f) buf ≢ panic
  unfolding ◌>>=◌
  after_safe m buf (ok a rest) e s after = rw (e, ◌>>=◌) (after a rest (omega arith))
  after_safe m buf (err x rest) e s after = rw (e, ◌>>=◌) (λ p. cc)
  after_safe m buf panic e s after = absurd (s refl)

  pub bind_safe :
      (m : Decoder E A) → SafeFrom n m → ((a : A) → SafeFrom 0 (f a)) → SafeFrom n (m >>= f)
  bind_safe m safe after buf h = after_safe m buf (m buf) refl (safe buf h) after

-- A panic of two decoders in a row is a panic of one of them.
module _ {E A B : Type 0} (m : Decoder E A) (f : A → Decoder E B) (buf : List ℕ) where
  panic_of :
      (o : Outcome E A)
      → m buf ≡ o
      → (m >>= f) buf ≡ panic
      → (m buf ≡ panic) ⊎ ((a : A) × (rest : List ℕ) × (m buf ≡ ok a rest) × (f a rest ≡ panic))
  unfolding ◌>>=◌
  panic_of (ok a rest) e p = inr (a, rest, e, rw (e, ◌>>=◌) at p)
  panic_of (err x rest) e p = cc (rw (e, ◌>>=◌) at p)
  panic_of panic e p = inl e

  pub bind_panic :
      (m >>= f) buf ≡ panic
      → (m buf ≡ panic) ⊎ ((a : A) × (rest : List ℕ) × (m buf ≡ ok a rest) × (f a rest ≡ panic))
  bind_panic p = panic_of (m buf) refl p

pub bind-panic :
    {E A B : Type 0} (m : Decoder E A) (f : A → Decoder E B) {buf : List ℕ}
    → m buf ≡ panic
    → (m >>= f) buf ≡ panic
unfolding ◌>>=◌
bind-panic m f h = rw (h, ◌>>=◌)

pub repeat_safe : {E A : Type 0} (n : ℕ) (m : Decoder E A) → SafeFrom 0 m → SafeFrom 0 (repeat n m)
unfolding repeat
repeat_safe zero m safe = return_safe 0 []
repeat_safe (suc n) m safe =
    bind_safe 0 _ m safe
      (λ x. bind_safe 0 _ _ (repeat_safe n m safe) (λ xs. return_safe 0 (x ∷ xs)))

module _ (bytes : Bytes) where
  pub read_safe :
      {E B : Type 0} {n : ℕ} (w : ℕ) (f : ℕ → Decoder E B)
      → w ≤ n
      → ((x : ℕ) → SafeFrom (n - w) (f x))
      → SafeFrom n (read bytes w >>= f)
  unfolding ◌>>=◌ read
  read_safe w f fits safe buf h =
      let (x, rest, e, l) = bytes.get_uint_enough w buf (omega arith) in
      rw (e, read, ◌>>=◌) (safe x rest (omega arith))

  pub copy_safe :
      {E B : Type 0} {n : ℕ} (k : ℕ) (f : List ℕ → Decoder E B)
      → k ≤ n
      → ((s : List ℕ) → SafeFrom (n - k) (f s))
      → SafeFrom n (copy bytes k >>= f)
  unfolding ◌>>=◌ copy
  copy_safe k f fits safe buf h =
      let (s, rest, e, l) = bytes.split_to_enough k buf (omega arith) in
      rw (e, copy, ◌>>=◌) (safe s rest (omega arith))

  pub read_short :
      {E : Type 0} (w : ℕ) (buf : List ℕ) → length buf < w → read bytes {E = E} w buf ≡ panic
  unfolding read
  read_short w buf h = rw (bytes.get_uint_short w buf h, read)

  reads_safe : {E : Type 0} (w n : ℕ) → SafeFrom {E = E} (n * w) (repeat n (read bytes w))
  unfolding repeat
  reads_safe w zero = return_safe (0 * w) []
  reads_safe w (suc n) = read_safe w _ (omega arith) λ x.
      bind_safe (suc n * w - w) _ _ (λ buf h. reads_safe w n buf (omega arith))
        λ xs. return_safe 0 (x ∷ xs)

  -- A loop of fixed-width reads behind a check of the whole.
  pub repeat-read_safe :
      {E B : Type 0} (w count : ℕ) (f : List ℕ → Decoder E B)
      → ((xs : List ℕ) → SafeFrom 0 (f xs))
      → SafeFrom (count * w) (repeat count (read bytes w) >>= f)
  repeat-read_safe w count f safe = bind_safe (count * w) f _ (reads_safe w count) safe
