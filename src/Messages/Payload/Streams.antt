-- ===== src/Messages/Payload/Streams.antt =====
-- Reading the items of a stream that was written (src/common/messages).
use head_end_system_tpp.Prelude.{
  ℕ, zero, suc, ◌+◌, ◌^◌, ◌<◌, ◌≡◌, refl, ap, ◌∙◌, arith, true, some, List, [], ◌∷◌, map, get_elem?,
  length, All,
}
use head_end_system_tpp.Wire.Utf8.{is_utf8}
use head_end_system_tpp.Messages.{Result, ObisValue, WriteParameter}
use head_end_system_tpp.Messages.Rlp.{bytes, uint, Item, leaf, list, Rlp}
use head_end_system_tpp.Messages.Payload as P
use head_end_system_tpp.Messages.Payload.{Decoded, for_each, as_u8, pair}

abbrev pub IsUtf8 : List ℕ → Type 0
IsUtf8 s = is_utf8 s ≡ true

-- A loop that finds each item of a list from the index `i` on.
pub for_each_lem :
    {A : Type 0} (f : ℕ → Decoded A) (xs : List A) (i : ℕ)
    → ((k : ℕ) (x : A) → get_elem? xs k ≡ some x → f (i + k) ≡ Result.ok x)
    → for_each f i (length xs) ≡ Result.ok xs
unfolding for_each
for_each_lem f [] i h = refl
for_each_lem f (x ∷ xs) i h =
    let start : i + 0 ≡ i = omega arith in
    rw (rw start at (h 0 x refl), for_each_lem f xs (suc i) (shifted f x xs i h)) refl
  where
    shifted :
        {A : Type 0} (f : ℕ → Decoded A) (x : A) (xs : List A) (i : ℕ)
        → ((k : ℕ) (y : A) → get_elem? (x ∷ xs) k ≡ some y → f (i + k) ≡ Result.ok y)
        → (k : ℕ) (y : A) → get_elem? xs k ≡ some y
        → f (suc i + k) ≡ Result.ok y
    shifted f x xs i h k y e =
        let shift : i + suc k ≡ suc i + k = omega arith in rw shift at (h (suc k) y e)

pub get_elem?-map :
    {A B : Type 0} (g : A → B) (xs : List A) (k : ℕ) (x : A)
    → get_elem? xs k ≡ some x
    → get_elem? (map g xs) k ≡ some (g x)
get_elem?-map g [] k x h = cc
get_elem?-map g (y ∷ xs) zero x h = ground (arith, h)
get_elem?-map g (y ∷ xs) (suc k) x h = get_elem?-map g xs k x h

pub length-map : {A B : Type 0} (g : A → B) (xs : List A) → length (map g xs) ≡ length xs
length-map g [] = refl
length-map g (x ∷ xs) = ap suc (length-map g xs)

pub All-get_elem? :
    {A : Type 0} (P : A → Type 0) (xs : List A) (k : ℕ) (x : A)
    → All P xs
    → get_elem? xs k ≡ some x
    → P x
All-get_elem? P [] k x p h = absurd (cc)
All-get_elem? P (y ∷ xs) zero x p h = ground (arith, h, p.0)
All-get_elem? P (y ∷ xs) (suc k) x p h = All-get_elem? P xs k x p.1 h

pub from_utf8_ok : (s : List ℕ) → IsUtf8 s → P.from_utf8 s ≡ Result.ok s
unfolding P.from_utf8
from_utf8_ok s h = rw h

module _ (rlp : Rlp) where
  pub at_ok :
      (xs : List Item) (i : ℕ) (x : Item)
      → get_elem? xs i ≡ some x
      → P.at rlp (rlp.stream xs) i ≡ Result.ok (rlp.item x)
  unfolding P.at
  at_ok xs i x h = rw (rlp.at-stream xs i, h)

  pub bytes_at_ok :
      (xs : List Item) (i : ℕ) (s : List ℕ)
      → get_elem? xs i ≡ some (leaf (bytes s))
      → P.bytes_at rlp (rlp.stream xs) i ≡ Result.ok s
  unfolding P.bytes_at
  bytes_at_ok xs i s h = rw (at_ok xs i (leaf (bytes s)) h, rlp.as_bytes-item s)

  pub uint_at_ok :
      (w : ℕ) (xs : List Item) (i n : ℕ)
      → n < 256 ^ w
      → get_elem? xs i ≡ some (leaf (uint n))
      → P.uint_at rlp w (rlp.stream xs) i ≡ Result.ok n
  unfolding P.uint_at
  uint_at_ok w xs i n fits h = rw (at_ok xs i (leaf (uint n)) h, rlp.as_uint-item w n fits)

  pub item_count_ok : (xs : List Item) → P.item_count rlp (rlp.stream xs) ≡ Result.ok (length xs)
  unfolding P.item_count
  item_count_ok xs = rw (rlp.item_count-stream xs)

  code_at_ok :
      (xs : List Item) (i : ℕ) (s : List ℕ)
      → IsUtf8 s
      → get_elem? xs i ≡ some (leaf (bytes s))
      → P.code_at rlp (rlp.stream xs) i ≡ Result.ok s
  unfolding P.code_at
  code_at_ok xs i s utf8 h = rw (bytes_at_ok xs i s h, from_utf8_ok s utf8)

  -- The loop over the codes of a list of strings.
  pub codes_ok :
      (codes : List (List ℕ)) (xs : List Item)
      → xs ≡ map (λ code. leaf (bytes code)) codes
      → All IsUtf8 codes
      → for_each (P.code_at rlp (rlp.stream xs)) 0 (length codes) ≡ Result.ok codes
  codes_ok codes xs e utf8 = for_each_lem (P.code_at rlp (rlp.stream xs)) codes 0 λ k code found.
      let zero_add : 0 + k ≡ k = omega arith in
      rw zero_add (
        code_at_ok xs k code (All-get_elem? IsUtf8 codes k code utf8 found)
          (rw e (get_elem?-map (λ c. leaf (bytes c)) codes k code found)))

  -- A pair of a code and a value, as it stands in a stream of pairs.
  pair_ok :
      (xs : List Item) (i : ℕ) (code value : List ℕ)
      → get_elem? xs i ≡ some (list (pair code value))
      → (item : List ℕ) × (P.at rlp (rlp.stream xs) i ≡ Result.ok item)
        × (P.bytes_at rlp item 0 ≡ Result.ok code)
        × (P.bytes_at rlp item 1 ≡ Result.ok value)
  pair_ok xs i code value h = (
    rlp.stream (map leaf (pair code value)),
    at_ok xs i (list (pair code value)) h ∙ ap Result.ok (rlp.item-list (pair code value)),
    bytes_at_ok (map leaf (pair code value)) 0 code refl,
    bytes_at_ok (map leaf (pair code value)) 1 value refl,
  )

  pub obis_value_at_ok :
      (xs : List Item) (i : ℕ) (v : ObisValue)
      → IsUtf8 v.code
      → get_elem? xs i ≡ some (list (pair v.code v.value))
      → P.obis_value_at rlp (rlp.stream xs) i ≡ Result.ok v
  unfolding P.obis_value_at
  obis_value_at_ok xs i v utf8 h =
      let (item, found, code, value) = pair_ok xs i v.code v.value h in
      rw (found, code, from_utf8_ok v.code utf8, value) refl

  pub write_parameter_at_ok :
      (xs : List Item) (i : ℕ) (p : WriteParameter)
      → IsUtf8 p.code
      → get_elem? xs i ≡ some (list (pair p.code p.value))
      → P.write_parameter_at rlp (rlp.stream xs) i ≡ Result.ok p
  unfolding P.write_parameter_at
  write_parameter_at_ok xs i p utf8 h =
      let (item, found, code, value) = pair_ok xs i p.code p.value h in
      rw (found, code, from_utf8_ok p.code utf8, value) refl
