-- ===== src/Wire/BigEndian.antt =====
-- A concrete buffer that meets the documented behaviour of `Bytes`: big-endian digits in base 256.
use head_end_system_tpp.Prelude.{ℕ, zero, suc, ◌+◌, ◌*◌, ◌/◌, ◌%◌, ◌^◌, ◌≤◌, ◌<◌, ◌≡◌, refl, arith}
use head_end_system_tpp.Prelude.{Option, none, some, List, [], ◌∷◌, ◌++◌, length, take, drop, ltb}
use head_end_system_tpp.Prelude.{
  length-append, take-append, drop-append, length-drop, le→ltb, lt→ltb,
}
use head_end_system_tpp.Prelude.{if◌then◌else◌}
use head_end_system_tpp.Wire.{Bytes}
use native.Mathlib.Nat.{pow-suc}

unfoldable pub digits : ℕ → ℕ → List ℕ
digits zero n = []
digits (suc w) n = digits w (n / 256) ++ n % 256 ∷ []

unfoldable pub value : ℕ → List ℕ → ℕ
value acc [] = acc
value acc (d ∷ ds) = value (acc * 256 + d) ds

unfoldable pub split : ℕ → List ℕ → Option (List ℕ × List ℕ)
split n buf = if ltb (length buf) n then none else some (take n buf, drop n buf)

unfoldable pub read_digits : ℕ → List ℕ → Option (ℕ × List ℕ)
read_digits w buf = elim (split w buf) [ none ↦ none | some (s, rest) ↦ some (value 0 s, rest) ]

pub length-digits : (w n : ℕ) → length (digits w n) ≡ w
unfolding digits
length-digits zero n = refl
length-digits (suc w) n =
    omega (arith, length-append (digits w (n / 256)) (n % 256 ∷ []), length-digits w (n / 256))

value-append : (acc : ℕ) (ds : List ℕ) (d : ℕ) → value acc (ds ++ d ∷ []) ≡ value acc ds * 256 + d
unfolding value
value-append acc [] d = refl
value-append acc (e ∷ ds) d = value-append (acc * 256 + e) ds d

value-digits : (w n : ℕ) → n < 256 ^ w → value 0 (digits w n) ≡ n
unfolding digits
value-digits zero n h = unfold value in omega arith
value-digits (suc w) n h = omega (
  arith,
  value-append 0 (digits w (n / 256)) (n % 256),
  value-digits w (n / 256) (omega (arith, pow-suc 256 w)),
)

pub split-append : (s rest : List ℕ) → split (length s) (s ++ rest) ≡ some (s, rest)
unfolding split
split-append s rest = rw (
  le→ltb (length (s ++ rest)) (length s) (omega (arith, length-append s rest)),
  take-append,
  drop-append,
)

pub split_enough :
    (n : ℕ) (buf : List ℕ)
    → n ≤ length buf
    → (s rest : List ℕ) × (split n buf ≡ some (s, rest)) × (length rest + n ≡ length buf)
unfolding split
split_enough n buf h = (take n buf, drop n buf, rw (le→ltb _ n h), omega (arith, length-drop n buf))

pub split_short : (n : ℕ) (buf : List ℕ) → length buf < n → split n buf ≡ none
unfolding split
split_short n buf h = rw (lt→ltb (length buf) n h)

pub read-digits :
    (w n : ℕ) (rest : List ℕ) → n < 256 ^ w → read_digits w (digits w n ++ rest) ≡ some (n, rest)
unfolding read_digits
read-digits w n rest h =
    let whole : split w (digits w n ++ rest) ≡ some (digits w n, rest) =
      rw (length-digits w n) at (split-append (digits w n) rest) in
    rw (whole, read_digits) (rw (value-digits w n h))

pub read_enough :
    (w : ℕ) (buf : List ℕ)
    → w ≤ length buf
    → (n : ℕ) × (rest : List ℕ) × (read_digits w buf ≡ some (n, rest))
      × (length rest + w ≡ length buf)
unfolding read_digits
read_enough w buf h =
    let (s, rest, e, l) = split_enough w buf h in (value 0 s, rest, rw (e, read_digits), l)

pub read_short : (w : ℕ) (buf : List ℕ) → length buf < w → read_digits w buf ≡ none
unfolding read_digits
read_short w buf h = rw (split_short w buf h, read_digits)

abbrev pub big_endian : Bytes
big_endian = record {
  put_uint = digits;
  get_uint = read_digits;
  split_to = split;
  length-put_uint = length-digits;
  get_uint-put_uint = read-digits;
  get_uint_enough = read_enough;
  get_uint_short = read_short;
  split_to-append = split-append;
  split_to_enough = split_enough;
  split_to_short = split_short;
}
