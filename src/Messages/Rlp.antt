-- ===== src/Messages/Rlp.antt =====
-- What the payloads of src/common/messages use of the `rlp` crate.
pub mod Framed
use head_end_system_tpp.Prelude.{ℕ, ◌^◌, ◌<◌, ◌≡◌, Option, some, List, map, get_elem?, length}
use mathlib.Core.Option

-- What one call of `append` adds to a stream: a string of bytes or an unsigned integer.
pub data Leaf : Type 0 where
  bytes : List ℕ → Leaf
  uint : ℕ → Leaf

-- An item of a stream. A list is begun by `begin_list` and filled by calls of `append`.
pub data Item : Type 0 where
  leaf : Leaf → Item
  list : List Leaf → Item

-- The documented behaviour of the crate. An `Rlp` is the slice of the bytes that it reads.
pub record Rlp : Type 0 where
  pub item : Item → List ℕ
  -- `new_list(n)`, the calls that add `n` items, and `out()`
  pub stream : List Item → List ℕ
  -- `at(i)`, `item_count()`, and `as_val()` into a `Vec<u8>` or into an integer of `w` bytes;
  -- `val_at(i)` is `at(i)?.as_val()`. An error is `none`.
  pub at : List ℕ → ℕ → Option (List ℕ)
  pub item_count : List ℕ → Option ℕ
  pub as_bytes : List ℕ → Option (List ℕ)
  pub as_uint : ℕ → List ℕ → Option ℕ
  pub item-list : (ls : List Leaf) → item (list ls) ≡ stream (map leaf ls)
  pub at-stream : (xs : List Item) (i : ℕ) → at (stream xs) i ≡ Option.map item (get_elem? xs i)
  pub item_count-stream : (xs : List Item) → item_count (stream xs) ≡ some (length xs)
  pub as_bytes-item : (s : List ℕ) → as_bytes (item (leaf (bytes s))) ≡ some s
  pub as_uint-item : (w n : ℕ) → n < 256 ^ w → as_uint w (item (leaf (uint n))) ≡ some n
