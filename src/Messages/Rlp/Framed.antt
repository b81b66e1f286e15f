-- ===== src/Messages/Rlp/Framed.antt =====
-- A concrete encoding that meets the documented behaviour of `Rlp`: each item is its length and then
-- its content, and so is a stream.
use head_end_system_tpp.Prelude.{
  ℕ, zero, suc, ◌^◌, ◌≤◌, ◌<◌, ◌≡◌, refl, ap, arith, Option, none, some, List, [], ◌∷◌, ◌++◌, map,
  get_elem?, length, length-append, take, take-append, drop, drop-append,
}
use head_end_system_tpp.Messages.Rlp.{Leaf, bytes, uint, Item, leaf, list, Rlp}
use mathlib.Core.Option

abbrev pub framed_bytes : List ℕ → List ℕ
framed_bytes s = length s ∷ s

leaf_content : Leaf → List ℕ
leaf_content (bytes s) = s
leaf_content (uint n) = n ∷ []

unfoldable pub leaves : List Leaf → List ℕ
unfolding leaf_content
leaves [] = []
leaves (l ∷ ls) = framed_bytes (leaf_content l) ++ leaves ls

unfoldable pub content : Item → List ℕ
unfolding leaves leaf_content
content (leaf l) = leaf_content l
content (list ls) = leaves ls

unfoldable pub contents : List Item → List ℕ
unfolding content
contents [] = []
contents (x ∷ xs) = framed_bytes (content x) ++ contents xs

nth : ℕ → List ℕ → Option (List ℕ)
nth i [] = none
nth zero (n ∷ rest) = some (n ∷ take n rest)
nth (suc i) (n ∷ rest) = nth i (drop n rest)

-- With fuel for each byte.
count : ℕ → List ℕ → ℕ
count zero buf = 0
count (suc f) [] = 0
count (suc f) (n ∷ rest) = suc (count f (drop n rest))

unfoldable pub nth_item : List ℕ → ℕ → Option (List ℕ)
unfolding nth
nth_item [] i = none
nth_item (n ∷ rest) i = nth i rest

unfoldable pub head : List ℕ → Option ℕ
head [] = none
head (n ∷ rest) = some n

unfoldable pub as_content : List ℕ → Option (List ℕ)
as_content [] = none
as_content (n ∷ rest) = some rest

unfoldable pub as_number : ℕ → List ℕ → Option ℕ
unfolding as_content head
as_number w buf = elim (as_content buf) [ none ↦ none | some rest ↦ head rest ]

unfoldable pub count_items : List ℕ → Option ℕ
unfolding count
count_items [] = none
count_items (n ∷ rest) = some (count n rest)

leaves-contents : (ls : List Leaf) → leaves ls ≡ contents (map leaf ls)
unfolding leaves contents
leaves-contents [] = refl
leaves-contents (l ∷ ls) = ap (λ r. framed_bytes (leaf_content l) ++ r) (leaves-contents ls)

nth-contents :
    (xs : List Item) (i : ℕ)
    → nth i (contents xs) ≡ Option.map (λ x. framed_bytes (content x)) (get_elem? xs i)
unfolding nth contents
nth-contents [] i = refl
nth-contents (x ∷ xs) zero = rw (take-append (content x) (contents xs)) refl
nth-contents (x ∷ xs) (suc i) = rw (drop-append (content x) (contents xs), nth) (nth-contents xs i)

count-contents : (f : ℕ) (xs : List Item) → length xs ≤ f → count f (contents xs) ≡ length xs
unfolding count contents
count-contents zero [] h = refl
count-contents zero (x ∷ xs) h = absurd (omega arith)
count-contents (suc f) [] h = refl
count-contents (suc f) (x ∷ xs) h =
    rw (drop-append (content x) (contents xs)) (ap suc (count-contents f xs (omega arith)))

length-contents : (xs : List Item) → length xs ≤ length (contents xs)
unfolding contents
length-contents [] = omega arith
length-contents (x ∷ xs) =
    omega (arith, length-contents xs, length-append (content x) (contents xs))

pub framed_item-list :
    (ls : List Leaf) → framed_bytes (content (list ls)) ≡ framed_bytes (contents (map leaf ls))
unfolding content
framed_item-list ls = ap framed_bytes (leaves-contents ls)

pub nth_item-framed :
    (xs : List Item) (i : ℕ)
    → nth_item (framed_bytes (contents xs)) i
      ≡ Option.map (λ x. framed_bytes (content x)) (get_elem? xs i)
unfolding nth_item
nth_item-framed xs i = nth-contents xs i

pub count_items-framed :
    (xs : List Item) → count_items (framed_bytes (contents xs)) ≡ some (length xs)
unfolding count_items
count_items-framed xs = ap some (count-contents (length (contents xs)) xs (length-contents xs))

pub as_content-framed : (s : List ℕ) → as_content (framed_bytes (content (leaf (bytes s)))) ≡ some s
unfolding as_content content
as_content-framed s = refl

pub as_number-framed :
    (w n : ℕ) → n < 256 ^ w → as_number w (framed_bytes (content (leaf (uint n)))) ≡ some n
unfolding as_number content
as_number-framed w n h = refl

abbrev pub framed : Rlp
framed = record {
  item = λ x. framed_bytes (content x);
  stream = λ xs. framed_bytes (contents xs);
  at = nth_item;
  item_count = count_items;
  as_bytes = as_content;
  as_uint = as_number;
  item-list = framed_item-list;
  at-stream = nth_item-framed;
  item_count-stream = count_items-framed;
  as_bytes-item = as_content-framed;
  as_uint-item = as_number-framed;
}
