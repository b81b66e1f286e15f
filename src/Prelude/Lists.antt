-- ===== src/Prelude/Lists.antt =====
-- Lists measured and indexed by native numbers, under the library's names.
use Prim.Native.Nat.{ℕ, zero, suc, ◌+◌, ◌-◌, ◌≤◌}
use mathlib.Core.Bool.{Bool, true}
use mathlib.Core.Path.{◌≡◌, refl, sym, ap, ◌∙◌}
use mathlib.Core.List.{List, [], ◌∷◌, ◌++◌, map, Memᴰ}
use mathlib.Core.Option.{Option, none, some}
use mathlib.Core.Logic.{◌≢◌, inl, inr}
use native.Mathlib.Omega.{arith}
use head_end_system_tpp.Prelude.Tests.{if◌then◌else◌, Bool-cases}

module _ {ℓ} {A : Type ℓ} where
  abbrev pub length : List A → ℕ
  length [] = 0
  length (x ∷ xs) = suc (length xs)

  abbrev pub get_elem? : List A → ℕ → Option A
  get_elem? [] i = none
  get_elem? (x ∷ xs) zero = some x
  get_elem? (x ∷ xs) (suc i) = get_elem? xs i

  abbrev pub take : ℕ → List A → List A
  take zero xs = []
  take (suc n) [] = []
  take (suc n) (x ∷ xs) = x ∷ take n xs

  abbrev pub drop : ℕ → List A → List A
  drop zero xs = xs
  drop (suc n) [] = []
  drop (suc n) (x ∷ xs) = drop n xs

  abbrev pub replicate : ℕ → A → List A
  replicate zero a = []
  replicate (suc n) a = a ∷ replicate n a

  -- `iter().filter(p)`.
  abbrev pub filter : (A → Bool) → List A → List A
  filter p [] = []
  filter p (x ∷ xs) = if p x then x ∷ filter p xs else filter p xs

  abbrev pub All {κ} : (A → Type κ) → List A → Type κ
  All P [] = Unit {κ}
  All P (x ∷ xs) = P x × All P xs

module _ {ℓ} {A : Type ℓ} where
  pub length-append : (xs ys : List A) → length (xs ++ ys) ≡ length xs + length ys
  length-append [] ys = omega arith
  length-append (x ∷ xs) ys = omega (arith, length-append xs ys)

  pub take-append : (xs ys : List A) → take (length xs) (xs ++ ys) ≡ xs
  take-append [] ys = refl
  take-append (x ∷ xs) ys = ap (◌∷◌ x) (take-append xs ys)

  pub drop-append : (xs ys : List A) → drop (length xs) (xs ++ ys) ≡ ys
  drop-append [] ys = refl
  drop-append (x ∷ xs) ys = drop-append xs ys

  pub length-drop : (n : ℕ) (xs : List A) → length (drop n xs) ≡ length xs - n
  length-drop zero xs = omega arith
  length-drop (suc n) [] = omega arith
  length-drop (suc n) (x ∷ xs) = omega (arith, length-drop n xs)

  pub length-filter : (p : A → Bool) (xs : List A) → length (filter p xs) ≤ length xs
  length-filter p [] = omega arith
  length-filter p (x ∷ xs) = ground (arith, length-filter p xs)

  pub length-take : (n : ℕ) (xs : List A) → length (take n xs) ≤ n
  length-take zero xs = omega arith
  length-take (suc n) [] = omega arith
  length-take (suc n) (x ∷ xs) = omega (arith, length-take n xs)

  pub take_all : (n : ℕ) (xs : List A) → length xs ≤ n → take n xs ≡ xs
  take_all zero [] h = refl
  take_all zero (x ∷ xs) h = absurd (omega arith)
  take_all (suc n) [] h = refl
  take_all (suc n) (x ∷ xs) h = ap (◌∷◌ x) (take_all n xs (omega arith))

  -- An element of a list with the same head and a tail that has it too.
  pub cons_Memᴰ :
      (x a : A) (xs ys : List A) → (Memᴰ a xs → Memᴰ a ys) → Memᴰ a (x ∷ xs) → Memᴰ a (x ∷ ys)
  cons_Memᴰ x a xs ys f (Memᴰ.head e) = Memᴰ.head e
  cons_Memᴰ x a xs ys f (Memᴰ.tail h) = Memᴰ.tail (f h)

  pub swap_Memᴰ : (x y a : A) (xs : List A) → Memᴰ a (x ∷ y ∷ xs) → Memᴰ a (y ∷ x ∷ xs)
  swap_Memᴰ x y a xs (Memᴰ.head e) = Memᴰ.tail (Memᴰ.head e)
  swap_Memᴰ x y a xs (Memᴰ.tail (Memᴰ.head e)) = Memᴰ.head e
  swap_Memᴰ x y a xs (Memᴰ.tail (Memᴰ.tail h)) = Memᴰ.tail (Memᴰ.tail h)

  pub filter-Memᴰ :
      (p : A → Bool) (xs : List A) (a : A) → Memᴰ a (filter p xs) → Memᴰ a xs × (p a ≡ true)
  filter-Memᴰ p [] a h = elim h [ ]
  filter-Memᴰ p (x ∷ xs) a h = elim (Bool-cases (p x)) [
    | inl kept ↦ elim (rw kept at h) [
      | Memᴰ.head e ↦ (Memᴰ.head e, ap p e ∙ kept)
      | Memᴰ.tail e ↦ let (e', q) = filter-Memᴰ p xs a e in (Memᴰ.tail e', q)
    ]
    | inr dropped ↦ let (e, q) = filter-Memᴰ p xs a (rw dropped at h) in (Memᴰ.tail e, q)
  ]

  pub Memᴰ-filter :
      (p : A → Bool) (xs : List A) (a : A) → Memᴰ a xs → p a ≡ true → Memᴰ a (filter p xs)
  Memᴰ-filter p [] a h q = elim h [ ]
  Memᴰ-filter p (x ∷ xs) a (Memᴰ.head e) q = rw (sym (ap p e) ∙ q) (Memᴰ.head e)
  Memᴰ-filter p (x ∷ xs) a (Memᴰ.tail e) q = elim (Bool-cases (p x)) [
    | inl kept ↦ rw kept (Memᴰ.tail (Memᴰ-filter p xs a e q))
    | inr dropped ↦ rw dropped (Memᴰ-filter p xs a e q)
  ]

module _ {ℓ κ} {A : Type ℓ} (P : A → Type κ) where
  pub take-All : (n : ℕ) (xs : List A) → All P xs → All P (take n xs)
  take-All zero xs h = tt
  take-All (suc n) [] h = tt
  take-All (suc n) (x ∷ xs) h = (h.0, take-All n xs h.1)

  pub drop-All : (n : ℕ) (xs : List A) → All P xs → All P (drop n xs)
  drop-All zero xs h = h
  drop-All (suc n) [] h = tt
  drop-All (suc n) (x ∷ xs) h = drop-All n xs h.1

  pub filter-All : (p : A → Bool) (xs : List A) → All P xs → All P (filter p xs)
  filter-All p [] h = tt
  filter-All p (x ∷ xs) h = elim (Bool-cases (p x)) [
    | inl kept ↦ rw kept (h.0, filter-All p xs h.1)
    | inr dropped ↦ rw dropped (filter-All p xs h.1)
  ]

  pub all-filter : (p : A → Bool) (xs : List A) → ((a : A) → p a ≡ true → P a) → All P (filter p xs)
  all-filter p [] h = tt
  all-filter p (x ∷ xs) h = elim (Bool-cases (p x)) [
    | inl kept ↦ rw kept (h x kept, all-filter p xs h)
    | inr dropped ↦ rw dropped (all-filter p xs h)
  ]

module _ {ℓ κ κ'} {A : Type ℓ} (P : A → Type κ) (Q : A → Type κ') where
  pub both-All : (xs : List A) → All P xs → All Q xs → All (λ a. P a × Q a) xs
  both-All [] p q = tt
  both-All (x ∷ xs) p q = ((p.0, q.0), both-All xs p.1 q.1)

module _ {ℓ κ} {A : Type ℓ} {B : Type κ} (g : A → B) where
  pub map-Memᴰ : (b : B) (xs : List A) → Memᴰ b (map g xs) → (a : A) × Memᴰ a xs × (b ≡ g a)
  map-Memᴰ b [] h = elim h [ ]
  map-Memᴰ b (x ∷ xs) (Memᴰ.head e) = (x, Memᴰ.head refl, e)
  map-Memᴰ b (x ∷ xs) (Memᴰ.tail h) = let (a, i, e) = map-Memᴰ b xs h in (a, Memᴰ.tail i, e)

  pub Memᴰ-map : (b : B) (a : A) (xs : List A) → Memᴰ a xs → b ≡ g a → Memᴰ b (map g xs)
  Memᴰ-map b a (x ∷ xs) (Memᴰ.head e) q = Memᴰ.head (q ∙ ap g e)
  Memᴰ-map b a (x ∷ xs) (Memᴰ.tail h) q = Memᴰ.tail (Memᴰ-map b a xs h q)
  Memᴰ-map b a [] h q = elim h [ ]

module _ {ℓ κ κ'} {A : Type ℓ} (P : A → Type κ) (Q : A → Type κ') where
  pub map-All : ((a : A) → P a → Q a) → (xs : List A) → All P xs → All Q xs
  map-All f [] h = tt
  map-All f (x ∷ xs) h = (f x h.0, map-All f xs h.1)

module _ {ℓ κ} {A : Type ℓ} (P : A → Type κ) where
  pub all_of_Memᴰ : (xs : List A) → ((a : A) → Memᴰ a xs → P a) → All P xs
  all_of_Memᴰ [] f = tt
  all_of_Memᴰ (x ∷ xs) f = (f x (Memᴰ.head refl), all_of_Memᴰ xs (λ a h. f a (Memᴰ.tail h)))

-- Something is left of a list that is not empty.
pub take-ne-nil : (k b : ℕ) (bs : List ℕ) → take (suc k) (b ∷ bs) ≢ []
take-ne-nil k b bs e = cc
