-- ===== src/Cluster/Delegation/Shutdown/Chunks.antt =====
-- The chunks of devices that a node hands over when it shuts down (src/cluster/delegation.rs).
use head_end_system_tpp.Prelude.{
  ℕ, zero, suc, ◌+◌, ◌*◌, ◌≤◌, ◌<◌, ◌≡◌, refl, ap, arith, List, [], ◌∷◌, ◌++◌, length, take, drop,
  All, length-drop, length-take,
}
use head_end_system_tpp.DeviceManager.Delegate.{DelegatedDevice}
use head_end_system_tpp.DeviceManager.Rebalance.{div_ceil}
use head_end_system_tpp.Cluster.Delegation.Shutdown.{chunks}
use native.Mathlib.Nat.{div-add-mod, mod-lt}

abbrev pub concat : {A : Type 0} → List (List A) → List A
concat [] = []
concat (c ∷ cs) = c ++ concat cs

take-drop : {A : Type 0} (k : ℕ) (xs : List A) → take k xs ++ drop k xs ≡ xs
take-drop zero xs = refl
take-drop (suc k) [] = refl
take-drop (suc k) (x ∷ xs) = ap (◌∷◌ x) (take-drop k xs)

chunks-concat :
    {A : Type 0} (fuel k : ℕ) (xs : List A)
    → 0 < k
    → length xs ≤ fuel
    → concat (chunks fuel k xs) ≡ xs
unfolding chunks
chunks-concat zero k [] pos enough = refl
chunks-concat zero k (x ∷ xs) pos enough = absurd (omega arith)
chunks-concat (suc fuel) k [] pos enough = refl
chunks-concat (suc fuel) k (x ∷ xs) pos enough =
    rw (chunks-concat fuel k (drop k (x ∷ xs)) pos (omega (arith, length-drop k (x ∷ xs))))
      (take-drop k (x ∷ xs))

-- The chunks are not empty, and no longer than asked for.
abbrev pub AreChunks : {A : Type 0} → ℕ → List (List A) → Type 0
AreChunks k cs = All (λ c. (0 < length c) × (length c ≤ k)) cs

take-some : {A : Type 0} (k : ℕ) (x : A) (xs : List A) → 0 < k → 0 < length (take k (x ∷ xs))
take-some zero x xs h = absurd (omega arith)
take-some (suc k) x xs h = omega arith

chunks-AreChunks : {A : Type 0} (fuel k : ℕ) (xs : List A) → 0 < k → AreChunks k (chunks fuel k xs)
unfolding chunks
chunks-AreChunks zero k xs pos = tt
chunks-AreChunks (suc fuel) k [] pos = tt
chunks-AreChunks (suc fuel) k (x ∷ xs) pos =
    ((take-some k x xs pos, length-take k (x ∷ xs)), chunks-AreChunks fuel k (drop k (x ∷ xs)) pos)

-- As many chunks as it takes.
length-chunks :
    {A : Type 0} (fuel k n : ℕ) (xs : List A)
    → 0 < k
    → length xs ≤ n * k
    → length (chunks fuel k xs) ≤ n
unfolding chunks
length-chunks zero k n xs pos fits = omega arith
length-chunks (suc fuel) k n [] pos fits = omega arith
length-chunks (suc fuel) k zero (x ∷ xs) pos fits = absurd (omega arith)
length-chunks (suc fuel) k (suc n) (x ∷ xs) pos fits = omega (
  arith,
  length-chunks fuel k n (drop k (x ∷ xs)) pos (omega (arith, length-drop k (x ∷ xs), fits)),
)

div_ceil-fits : (len n : ℕ) → 0 < n → len ≤ n * div_ceil len n
unfolding div_ceil
div_ceil-fits len zero h = absurd (omega arith)
div_ceil-fits len (suc m) h =
    omega (arith, div-add-mod (len + m) (suc m), mod-lt (len + m) {m = suc m} (omega arith))

factor-pos : (len n c : ℕ) → 0 < len → len ≤ n * c → 0 < c
factor-pos len n zero some_devices fits = absurd (omega arith)
factor-pos len n (suc c) some_devices fits = omega arith

-- The devices of a node that shuts down are cut up for the active nodes: the chunks together are all the
-- devices in their order, none is empty, none is longer than the devices divided by the nodes and
-- rounded up, and there are no more chunks than nodes.
pub chunks_partition :
    (devices : List DelegatedDevice) (nodes : ℕ)
    → 0 < length devices
    → 0 < nodes
    → let k = div_ceil (length devices) nodes in
      let cs = chunks (length devices) k devices in
      (concat cs ≡ devices) × AreChunks k cs × (length cs ≤ nodes)
chunks_partition devices nodes some_devices some_nodes =
    let k = div_ceil (length devices) nodes in
    let fits = div_ceil-fits (length devices) nodes some_nodes in
    let pos = factor-pos (length devices) nodes k some_devices fits in
    (
      chunks-concat (length devices) k devices pos (omega arith),
      chunks-AreChunks (length devices) k devices pos,
      length-chunks (length devices) k nodes devices pos fits,
    )
