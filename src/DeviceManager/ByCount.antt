-- ===== src/DeviceManager/ByCount.antt =====
-- The order in which the nodes of `redistribute_from_failed` take their turns
-- (src/device_manager/device_manager.rs).
use head_end_system_tpp.Prelude.{
  ℕ, ◌≤◌, arith, Bool-cases, inl, inr, List, [], ◌∷◌, ◌++◌, leb, length, All,
}
use head_end_system_tpp.DeviceManager.{DeviceManager}
use head_end_system_tpp.DeviceManager.Ownership as O
use mathlib.Core.List.{Perm}
use mathlib.Core.List.Perm

-- No node has more devices than a node behind it.
abbrev pub IsByCount : List (ℕ × ℕ) → Type 0
IsByCount [] = Unit {0}
IsByCount (n ∷ ns) = All (λ (m : ℕ × ℕ). n.1 ≤ m.1) ns × IsByCount ns

all_above :
    (a b : ℕ) (ns : List (ℕ × ℕ))
    → a ≤ b
    → All (λ (m : ℕ × ℕ). b ≤ m.1) ns
    → All (λ (m : ℕ × ℕ). a ≤ m.1) ns
all_above a b [] low above = tt
all_above a b (n ∷ ns) low above =
    let first = above.0 in (omega arith, all_above a b ns low above.1)

insert-All :
    (a : ℕ) (n : ℕ × ℕ) (ns : List (ℕ × ℕ))
    → a ≤ n.1
    → All (λ (m : ℕ × ℕ). a ≤ m.1) ns
    → All (λ (m : ℕ × ℕ). a ≤ m.1) (O.insert_by_count n ns)
unfolding O.insert_by_count
insert-All a n [] low above = (low, tt)
insert-All a n (m ∷ ms) low above = elim (Bool-cases (leb n.1 m.1)) [
  | inl front ↦ rw front (low, above)
  | inr behind ↦ rw behind (above.0, insert-All a n ms low above.1)
]

insert-IsByCount :
    (n : ℕ × ℕ) (ns : List (ℕ × ℕ)) → IsByCount ns → IsByCount (O.insert_by_count n ns)
unfolding O.insert_by_count
insert-IsByCount n [] sorted = (tt, tt)
insert-IsByCount n (m ∷ ms) sorted = elim (Bool-cases (leb n.1 m.1)) [
  | inl front ↦
      let low : n.1 ≤ m.1 = ground (arith, front) in
      rw front ((low, all_above n.1 m.1 ms low sorted.0), sorted)
  | inr behind ↦
      let low : m.1 ≤ n.1 = ground (arith, behind) in
      rw behind (insert-All m.1 n ms low sorted.0, insert-IsByCount n ms sorted.1)
]

sort-IsByCount : (ns : List (ℕ × ℕ)) → IsByCount (O.sort_by_count ns)
unfolding O.sort_by_count
sort-IsByCount [] = tt
sort-IsByCount (n ∷ ns) = insert-IsByCount n (O.sort_by_count ns) (sort-IsByCount ns)

insert-Perm : (n : ℕ × ℕ) (ns : List (ℕ × ℕ)) → Perm (O.insert_by_count n ns) (n ∷ ns)
unfolding O.insert_by_count
insert-Perm n [] = Perm.refl (n ∷ [])
insert-Perm n (m ∷ ms) = elim (Bool-cases (leb n.1 m.1)) [
  | inl front ↦ rw front (Perm.refl (n ∷ m ∷ ms))
  | inr behind ↦ rw behind (Perm.trans (Perm.cons m (insert-Perm n ms)) (Perm.swap n m ms))
]

sort-Perm : (ns : List (ℕ × ℕ)) → Perm (O.sort_by_count ns) ns
unfolding O.sort_by_count
sort-Perm [] = Perm.refl []
sort-Perm (n ∷ ns) = Perm.trans (insert-Perm n (O.sort_by_count ns)) (Perm.cons n (sort-Perm ns))

-- The nodes that take turns are the other active ones and this one, the least loaded first.
pub all_nodes_lem :
    (others : List (ℕ × ℕ)) (s : DeviceManager)
    → IsByCount (O.all_nodes others s)
      × Perm (O.all_nodes others s) (others ++ (s.local_node_id, length s.owned_devices) ∷ [])
unfolding O.all_nodes
all_nodes_lem others s =
    let nodes = others ++ (s.local_node_id, length s.owned_devices) ∷ [] in
    (sort-IsByCount nodes, sort-Perm nodes)
