-- ===== src/DeviceManager/Rebalance.antt =====
-- Giving devices to the nodes that are less loaded (src/device_manager/device_manager.rs).
use head_end_system_tpp.Prelude.{
  ℕ, zero, suc, ◌+◌, ◌-◌, ◌/◌, Bool, true, false, Option, some, List, [], ◌∷◌, ◌==◌, ltb,
  if◌then◌else◌, filter, length, take,
}
use Prim.Native.Nat.{min, Ordering}
use head_end_system_tpp.Database.InMemory as Db
use head_end_system_tpp.DeviceManager.{Manager, ◌>>=◌, ◌>>◌, return, store, disown, change, ok}

-- The operations of `f32` that the code uses; nothing is assumed of them.
pub record F32 (F : Type 0) : Type 0 where
  pub zero : F
  pub add : F → F → F
  pub div : F → F → F
  pub mul : F → F → F
  pub hundred : F
  -- `as f32` of an integer, `as usize` and `as u32`
  pub of_nat : ℕ → F
  pub to_usize : F → ℕ
  pub to_u32 : F → ℕ
  pub lt : F → F → Bool
  pub partial_cmp : F → F → Option Ordering

-- A node's id, its count of devices, its load and the number of devices that it suggests.
pub record NodeLoad (F : Type 0) : Type 0 where
  pub node_id : ℕ
  pub current_count : ℕ
  pub load : F
  pub max_suggested : ℕ

module _ {F : Type 0} (f32 : F32 F) where
  -- `iter().map(...).sum()`, from what is summed before.
  unfoldable pub total_load : F → List (NodeLoad F) → F
  total_load sum [] = sum
  total_load sum (n ∷ ns) = total_load (f32.add sum n.load) ns

  unfoldable pub avg_load : List (NodeLoad F) → F → F
  unfolding total_load
  avg_load others local_load =
      f32.div (f32.add (total_load f32.zero others) local_load) (f32.of_nat (length others + 1))

  -- `partial_cmp(...).unwrap_or(Equal)` is not `Greater`. The sort is stable. No load is a NaN.
  unfoldable pub not_above : NodeLoad F → NodeLoad F → Bool
  not_above a b = elim (f32.partial_cmp a.load b.load) [ some Ordering.gt ↦ false | _ ↦ true ]

  unfoldable pub insert_by_load : NodeLoad F → List (NodeLoad F) → List (NodeLoad F)
  unfolding not_above
  insert_by_load n [] = n ∷ []
  insert_by_load n (m ∷ ms) = if not_above n m then n ∷ m ∷ ms else m ∷ insert_by_load n ms

  unfoldable pub sort_by_load : List (NodeLoad F) → List (NodeLoad F)
  unfolding insert_by_load
  sort_by_load [] = []
  sort_by_load (n ∷ ns) = insert_by_load n (sort_by_load ns)

  unfoldable pub devices_to_shed : F → ℕ → ℕ → ℕ
  devices_to_shed target local_max my_count =
      if ltb 0 local_max
      then my_count - f32.to_usize (f32.mul (f32.div target f32.hundred) (f32.of_nat local_max))
      else 0

  -- How many devices a node takes. The count of a node is far below `u32::MAX`.
  unfoldable pub can_take : F → ℕ → NodeLoad F → ℕ
  can_take avg per_node n =
      min
        ((if ltb 0 n.max_suggested
            then f32.to_u32 (f32.mul (f32.div avg f32.hundred) (f32.of_nat n.max_suggested))
            else n.current_count + per_node)
          - n.current_count)
        per_node

-- `div_ceil`.
unfoldable pub div_ceil : ℕ → ℕ → ℕ
div_ceil n zero = 0
div_ceil n (suc m) = (n + m) / suc m

unfoldable pub shed : ℕ → ℕ → Manager (Unit {0})
unfolding store disown ◌>>=◌
shed node d = do store (Db.set_device_owner d node); change (disown d)

-- The inner loop gives at most `k` of the devices that are left to a node, and returns the rest.
unfoldable pub shed_to : ℕ → ℕ → List ℕ → Manager (List ℕ)
unfolding shed ◌>>=◌
shed_to node zero ds = return ds
shed_to node (suc k) [] = return []
shed_to node (suc k) (d ∷ ds) = shed node d >> shed_to node k ds

-- `if device_idx >= devices_to_give.len() { break }`.
unfoldable pub unless_empty : (List ℕ → Manager (Unit {0})) → List ℕ → Manager (Unit {0})
unless_empty rest [] s = (s, ok tt)
unless_empty rest (d ∷ ds) s = rest (d ∷ ds) s

module _ {F : Type 0} (f32 : F32 F) where
  unfoldable pub shed_over : F → ℕ → List (NodeLoad F) → List ℕ → Manager (Unit {0})
  unfolding shed_to can_take ◌>>=◌
  shed_over avg per_node [] ds = return tt
  shed_over avg per_node (n ∷ ns) ds =
      let rest = shed_over avg per_node ns in
      shed_to n.node_id (can_take f32 avg per_node n) ds >>= unless_empty rest

  unfoldable pub rebalance_cluster : List (NodeLoad F) → F → ℕ → Manager (Unit {0})
  unfolding avg_load sort_by_load devices_to_shed div_ceil shed_over
  rebalance_cluster others local_load local_max s =
      let avg = avg_load f32 others local_load in
      let underloaded = sort_by_load f32 (filter (λ (n : NodeLoad F). f32.lt n.load avg) others) in
      let to_shed = devices_to_shed f32 avg local_max (length s.owned_devices) in
      if length others == 0
      then (s, ok tt)
      else if length underloaded == 0
      then (s, ok tt)
      else if to_shed == 0
      then (s, ok tt)
      else shed_over avg (div_ceil to_shed (length underloaded)) underloaded
          (take to_shed s.owned_devices) s
