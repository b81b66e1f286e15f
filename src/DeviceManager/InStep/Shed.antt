-- ===== src/DeviceManager/InStep/Shed.antt =====
-- The owners of devices through a rebalancing (src/device_manager/device_manager.rs).
use head_end_system_tpp.Prelude.{
  ℕ, zero, suc, ◌≡◌, ◌≢◌, refl, ◌∙◌, Bool, true, false, List, [], ◌∷◌, ◌==◌, if◌then◌else◌, length,
  All, Bool-cases, inl, inr, take, filter, filter-All,
}
use head_end_system_tpp.Database.InMemory as Db
use head_end_system_tpp.Database.InMemory.{InnerDb, owned_by}
use head_end_system_tpp.DeviceManager.{
  DeviceManager, Result, ok, Manager, own, disown, return, ◌>>=◌,
}
use head_end_system_tpp.DeviceManager as M
use head_end_system_tpp.DeviceManager.Rebalance as R
use head_end_system_tpp.DeviceManager.Owned.{moved, IsInStep, disown-moved-IsInStep}
use head_end_system_tpp.DeviceManager.InStep.{bind_then}

shed_to-IsInStep :
    (node k : ℕ) (ds : List ℕ) (s : DeviceManager)
    → node ≢ s.local_node_id
    → IsInStep s
    → IsInStep (R.shed_to node k ds s).0
      × ((R.shed_to node k ds s).0.local_node_id ≡ s.local_node_id)
unfolding R.shed_to R.shed M.store ◌>>=◌ Db.set_device_owner
shed_to-IsInStep node zero ds s other inv = (inv, refl)
shed_to-IsInStep node (suc k) [] s other inv = (inv, refl)
shed_to-IsInStep node (suc k) (d ∷ ds) s other inv =
    shed_to-IsInStep node k ds (disown d (moved d node s)) other
      (disown-moved-IsInStep d node s other inv)

if_keeps :
    (b : Bool) (x y : DeviceManager × Result (Unit {0}))
    → IsInStep x.0
    → IsInStep y.0
    → IsInStep (if b then x else y).0
if_keeps true x y p q = p
if_keeps false x y p q = q

unless_empty-IsInStep :
    (rest : List ℕ → Manager (Unit {0})) (ds : List ℕ) (s : DeviceManager)
    → IsInStep s
    → ((more : List ℕ) → IsInStep (rest more s).0)
    → IsInStep (R.unless_empty rest ds s).0
unfolding R.unless_empty
unless_empty-IsInStep rest [] s inv keeps = inv
unless_empty-IsInStep rest (d ∷ ds) s inv keeps = keeps (d ∷ ds)

abbrev pub OtherNodes : {F : Type 0} → ℕ → List (R.NodeLoad F) → Type 0
OtherNodes node ns = All (λ n. n.node_id ≢ node) ns

module _ {F : Type 0} (f32 : R.F32 F) where
  -- The rest of the nodes, if devices are left.
  shed_over-IsInStep :
      (avg : F) (per_node node : ℕ) (ns : List (R.NodeLoad F)) (ds : List ℕ) (s : DeviceManager)
      → s.local_node_id ≡ node
      → OtherNodes node ns
      → IsInStep s
      → IsInStep (R.shed_over f32 avg per_node ns ds s).0
  unfolding R.shed_over
  shed_over-IsInStep avg per_node node [] ds s here others inv = inv
  shed_over-IsInStep avg per_node node (n ∷ ns) ds s here others inv =
      let given_away =
        shed_to-IsInStep n.node_id (R.can_take f32 avg per_node n) ds s (rw here others.0) inv in
      bind_then (λ t. IsInStep t × (t.local_node_id ≡ node)) IsInStep _
        (R.shed_to n.node_id (R.can_take f32 avg per_node n) ds) s
        (given_away.0, given_away.1 ∙ here) (λ t kept. kept.0)
        (λ left t kept.
          unless_empty-IsInStep (R.shed_over f32 avg per_node ns) left t kept.0
            (λ more. shed_over-IsInStep avg per_node node ns more t kept.1 others.1 kept.0))

  insert_by_load-All :
      (node : ℕ) (n : R.NodeLoad F) (ns : List (R.NodeLoad F))
      → n.node_id ≢ node
      → OtherNodes node ns
      → OtherNodes node (R.insert_by_load f32 n ns)
  unfolding R.insert_by_load
  insert_by_load-All node n [] h hs = (h, tt)
  insert_by_load-All node n (m ∷ ms) h hs = elim (Bool-cases (R.not_above f32 n m)) [
    | inl first ↦ rw first (h, hs)
    | inr later ↦ rw later (hs.0, insert_by_load-All node n ms h hs.1)
  ]

  sort_by_load-All :
      (node : ℕ) (ns : List (R.NodeLoad F))
      → OtherNodes node ns
      → OtherNodes node (R.sort_by_load f32 ns)
  unfolding R.sort_by_load
  sort_by_load-All node [] h = tt
  sort_by_load-All node (n ∷ ns) h = insert_by_load-All node n _ h.0 (sort_by_load-All node ns h.1)

  pub rebalance_cluster-IsInStep :
      (others : List (R.NodeLoad F)) (local_load : F) (local_max : ℕ) (s : DeviceManager)
      → OtherNodes s.local_node_id others
      → IsInStep s
      → IsInStep (R.rebalance_cluster f32 others local_load local_max s).0
  unfolding R.rebalance_cluster
  rebalance_cluster-IsInStep others local_load local_max s other inv =
      let avg = R.avg_load f32 others local_load in
      let under = filter (λ (n : R.NodeLoad F). f32.lt n.load avg) others in
      let sorted = R.sort_by_load f32 under in
      let to_shed = R.devices_to_shed f32 avg local_max (length s.owned_devices) in
      if_keeps (length others == 0) _ _ inv (
        if_keeps (length sorted == 0) _ _ inv (
          if_keeps (to_shed == 0) _ _ inv (
            shed_over-IsInStep avg (R.div_ceil to_shed (length sorted)) s.local_node_id sorted
              (take to_shed s.owned_devices) s refl
              (sort_by_load-All s.local_node_id under
                (filter-All (λ n. n.node_id ≢ s.local_node_id) _ others other))
              inv)))
