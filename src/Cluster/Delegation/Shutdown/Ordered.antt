-- ===== src/Cluster/Delegation/Shutdown/Ordered.antt =====
-- The order in which the nodes are asked at a shutdown (src/cluster/delegation.rs).
use head_end_system_tpp.Prelude.{
  ℕ, zero, suc, ◌+◌, ◌-◌, ◌/◌, ◌≡◌, ◌≤◌, ◌<◌, refl, ap, arith, Bool, true, false, Bool-cases, inl,
  inr, List, [], ◌∷◌, leb, length, filter, All,
}
use head_end_system_tpp.Prelude.Map
use head_end_system_tpp.Wire.{Bytes}
use head_end_system_tpp.Cluster.Address.{AddrText}
use head_end_system_tpp.Cluster.Node.{
  NodeStatus, active, starting, draining, suspect, dead, NodeInfo, Float32, is_available,
  status_available,
}
use head_end_system_tpp.Cluster.Membership as M
use head_end_system_tpp.Cluster.Server.{World}
use head_end_system_tpp.DeviceManager.Delegate.{DelegatedDevice, devices_for_shutdown}
use head_end_system_tpp.DeviceManager.Rebalance.{div_ceil}
use head_end_system_tpp.Cluster.Delegation.{Node, ok}
use head_end_system_tpp.Cluster.Delegation.Shutdown as S
use head_end_system_tpp.Cluster.Delegation.Shutdown.{
  insert_by_devices, sort_by_devices, prepare_each, shutdown_delegation, delegate_prepared,
}
use head_end_system_tpp.Cluster.Delegation.Shutdown.Chunks.{concat, AreChunks}
use head_end_system_tpp.Cluster.Delegation.Shutdown.Partition.{
  AreKnown, Sends, AreAsked, distribute_lem,
}
use mathlib.Core.List.{Perm}
use mathlib.Core.List.Perm

abbrev pub is_active : NodeStatus → Bool
is_active active = true
is_active starting = false
is_active draining = false
is_active suspect = false
is_active dead = false

status_available-is_active : (s : NodeStatus) → status_available s ≡ is_active s
unfolding status_available
status_available-is_active active = refl
status_available-is_active starting = refl
status_available-is_active draining = refl
status_available-is_active suspect = refl
status_available-is_active dead = refl

module _ {F : Type 0} where
  -- No node has more devices than a node behind it.
  abbrev pub IsByDevices : List (NodeInfo F) → Type 0
  IsByDevices [] = Unit {0}
  IsByDevices (n ∷ ns) =
      All (λ (m : NodeInfo F). n.device_count ≤ m.device_count) ns × IsByDevices ns

  -- The nodes that are active.
  abbrev pub active_ones : List (NodeInfo F) → List (NodeInfo F)
  active_ones ns = filter (λ n. is_active n.status) ns

  active_ones_lem : (ns : List (NodeInfo F)) → filter is_available ns ≡ active_ones ns
  unfolding is_available
  active_ones_lem [] = refl
  active_ones_lem (n ∷ ns) =
      let same = active_ones_lem ns in
      let up = status_available-is_active n.status in ground (arith, same, up)

  insert-All :
      (P : NodeInfo F → Type 0) (n : NodeInfo F) (ns : List (NodeInfo F))
      → P n
      → All P ns
      → All P (insert_by_devices n ns)
  unfolding insert_by_devices
  insert-All P n [] here above = (here, tt)
  insert-All P n (m ∷ ms) here above = elim (Bool-cases (leb n.device_count m.device_count)) [
    | inl front ↦ rw front (here, above)
    | inr behind ↦ rw behind (above.0, insert-All P n ms here above.1)
  ]

  sort-All :
      (P : NodeInfo F → Type 0) (ns : List (NodeInfo F)) → All P ns → All P (sort_by_devices ns)
  unfolding sort_by_devices
  sort-All P [] all = tt
  sort-All P (n ∷ ns) all = insert-All P n (sort_by_devices ns) all.0 (sort-All P ns all.1)

  all_above :
      (a b : ℕ) (ns : List (NodeInfo F))
      → a ≤ b
      → All (λ (m : NodeInfo F). b ≤ m.device_count) ns
      → All (λ (m : NodeInfo F). a ≤ m.device_count) ns
  all_above a b [] low above = tt
  all_above a b (n ∷ ns) low above =
      let first = above.0 in (omega arith, all_above a b ns low above.1)

  insert-IsByDevices :
      (n : NodeInfo F) (ns : List (NodeInfo F))
      → IsByDevices ns
      → IsByDevices (insert_by_devices n ns)
  unfolding insert_by_devices
  insert-IsByDevices n [] sorted = (tt, tt)
  insert-IsByDevices n (m ∷ ms) sorted = elim (Bool-cases (leb n.device_count m.device_count)) [
    | inl front ↦
        let low : n.device_count ≤ m.device_count = ground (arith, front) in
        rw front ((low, all_above n.device_count m.device_count ms low sorted.0), sorted)
    | inr behind ↦
        let low : m.device_count ≤ n.device_count = ground (arith, behind) in
        rw behind (
          insert-All (λ k. m.device_count ≤ k.device_count) n ms low sorted.0,
          insert-IsByDevices n ms sorted.1,
        )
  ]

  sort-IsByDevices : (ns : List (NodeInfo F)) → IsByDevices (sort_by_devices ns)
  unfolding sort_by_devices
  sort-IsByDevices [] = tt
  sort-IsByDevices (n ∷ ns) = insert-IsByDevices n (sort_by_devices ns) (sort-IsByDevices ns)

  insert-Perm : (n : NodeInfo F) (ns : List (NodeInfo F)) → Perm (insert_by_devices n ns) (n ∷ ns)
  unfolding insert_by_devices
  insert-Perm n [] = Perm.refl (n ∷ [])
  insert-Perm n (m ∷ ms) = elim (Bool-cases (leb n.device_count m.device_count)) [
    | inl front ↦ rw front (Perm.refl (n ∷ m ∷ ms))
    | inr behind ↦ rw behind (Perm.trans (Perm.cons m (insert-Perm n ms)) (Perm.swap n m ms))
  ]

  sort-Perm : (ns : List (NodeInfo F)) → Perm (sort_by_devices ns) ns
  unfolding sort_by_devices
  sort-Perm [] = Perm.refl []
  sort-Perm (n ∷ ns) = Perm.trans (insert-Perm n (sort_by_devices ns)) (Perm.cons n (sort-Perm ns))

  insert-length :
      (n : NodeInfo F) (ns : List (NodeInfo F)) → length (insert_by_devices n ns) ≡ 1 + length ns
  unfolding insert_by_devices
  insert-length n [] = refl
  insert-length n (m ∷ ms) = let behind = insert-length n ms in ground (arith, behind)

  sort-length : (ns : List (NodeInfo F)) → length (sort_by_devices ns) ≡ length ns
  unfolding sort_by_devices
  sort-length [] = refl
  sort-length (n ∷ ns) = omega (arith, insert-length n (sort_by_devices ns), sort-length ns)

div_ceil_lem : (n m : ℕ) → 0 < m → div_ceil n m ≡ (n + m - 1) / m
unfolding div_ceil
div_ceil_lem n zero some_nodes = absurd (omega arith)
div_ceil_lem n (suc m) some_nodes = let same : n + suc m - 1 ≡ n + m = omega arith in rw same refl

module _ (bytes : Bytes) (text : AddrText) (f : Float32) (w : World) where
  begins :
      (devices : List DelegatedDevice) (node : Node f.F)
      → prepare_each w.now node.manager.scheduler.database (devices_for_shutdown node.manager)
        ≡ ok devices
      → 0 < length devices
      → shutdown_delegation bytes text f w node ≡ delegate_prepared bytes text f w (ok devices) node
  unfolding shutdown_delegation prepare_each
  begins devices node prepared some_devices = goes_on (devices_for_shutdown node.manager) prepared
    where
      goes_on :
          (ids : List ℕ)
          → prepare_each w.now node.manager.scheduler.database ids ≡ ok devices
          → elim ids as (λ ids. S.Handled f.F (Unit {0})) [
            | [] ↦ (node, S.silent, ok tt)
            | id ∷ ids ↦
                delegate_prepared bytes text f w
                  (prepare_each w.now node.manager.scheduler.database (id ∷ ids))
                  node
          ]
            ≡ delegate_prepared bytes text f w (ok devices) node
      goes_on [] h =
          let none : devices ≡ [] = cc h in absurd (omega (arith, rw none at some_devices))
      goes_on (id ∷ ids) h = ap (λ r. delegate_prepared bytes text f w r node) h

  -- A node that shuts down and can prepare all its devices, of which there are some, cuts them into
  -- chunks, none of them empty or longer than the number of devices divided by that of the nodes,
  -- rounded up. It asks the active nodes for one chunk each, in an order in which no node has more
  -- devices than a later one: the datagrams that it sends are these requests, to the address of the
  -- node, with the devices of the chunk and the next sequence number. It succeeds and keeps the
  -- devices until the answers come. There is an active node, the list finds every active node under
  -- its id, and the socket takes every datagram.
  pub shutdown_delegation_lem :
      (devices : List DelegatedDevice) (node : Node f.F)
      → prepare_each w.now node.manager.scheduler.database (devices_for_shutdown node.manager)
        ≡ ok devices
      → 0 < length devices
      → 0 < length (active_ones (Map.values node.membership.nodes))
      → Sends bytes text f w
      → AreKnown bytes text f w (active_ones (Map.values node.membership.nodes)) node
      → (targets : List (NodeInfo f.F)) × (cs : List (List DelegatedDevice)) × IsByDevices targets
        × Perm targets (active_ones (Map.values node.membership.nodes))
        × AreAsked bytes text f w targets cs node (shutdown_delegation bytes text f w node)
        × AreChunks ((length devices + length targets - 1) / length targets) cs
        × (concat cs ≡ devices)
        × (length cs ≤ length targets)
  unfolding delegate_prepared M.active_nodes
  shutdown_delegation_lem devices node prepared some_devices some_nodes sends known =
      let nodes = active_ones (Map.values node.membership.nodes) in
      let many = sort-length nodes in
      let k = div_ceil_lem (length devices) (length (sort_by_devices nodes)) (omega arith) in
      let (cs, asked, sized, whole, few) =
        distribute_lem bytes text f w devices (sort_by_devices nodes) node some_devices
          (omega arith) sends (sort-All _ nodes known) in
      rw (begins devices node prepared some_devices) (
        rw (active_ones_lem (Map.values node.membership.nodes)) (
          sort_by_devices nodes,
          cs,
          sort-IsByDevices nodes,
          sort-Perm nodes,
          asked,
          rw k at sized,
          whole,
          few,
        ))
