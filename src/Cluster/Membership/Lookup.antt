-- ===== src/Cluster/Membership/Lookup.antt =====
-- What a lookup finds after each change of the membership list (src/cluster/membership.rs).
use head_end_system_tpp.Prelude.{ℕ, ◌≡◌, ◌≢◌, refl, arith, Option, none, some}
use head_end_system_tpp.Prelude.{◌==◌, if◌then◌else◌, Option-cases, inl, inr, ==_iff}
use head_end_system_tpp.Prelude.Map
use head_end_system_tpp.Prelude.Map.{Map}
use head_end_system_tpp.Cluster.Node.{NodeInfo, touch, active, suspect, dead, is_status}
use head_end_system_tpp.Cluster.Membership as M
use head_end_system_tpp.Cluster.Membership.{MembershipList, get_node, update_existing, put_node}
use mathlib.Core.Option

module _ {F : Type 0} where
  -- What stands under a node's id after an announcement of that node.
  abbrev pub announced : ℕ → NodeInfo F → Option (NodeInfo F) → NodeInfo F
  announced now n none = n
  announced now n (some existing) = record existing {
    node_name = n.node_name;
    status = n.status;
    bucket_count = n.bucket_count;
    device_count = n.device_count;
    load_percent = n.load_percent;
    max_device_suggested = n.max_device_suggested;
    last_heartbeat = now;
  }

  get-put_node :
      (j now : ℕ) (n : NodeInfo F) (m : Map (NodeInfo F))
      → Map.get j (put_node now n m)
        ≡ (if n.node_id == j then some (announced now n (Map.get j m)) else Map.get j m)
  unfolding put_node update_existing touch
  get-put_node j now n m = elim (Option-cases (Map.get n.node_id m)) [
    | inl new_one ↦ rw (new_one, put_node) (ground (arith, Map.get-insert j n.node_id n m))
    | inr (old, known) ↦
        rw (known, put_node) (ground (arith, Map.get-modify j n.node_id (update_existing now n) m))
  ]

  -- After `add_or_update_node` this node's own entry is as before, the announced node is found (a
  -- known one with its name, status and load from the announcement, but its address, backdoor port
  -- and start from before), and every other node is as before.
  pub get_node-add_or_update_node :
      (j now : ℕ) (n : NodeInfo F) (m : MembershipList F)
      → get_node j (M.add_or_update_node now n m) ≡ (
          if j == m.local_node.node_id
          then some m.local_node
          else if n.node_id == j
          then some (announced now n (Map.get j m.nodes))
          else Map.get j m.nodes)
  unfolding get_node M.add_or_update_node
  get_node-add_or_update_node j now n m = ground (arith, get-put_node j now n m.nodes)

  abbrev pub suspected : NodeInfo F → NodeInfo F
  suspected n = if is_status n.status active then record n { status = suspect } else n

  -- `mark_suspect` turns that node from active to suspect if it is known and active, and changes no
  -- other node and never this one.
  pub get_node-mark_suspect :
      (j id : ℕ) (m : MembershipList F)
      → get_node j (M.mark_suspect id m) ≡ (
          if j == m.local_node.node_id
          then some m.local_node
          else if id == j
          then Option.map suspected (Map.get j m.nodes)
          else Map.get j m.nodes)
  unfolding get_node M.mark_suspect
  get_node-mark_suspect j id m =
      ground
        (arith, Map.get-modify j id (λ (n : NodeInfo F). record n { status = suspect }) m.nodes)

  abbrev pub buried : NodeInfo F → NodeInfo F
  buried n = record n { status = dead }

  -- `mark_dead` turns that node to dead if it is known, and changes no other node and never this one.
  pub get_node-mark_dead :
      (j id : ℕ) (m : MembershipList F)
      → get_node j (M.mark_dead id m) ≡ (
          if j == m.local_node.node_id
          then some m.local_node
          else if id == j
          then Option.map buried (Map.get j m.nodes)
          else Map.get j m.nodes)
  unfolding get_node M.mark_dead
  get_node-mark_dead j id m = ground (arith, Map.get-modify j id buried m.nodes)

  -- `remove_node` returns the known node, and a lookup finds it no more, every other node as before
  -- and this node always.
  pub get_node-remove_node :
      (j id : ℕ) (m : MembershipList F)
      → ((M.remove_node id m).1 ≡ Map.get id m.nodes)
        × (get_node j (M.remove_node id m).0 ≡ (
            if j == m.local_node.node_id
            then some m.local_node
            else if id == j
            then none
            else Map.get j m.nodes))
  unfolding get_node M.remove_node
  get_node-remove_node j id m = (refl, ground (arith, Map.get-remove j id m.nodes))

  -- A write through `get_node_mut` that keeps the node's id.
  pub get_node-modify_node :
      (j id : ℕ) (g : NodeInfo F → NodeInfo F) (m : MembershipList F)
      → ((n : NodeInfo F) → (g n).node_id ≡ n.node_id)
      → get_node j (M.modify_node id g m)
        ≡ (if id == j then Option.map g (get_node id m) else get_node j m)
  unfolding get_node M.modify_node
  get_node-modify_node j id g m keeps =
      ground (arith, keeps m.local_node, ==_iff id j, Map.get-modify j id g m.nodes)

  -- What an announcement of a node that is not this one makes of a list.
  pub get_node-add_other :
      (j now : ℕ) (n : NodeInfo F) (m : MembershipList F)
      → n.node_id ≢ m.local_node.node_id
      → get_node j (M.add_or_update_node now n m)
        ≡ (if n.node_id == j then some (announced now n (get_node n.node_id m)) else get_node j m)
  unfolding get_node
  get_node-add_other j now n m other = ground (
    arith,
    other,
    ==_iff n.node_id j,
    ==_iff n.node_id m.local_node.node_id,
    ==_iff j m.local_node.node_id,
    get_node-add_or_update_node j now n m,
  )
