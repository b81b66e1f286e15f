-- ===== src/Cluster/Membership/Gauge.antt =====
-- The gauge of active nodes that the membership list exports (`sync_nodes_active_metric` of
-- src/cluster/membership.rs).
use head_end_system_tpp.Prelude.{
  ℕ, suc, ◌≡◌, refl, sym, ◌∙◌, arith, true, false, none, some, [], ◌∷◌,
}
use head_end_system_tpp.Prelude.{◌==◌, Bool-cases, Option-cases, inl, inr}
use head_end_system_tpp.Prelude.Map
use head_end_system_tpp.Prelude.Map.{Map, IsDistinct}
use head_end_system_tpp.Cluster.Node.{NodeInfo, Float32, active, is_status, touch}
use head_end_system_tpp.Cluster.Membership as M
use head_end_system_tpp.Cluster.Membership.{MembershipList, count_active}
use head_end_system_tpp.Cluster.Membership.Steps.{Step}
use head_end_system_tpp.Cluster.Membership.Steps

module _ {F : Type 0} where
  -- The gauge shows the number of known nodes that are active.
  abbrev pub IsSynced : MembershipList F → Type 0
  IsSynced m = m.nodes_active ≡ count_active m.nodes

  -- A change of a node that leaves its status alone leaves the count alone.
  count_active-modify :
      (id : ℕ) (g : NodeInfo F → NodeInfo F) (m : Map (NodeInfo F))
      → ((n : NodeInfo F) → (g n).status ≡ n.status)
      → count_active (Map.modify id g m) ≡ count_active m
  unfolding count_active Map.modify Map.values
  count_active-modify id g [] h = refl
  count_active-modify id g ((j, v) ∷ m) h = ground (arith, h v, count_active-modify id g m h)

  -- A change of an unknown node is none.
  modify_unknown :
      (id : ℕ) (g : NodeInfo F → NodeInfo F) (m : Map (NodeInfo F))
      → Map.get id m ≡ none
      → Map.modify id g m ≡ m
  unfolding Map.get Map.modify
  modify_unknown id g [] h = refl
  modify_unknown id g ((j, v) ∷ m) h = ground (arith, modify_unknown id g m)

  -- A node that becomes active is counted once more.
  pub count_active-activate :
      (id : ℕ) (g : NodeInfo F → NodeInfo F) (n : NodeInfo F) (m : Map (NodeInfo F))
      → IsDistinct m
      → Map.get id m ≡ some n
      → is_status n.status active ≡ false
      → is_status (g n).status active ≡ true
      → count_active (Map.modify id g m) ≡ suc (count_active m)
  unfolding count_active Map.get Map.modify Map.values
  count_active-activate id g n [] d e before after = cc
  count_active-activate id g n ((j, v) ∷ m) d e before after = elim (Bool-cases (j == id)) [
    | inl same ↦
        let rest : Map.modify id g m ≡ m = modify_unknown id g m (ground arith) in
        ground (arith, rest)
    | inr other ↦ ground (arith, count_active-activate id g n m)
  ]

module _ (f : Float32) where
  -- A step that writes through `get_node_mut` is quiet if it keeps the node's status. All other
  -- steps are quiet.
  abbrev pub IsQuiet : {m m' : MembershipList f.F} → Step f m m' → Type 0
  IsQuiet (Steps.write id g keeps) = (n : NodeInfo f.F) → (g n).status ≡ n.status
  IsQuiet s = Unit {0}

  -- Adding, suspecting, burying and removing a node, heartbeats and every other operation keep the
  -- gauge equal to the number of active nodes, but for a write through `get_node_mut` that changes
  -- a status.
  pub Step-IsSynced :
      {m m' : MembershipList f.F} (s : Step f m m') → IsQuiet s → IsSynced m → IsSynced m'
  unfolding M.next_seq M.update_heartbeat M.remove_node M.set_local_status
      M.create_heartbeat_payload M.update_local_stats M.add_or_update_node M.mark_suspect
      M.mark_dead M.modify_node
  Step-IsSynced Steps.seq q h = h
  Step-IsSynced {m} (Steps.add now n) q h = elim (Bool-cases (n.node_id == m.local_node.node_id)) [
    | inl self ↦ rw self h
    | inr other ↦ rw other refl
  ]
  Step-IsSynced {m} (Steps.heartbeat now id) q h =
      h ∙ sym (count_active-modify id (touch now) m.nodes (λ n. unfold touch in refl))
  Step-IsSynced {m} (Steps.suspect id) q h = elim (Option-cases (Map.get id m.nodes)) [
    | inl unknown ↦ rw (unknown, M.mark_suspect) h
    | inr (n, known) ↦
        rw (known, M.mark_suspect)
          (elim (Bool-cases (is_status n.status active)) [
            | inl up ↦ rw up refl
            | inr other ↦ rw other h
          ])
  ]
  Step-IsSynced {m} (Steps.dead id) q h = elim (Option-cases (Map.get id m.nodes)) [
    | inl unknown ↦ rw (unknown, M.mark_dead) h
    | inr (n, known) ↦ rw (known, M.mark_dead) refl
  ]
  Step-IsSynced (Steps.remove id) q h = refl
  Step-IsSynced {m} (Steps.write id g keeps) q h = elim (Bool-cases (id == m.local_node.node_id)) [
    | inl self ↦ rw self h
    | inr other ↦ rw other (h ∙ sym (count_active-modify id g m.nodes q))
  ]
  Step-IsSynced (Steps.status s) q h = h
  Step-IsSynced Steps.payload q h = h
  Step-IsSynced (Steps.stats buckets devices) q h = h
