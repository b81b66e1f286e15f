-- ===== src/Cluster/Membership/Steps.antt =====
-- Sequences of operations on the membership list (src/cluster/membership.rs).
use head_end_system_tpp.Prelude.{ℕ, ◌≡◌, refl, arith, some}
use head_end_system_tpp.Prelude.{◌==◌, Bool-cases, Option-cases, inl, inr}
use head_end_system_tpp.Prelude.Map
use mathlib.Core.Option.{some-injective}
use mathlib.Core.Path.{subst}
use head_end_system_tpp.Cluster.Address.{SocketAddr}
use head_end_system_tpp.Cluster.Node.{
  NodeStatus, NodeInfo, Float32, ClusterConfig, touch, is_status, active,
}
use head_end_system_tpp.Cluster.Membership as M
use head_end_system_tpp.Cluster.Membership.{MembershipList}
use head_end_system_tpp.Cluster.Membership.Valid.{IsValid, modify-IsMapStep, remove-IsMapStep}
use head_end_system_tpp.Cluster.Membership.Valid.{put_node-IsMapStep, set_nodes-IsValid}

-- The operations that change the list, in any order and at any time. A write through
-- `get_node_mut` may be any that keeps the node's id.
module _ (f : Float32) where
  pub data Step (m : MembershipList f.F) : MembershipList f.F → Type 0 where
    seq : Step m (M.next_seq m).0
    add : (now : ℕ) (n : NodeInfo f.F) → Step m (M.add_or_update_node now n m)
    heartbeat : (now id : ℕ) → Step m (M.update_heartbeat now id m)
    suspect : (id : ℕ) → Step m (M.mark_suspect id m)
    dead : (id : ℕ) → Step m (M.mark_dead id m)
    remove : (id : ℕ) → Step m (M.remove_node id m).0
    write :
        (id : ℕ) (g : NodeInfo f.F → NodeInfo f.F)
        → ((n : NodeInfo f.F) → (g n).node_id ≡ n.node_id)
        → Step m (M.modify_node id g m)
    status : (s : NodeStatus) → Step m (M.set_local_status s m)
    payload : Step m (M.create_heartbeat_payload f m).0
    stats : (buckets devices : ℕ) → Step m (M.update_local_stats f buckets devices m)

  pub data Reach (m : MembershipList f.F) : MembershipList f.F → Type 0 where
    here : Reach m m
    next : {t u : MembershipList f.F} → Reach m t → Step t u → Reach m u

  new-IsValid :
      (addr : SocketAddr) (config : ClusterConfig) (now : ℕ) (gauges : ℕ × ℕ × ℕ)
      {m : MembershipList f.F}
      → M.new f (some addr) config now gauges ≡ some m
      → IsValid m
  unfolding M.new Map.get
  new-IsValid addr config now (a, d, b) {m = m} e =
      subst IsValid (some-injective _ m e)
        (record { local_absent = refl; keyed = tt; distinct = tt; seq_u32 = omega arith })

  add-IsValid :
      (now : ℕ) (n : NodeInfo f.F) {m : MembershipList f.F}
      → IsValid m
      → IsValid (M.add_or_update_node now n m)
  unfolding M.add_or_update_node
  add-IsValid now n {m} v = elim (Bool-cases (n.node_id == m.local_node.node_id)) [
    | inl self ↦ rw self v
    | inr other ↦ rw other (set_nodes-IsValid _ _ (put_node-IsMapStep _ now n m.nodes other) v)
  ]

  suspect-IsValid : (id : ℕ) {m : MembershipList f.F} → IsValid m → IsValid (M.mark_suspect id m)
  unfolding M.mark_suspect
  suspect-IsValid id {m} v = elim (Option-cases (Map.get id m.nodes)) [
    | inl unknown ↦ rw (unknown, M.mark_suspect) v
    | inr (n, known) ↦
        rw (known, M.mark_suspect)
          (elim (Bool-cases (is_status n.status active)) [
            | inl up ↦ rw up (set_nodes-IsValid _ _ (modify-IsMapStep _ id _ m.nodes (λ k. refl)) v)
            | inr other ↦ rw other v
          ])
  ]

  dead-IsValid : (id : ℕ) {m : MembershipList f.F} → IsValid m → IsValid (M.mark_dead id m)
  unfolding M.mark_dead
  dead-IsValid id {m} v = elim (Option-cases (Map.get id m.nodes)) [
    | inl unknown ↦ rw (unknown, M.mark_dead) v
    | inr (n, known) ↦
        rw (known, M.mark_dead)
          (set_nodes-IsValid _ _ (modify-IsMapStep _ id _ m.nodes (λ k. refl)) v)
  ]

  write-IsValid :
      (id : ℕ) (g : NodeInfo f.F → NodeInfo f.F) {m : MembershipList f.F}
      → ((n : NodeInfo f.F) → (g n).node_id ≡ n.node_id)
      → IsValid m
      → IsValid (M.modify_node id g m)
  unfolding M.modify_node
  write-IsValid id g {m} keeps v = elim (Bool-cases (id == m.local_node.node_id)) [
    | inl self ↦ rw self (record {
      local_absent = rw (keeps m.local_node) v.local_absent;
      keyed = v.keyed;
      distinct = v.distinct;
      seq_u32 = v.seq_u32;
    })
    | inr other ↦ rw other (set_nodes-IsValid _ _ (modify-IsMapStep _ id g m.nodes keeps) v)
  ]

  Step-IsValid : {m m' : MembershipList f.F} → Step m m' → IsValid m → IsValid m'
  unfolding M.next_seq M.update_heartbeat M.remove_node M.set_local_status
      M.create_heartbeat_payload M.update_local_stats touch
  Step-IsValid seq v = record {
    local_absent = v.local_absent;
    keyed = v.keyed;
    distinct = v.distinct;
    seq_u32 = omega arith;
  }
  Step-IsValid (add now n) v = add-IsValid now n v
  Step-IsValid {m} (heartbeat now id) v =
      set_nodes-IsValid _ m.nodes_active (modify-IsMapStep _ id _ m.nodes (λ k. refl)) v
  Step-IsValid (suspect id) v = suspect-IsValid id v
  Step-IsValid (dead id) v = dead-IsValid id v
  Step-IsValid {m} (remove id) v = set_nodes-IsValid _ _ (remove-IsMapStep _ id m.nodes) v
  Step-IsValid (write id g keeps) v = write-IsValid id g keeps v
  Step-IsValid (status s) v = record {
    local_absent = v.local_absent;
    keyed = v.keyed;
    distinct = v.distinct;
    seq_u32 = v.seq_u32;
  }
  Step-IsValid payload v = record {
    local_absent = v.local_absent;
    keyed = v.keyed;
    distinct = v.distinct;
    seq_u32 = v.seq_u32;
  }
  Step-IsValid (stats buckets devices) v = record {
    local_absent = v.local_absent;
    keyed = v.keyed;
    distinct = v.distinct;
    seq_u32 = v.seq_u32;
  }

  pub run-IsValid : {m m' : MembershipList f.F} → Reach m m' → IsValid m → IsValid m'
  run-IsValid here v = v
  run-IsValid (next r s) v = Step-IsValid s (run-IsValid r v)

  -- In every list that a new one becomes by any sequence of the operations, this node is not among
  -- the known nodes, every known node stands under its own id and once, and the counter of
  -- sequence numbers is a 32-bit number.
  pub Reach-IsValid :
      (addr : SocketAddr) (config : ClusterConfig) (now : ℕ) (gauges : ℕ × ℕ × ℕ)
      {m m' : MembershipList f.F}
      → M.new f (some addr) config now gauges ≡ some m
      → Reach m m'
      → IsValid m'
  Reach-IsValid addr config now gauges e r = run-IsValid r (new-IsValid addr config now gauges e)
