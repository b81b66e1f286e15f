-- ===== src/Cluster/Membership/Valid.antt =====
-- The invariant of the membership list, and the changes of its map of nodes
-- (src/cluster/membership.rs).
use head_end_system_tpp.Prelude.{ℕ, ◌^◌, ◌<◌, ◌≡◌, refl, arith, false, none, some, [], ◌∷◌}
use head_end_system_tpp.Prelude.{◌==◌, Bool-cases, Option-cases, inl, inr}
use head_end_system_tpp.Prelude.Map
use head_end_system_tpp.Prelude.Map.{Map, IsDistinct}
use head_end_system_tpp.Cluster.Node.{NodeInfo}
use head_end_system_tpp.Cluster.Membership.{MembershipList, update_existing, put_node}

module _ {F : Type 0} where
  -- Every node stands under its own id.
  abbrev pub IsKeyed : Map (NodeInfo F) → Type 0
  IsKeyed [] = Unit {0}
  IsKeyed ((k, n) ∷ m) = (n.node_id ≡ k) × IsKeyed m

  pub get-IsKeyed :
      (k : ℕ) {n : NodeInfo F} (m : Map (NodeInfo F))
      → IsKeyed m
      → Map.get k m ≡ some n
      → n.node_id ≡ k
  unfolding Map.get
  get-IsKeyed k [] h e = cc
  get-IsKeyed k ((j, v) ∷ m) h e = elim (Bool-cases (j == k)) [
    | inl same ↦ ground arith
    | inr other ↦ get-IsKeyed k m h.1 (rw other at e)
  ]

  insert-IsKeyed :
      (n : NodeInfo F) (m : Map (NodeInfo F)) → IsKeyed m → IsKeyed (Map.insert n.node_id n m)
  unfolding Map.insert
  insert-IsKeyed n [] h = (refl, tt)
  insert-IsKeyed n ((j, v) ∷ m) h = elim (Bool-cases (j == n.node_id)) [
    | inl same ↦ rw same (refl, h.1)
    | inr other ↦ rw other (h.0, insert-IsKeyed n m h.1)
  ]

  remove-IsKeyed : (k : ℕ) (m : Map (NodeInfo F)) → IsKeyed m → IsKeyed (Map.remove k m)
  unfolding Map.remove
  remove-IsKeyed k [] h = tt
  remove-IsKeyed k ((j, v) ∷ m) h = elim (Bool-cases (j == k)) [
    | inl same ↦ rw same (remove-IsKeyed k m h.1)
    | inr other ↦ rw other (h.0, remove-IsKeyed k m h.1)
  ]

  modify-IsKeyed :
      (k : ℕ) (f : NodeInfo F → NodeInfo F) (m : Map (NodeInfo F))
      → ((n : NodeInfo F) → (f n).node_id ≡ n.node_id)
      → IsKeyed m
      → IsKeyed (Map.modify k f m)
  unfolding Map.modify
  modify-IsKeyed k f [] keeps h = tt
  modify-IsKeyed k f ((j, v) ∷ m) keeps h = elim (Bool-cases (j == k)) [
    | inl same ↦ rw same (ground (arith, keeps v), modify-IsKeyed k f m keeps h.1)
    | inr other ↦ rw other (h.0, modify-IsKeyed k f m keeps h.1)
  ]

  -- This node is not in the map, no node stands there twice, and the counter is a `u32`.
  pub record IsValid (m : MembershipList F) : Type 0 where
    pub local_absent : Map.get m.local_node.node_id m.nodes ≡ none
    pub keyed : IsKeyed m.nodes
    pub distinct : IsDistinct m.nodes
    pub seq_u32 : m.seq_counter < 2 ^ 32

  -- A write to a map of known nodes that leaves the ids and the absence of this node alone.
  pub record IsMapStep (local : ℕ) (before after : Map (NodeInfo F)) : Type 0 where
    pub absent : Map.get local before ≡ none → Map.get local after ≡ none
    pub ids : IsKeyed before → IsKeyed after
    pub once : IsDistinct before → IsDistinct after

  pub modify-IsMapStep :
      (local k : ℕ) (f : NodeInfo F → NodeInfo F) (m : Map (NodeInfo F))
      → ((n : NodeInfo F) → (f n).node_id ≡ n.node_id)
      → IsMapStep local m (Map.modify k f m)
  modify-IsMapStep local k f m keeps = record {
    absent = λ h. ground (arith, Map.get-modify local k f m);
    ids = modify-IsKeyed k f m keeps;
    once = Map.modify-IsDistinct k f m;
  }

  pub remove-IsMapStep : (local k : ℕ) (m : Map (NodeInfo F)) → IsMapStep local m (Map.remove k m)
  remove-IsMapStep local k m = record {
    absent = λ h. ground (arith, Map.get-remove local k m);
    ids = remove-IsKeyed k m;
    once = Map.remove-IsDistinct k m;
  }

  insert-IsMapStep :
      (local : ℕ) (n : NodeInfo F) (m : Map (NodeInfo F))
      → (n.node_id == local) ≡ false
      → IsMapStep local m (Map.insert n.node_id n m)
  insert-IsMapStep local n m other = record {
    absent = λ h. ground (arith, Map.get-insert local n.node_id n m);
    ids = insert-IsKeyed n m;
    once = Map.insert-IsDistinct n.node_id n m;
  }

  pub put_node-IsMapStep :
      (local now : ℕ) (n : NodeInfo F) (m : Map (NodeInfo F))
      → (n.node_id == local) ≡ false
      → IsMapStep local m (put_node now n m)
  unfolding put_node
  put_node-IsMapStep local now n m other = elim (Option-cases (Map.get n.node_id m)) [
    | inl new_one ↦ rw (new_one, put_node) (insert-IsMapStep local n m other)
    | inr (old, known) ↦
        rw (known, put_node)
          (modify-IsMapStep local n.node_id (update_existing now n) m (λ k. refl))
  ]

  pub set_nodes-IsValid :
      {m : MembershipList F} (nodes : Map (NodeInfo F)) (gauge : ℕ)
      → IsMapStep m.local_node.node_id m.nodes nodes
      → IsValid m
      → IsValid (record m { nodes = nodes; nodes_active = gauge })
  set_nodes-IsValid nodes gauge s v = record {
    local_absent = s.absent v.local_absent;
    keyed = s.ids v.keyed;
    distinct = s.once v.distinct;
    seq_u32 = v.seq_u32;
  }
