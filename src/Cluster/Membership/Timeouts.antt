-- ===== src/Cluster/Membership/Timeouts.antt =====
-- Which nodes the failure detector is told about: `get_suspect_candidates` and
-- `get_dead_candidates` of src/cluster/membership.rs.
use head_end_system_tpp.Prelude.{ℕ, ◌+◌, ◌<◌, ◌≡◌, ◌⊎◌, ◌↔◌, inl, inr, arith, Bool, true}
use head_end_system_tpp.Prelude.{some, List, [], ◌∷◌, map, filter, ◌==◌, Bool-cases}
use head_end_system_tpp.Prelude.Map
use head_end_system_tpp.Prelude.Map.{Map, IsDistinct}
use head_end_system_tpp.Cluster.Node.{
  NodeInfo, active, suspect, is_status, time_since_heartbeat, status_code,
}
use head_end_system_tpp.Cluster.Membership.{MembershipList, is_suspect_candidate, is_dead_candidate}
use head_end_system_tpp.Cluster.Membership.{get_suspect_candidates, get_dead_candidates}
use head_end_system_tpp.Cluster.Membership.Valid.{IsValid, IsKeyed}

abbrev pub Elem : ℕ → List ℕ → Type 0
Elem a [] = ⊥
Elem a (x ∷ xs) = (a ≡ x) ⊎ Elem a xs

module _ {F : Type 0} (p : NodeInfo F → Bool) where
  abbrev ids : Map (NodeInfo F) → List ℕ
  ids m = map (λ n. n.node_id) (filter p (Map.values m))

  listed→known :
      (id : ℕ) (m : Map (NodeInfo F))
      → IsKeyed m
      → IsDistinct m
      → Elem id (ids m)
      → (n : NodeInfo F) × (Map.get id m ≡ some n) × (p n ≡ true)
  unfolding Map.values Map.get
  listed→known id [] k d h = absurd h
  listed→known id ((j, v) ∷ m) k d h = elim (Bool-cases (p v)) [
    | inl kept ↦ elim (rw kept at h) [
      | inl here ↦ (v, ground arith, kept)
      | inr later ↦ behind (listed→known id m k.1 d.1 later)
    ]
    | inr dropped ↦ behind (listed→known id m k.1 d.1 (rw dropped at h))
  ]
    where
      behind :
          (n : NodeInfo F) × (Map.get id m ≡ some n) × (p n ≡ true)
          → (n : NodeInfo F) × (Map.get id ((j, v) ∷ m) ≡ some n) × (p n ≡ true)
      behind (n, e, q) = (n, ground arith, q)

  known→listed :
      (id : ℕ) (m : Map (NodeInfo F)) (n : NodeInfo F)
      → IsKeyed m
      → Map.get id m ≡ some n
      → p n ≡ true
      → Elem id (ids m)
  unfolding Map.values Map.get
  known→listed id [] n k e h = cc
  known→listed id ((j, v) ∷ m) n k e h = elim (Bool-cases (j == id)) [
    | inl same ↦
        let e' : v ≡ n = ground arith in let q : p v ≡ true = rw e' h in rw q (inl (ground arith))
    | inr other ↦
        let ih = known→listed id m n k.1 (rw other at e) h in
        elim (Bool-cases (p v)) [ inl kept ↦ rw kept (inr ih) | inr dropped ↦ rw dropped ih ]
  ]

module _ {F : Type 0} (now : ℕ) (m : MembershipList F) where
  -- In a valid list the suspect candidates are exactly the known nodes that are active and whose
  -- last heartbeat is longer ago than the suspect timeout.
  pub get_suspect_candidates_iff :
      (id : ℕ)
      → IsValid m
      → Elem id (get_suspect_candidates now m) ↔ (
          (n : NodeInfo F) × (Map.get id m.nodes ≡ some n)
          × (n.status ≡ active)
          × (m.config.suspect_timeout < time_since_heartbeat now n))
  unfolding get_suspect_candidates
  get_suspect_candidates_iff id v = (
    λ h.
        let (n, e, q) =
          listed→known (is_suspect_candidate now m.config) id m.nodes v.keyed v.distinct h in
        (
          n,
          e,
          unfold is_suspect_candidate is_status status_code in ground arith,
          unfold is_suspect_candidate in ground arith,
        ),
    λ (n, e, s, t).
        known→listed (is_suspect_candidate now m.config) id m.nodes n v.keyed e
          (unfold is_suspect_candidate is_status status_code in ground arith),
  )

  -- In a valid list the dead candidates are exactly the known nodes that are suspect and whose last
  -- heartbeat is longer ago than the suspect timeout and the dead timeout together.
  pub get_dead_candidates_iff :
      (id : ℕ)
      → IsValid m
      → Elem id (get_dead_candidates now m) ↔ (
          (n : NodeInfo F) × (Map.get id m.nodes ≡ some n)
          × (n.status ≡ suspect)
          × (m.config.suspect_timeout + m.config.dead_timeout < time_since_heartbeat now n))
  unfolding get_dead_candidates
  get_dead_candidates_iff id v = (
    λ h.
        let (n, e, q) =
          listed→known (is_dead_candidate now m.config) id m.nodes v.keyed v.distinct h in
        (
          n,
          e,
          unfold is_dead_candidate is_status status_code in ground arith,
          unfold is_dead_candidate in ground arith,
        ),
    λ (n, e, s, t).
        known→listed (is_dead_candidate now m.config) id m.nodes n v.keyed e
          (unfold is_dead_candidate is_status status_code in ground arith),
  )
