-- ===== src/Cluster/Server/Answers.antt =====
-- The status that a node sends, and the joins that it sends when it receives one
-- (src/cluster/server.rs).
use head_end_system_tpp.Prelude.{
  ℕ, ◌≡◌, ◌≢◌, ◌↔◌, refl, sym, ap, ◌∙◌, arith, true, not, Option-cases, inl, inr,
}
use head_end_system_tpp.Prelude.{none, List, filter, ◌==◌, ==_iff, filter-Memᴰ, Memᴰ-filter}
use head_end_system_tpp.Prelude.{map-Memᴰ, Memᴰ-map}
use head_end_system_tpp.Prelude.Map
use head_end_system_tpp.Wire.{Bytes}
use head_end_system_tpp.Cluster.Address.{SocketAddr, AddrText}
use head_end_system_tpp.Cluster.Node.{NodeInfo, Float32, is_reachable}
use head_end_system_tpp.Cluster.Membership as M
use head_end_system_tpp.Cluster.Membership.{MembershipList, get_node}
use head_end_system_tpp.Cluster.Protocol.{ClusterPayload, StatusResponsePayload, KnownNodeInfo}
use head_end_system_tpp.Cluster.Protocol.Message
use head_end_system_tpp.Cluster.Server as S
use head_end_system_tpp.Cluster.Server.{World, Effect, Handled}
use mathlib.Core.List.{Memᴰ}

module _ (bytes : Bytes) (text : AddrText) (f : Float32) (w : World) where
  -- The nodes that a status response names to a node are the reachable ones other than that node.
  pub nodes_for_iff :
      (id : ℕ) (m : MembershipList f.F) (k : KnownNodeInfo)
      → Memᴰ k (S.status_payload bytes text f w id m).known_nodes ↔ (
          (n : NodeInfo f.F) × Memᴰ n (Map.values m.nodes)
          × (is_reachable n ≡ true)
          × (n.node_id ≢ id)
          × (k ≡ S.known_node bytes text f w n))
  unfolding S.status_payload M.reachable_nodes
  nodes_for_iff id m k =
      let reach : List (NodeInfo f.F) = filter is_reachable (Map.values m.nodes) in
      (
        λ h.
            let (n, i, e) = map-Memᴰ (S.known_node bytes text f w) k _ h in
            let (i', other) = filter-Memᴰ (λ (n : NodeInfo f.F). not (n.node_id == id)) reach n i in
            let (i'', up) = filter-Memᴰ is_reachable (Map.values m.nodes) n i' in
            (n, i'', up, (λ same. ground (arith, other, same, ==_iff n.node_id id)), e),
        λ (n, i, up, other, e).
            Memᴰ-map (S.known_node bytes text f w) k n _
              (Memᴰ-filter (λ (n : NodeInfo f.F). not (n.node_id == id)) reach n
                (Memᴰ-filter is_reachable (Map.values m.nodes) n i up)
                (ground (arith, other, ==_iff n.node_id id)))
              e,
      )

  -- The join that goes to an address, with the sequence number that the list hands out.
  abbrev pub invitation : SocketAddr → MembershipList f.F → Effect
  invitation target m = S.datagram bytes text f w target (
      Message.node_join (S.millis bytes text f w) m.local_node.node_id (M.next_seq m).1
        (M.create_node_join_payload m))

  -- The list with the node that answers.
  abbrev pub answered :
      ℕ → SocketAddr → StatusResponsePayload → MembershipList f.F → MembershipList f.F
  answered id from_addr s m =
      M.add_or_update_node w.now (S.answering_node bytes text f w id from_addr s) m

  unknown_addrs-Memᴰ :
      (m : MembershipList f.F) (known : List KnownNodeInfo) (a : SocketAddr)
      → Memᴰ a (S.unknown_addrs bytes text f w m known) ↔ (
          (k : KnownNodeInfo) × Memᴰ k known × (get_node k.node_id m ≡ none) × (a ≡ k.cluster_addr))
  unfolding S.unknown_addrs
  unknown_addrs-Memᴰ m known a = (
    λ h.
        let (k, i, e) = map-Memᴰ (λ (k : KnownNodeInfo). k.cluster_addr) a _ h in
        let (i', u) = filter-Memᴰ (S.is_unknown bytes text f w m) known k i in
        (k, i', is_unknown→ k u, e),
    λ (k, i, u, e).
        Memᴰ-map (λ (k : KnownNodeInfo). k.cluster_addr) a k _
          (Memᴰ-filter (S.is_unknown bytes text f w m) known k i (rw (u, S.is_unknown) refl)) e,
  )
    where
      is_unknown→ :
          (k : KnownNodeInfo) → S.is_unknown bytes text f w m k ≡ true → get_node k.node_id m ≡ none
      is_unknown→ k u = elim (Option-cases (get_node k.node_id m)) [
        | inl missing ↦ missing
        | inr (n, there) ↦ absurd (cc)
      ]

  get_node-next_seq : (j : ℕ) (m : MembershipList f.F) → get_node j (M.next_seq m).0 ≡ get_node j m
  unfolding M.next_seq get_node
  get_node-next_seq j m = refl

  -- A status response sends joins to the addresses of the nodes that it names and this node does not
  -- know, the answering node having been added, and sends nothing else.
  pub handle_status_response_iff :
      (e : Effect) (id : ℕ) (from_addr : SocketAddr) (s : StatusResponsePayload)
      (m : MembershipList f.F)
      → Memᴰ e
          (S.handle_status_response bytes text f w id from_addr
            (ClusterPayload.status_response s)
            m).1
        ↔ ((k : KnownNodeInfo) × Memᴰ k s.known_nodes
            × (get_node k.node_id (answered id from_addr s m) ≡ none)
            × (e ≡ invitation k.cluster_addr (answered id from_addr s m)))
  unfolding S.handle_status_response M.next_seq
  handle_status_response_iff e id from_addr s m =
      let added = answered id from_addr s m in
      let later = (M.next_seq added).0 in
      let send = λ (a : SocketAddr). invitation a added in
      (
        λ h.
            let (a, i, sent) =
              map-Memᴰ send e (S.unknown_addrs bytes text f w later s.known_nodes) h in
            let (k, i', u, at) = (unknown_addrs-Memᴰ later s.known_nodes a).0 i in
            (k, i', sym (get_node-next_seq k.node_id added) ∙ u, sent ∙ ap send at),
        λ (k, i, u, sent).
            Memᴰ-map send e k.cluster_addr (S.unknown_addrs bytes text f w later s.known_nodes)
              ((unknown_addrs-Memᴰ later s.known_nodes k.cluster_addr).1
                (k, i, get_node-next_seq k.node_id added ∙ u, refl))
              sent,
      )
