-- ===== src/Cluster/Server/Heard.antt =====
-- What a message changes in the membership list, and what is sent in answer
-- (src/cluster/server.rs).
use head_end_system_tpp.Prelude.{
  ℕ, ◌≡◌, ◌≢◌, refl, ◌∙◌, ap, arith, Option-cases, Bool-cases, inl, inr,
}
use head_end_system_tpp.Prelude.{
  Option, none, some, Bool, true, false, List, [], ◌∷◌, take, ◌++◌, map, filter, not, ◌&&◌, ◌==◌,
  if◌then◌else◌, ==_iff, ==_refl,
}
use head_end_system_tpp.Prelude.Map
use head_end_system_tpp.Prelude.Map.{Map}
use head_end_system_tpp.Wire.{Bytes}
use head_end_system_tpp.Cluster.Address.{SocketAddr, AddrText, ip, port, socket_addr}
use head_end_system_tpp.Cluster.Node.{
  NodeInfo, Float32, touch, NodeStatus, starting, active, draining, suspect, dead, is_reachable,
  status_reachable,
}
use head_end_system_tpp.Cluster.Membership as M
use head_end_system_tpp.Cluster.Membership.{MembershipList, get_node}
use head_end_system_tpp.Cluster.Membership.Lookup.{
  announced, get_node-add_other, get_node-modify_node,
}
use head_end_system_tpp.Cluster.Protocol.{ClusterPayload, HeartbeatPayload, NodeJoinPayload}
use head_end_system_tpp.Cluster.Protocol.Message
use head_end_system_tpp.Cluster.Server as S
use head_end_system_tpp.Cluster.Server.Join as J
use head_end_system_tpp.Cluster.Server.{World, Effect, Handled}

-- A node that is starting, active or draining.
abbrev pub is_up : NodeStatus → Bool
is_up starting = true
is_up active = true
is_up draining = true
is_up suspect = false
is_up dead = false

status_reachable-is_up : (s : NodeStatus) → status_reachable s ≡ is_up s
unfolding status_reachable
status_reachable-is_up starting = refl
status_reachable-is_up active = refl
status_reachable-is_up draining = refl
status_reachable-is_up suspect = refl
status_reachable-is_up dead = refl

append-nil : {A : Type 0} (xs : List A) → xs ≡ xs ++ []
append-nil [] = refl
append-nil (x ∷ xs) = ap (λ ys. x ∷ ys) (append-nil xs)

-- Each text behind a comma.
abbrev pub after_commas : List (List ℕ) → List ℕ
after_commas [] = []
after_commas (t ∷ ts) = b',' ∷ (t ++ after_commas ts)

-- The texts with a comma between two of them.
abbrev pub joined_by_comma : List (List ℕ) → List ℕ
joined_by_comma [] = []
joined_by_comma (t ∷ ts) = t ++ after_commas ts

module _ (bytes : Bytes) (text : AddrText) (f : Float32) (w : World) where
  -- What stands under a node's id after a heartbeat of it.
  abbrev pub heard : ℕ → SocketAddr → HeartbeatPayload → Option (NodeInfo f.F) → NodeInfo f.F
  heard id from_addr h none = record {
    node_id = id;
    node_name = b'n' ∷ b'o' ∷ b'd' ∷ b'e' ∷ b'-' ∷ take 8 (w.uuid_text id);
    cluster_addr = from_addr;
    backdoor_port = 6565;
    status = h.status;
    started_at = w.now;
    last_heartbeat = w.now;
    bucket_count = h.bucket_count;
    device_count = h.device_count;
    max_device_suggested = h.max_device_suggested;
    load_percent = f.from_u8 h.load_percent;
  }
  heard id from_addr h (some n) = record n {
    status = h.status;
    last_heartbeat = w.now;
    bucket_count = h.bucket_count;
    device_count = h.device_count;
    max_device_suggested = h.max_device_suggested;
    load_percent = f.from_u8 h.load_percent;
  }

  unknown→other :
      (id : ℕ) (m : MembershipList f.F) → get_node id m ≡ none → id ≢ m.local_node.node_id
  unfolding get_node
  unknown→other id m unknown = λ self. ground (arith, unknown, self, ==_iff id m.local_node.node_id)

  -- After a heartbeat its sender is found with what it says: a node that was known (or this node
  -- itself) with the new status, counts, load and time and all else as before, an unknown one as a
  -- new node at the address that the heartbeat came from, with the backdoor port 6565 and a name
  -- made of the first eight characters of its id. Every other node is as it was.
  pub get_node-handle_heartbeat :
      (j id : ℕ) (from_addr : SocketAddr) (h : HeartbeatPayload) (m : MembershipList f.F)
      → get_node j (S.handle_heartbeat bytes text f w id from_addr (ClusterPayload.heartbeat h) m).0
        ≡ (if id == j then some (heard id from_addr h (get_node id m)) else get_node j m)
  unfolding S.handle_heartbeat S.heard_node S.node_name_of S.beat touch
  get_node-handle_heartbeat j id from_addr h m = elim (Option-cases (get_node id m)) [
    | inl unknown ↦ rw (unknown, S.take_heartbeat) (new_node unknown)
    | inr (n, known) ↦ rw (known, S.take_heartbeat) (known_node n known)
  ]
    where
      new_node :
          get_node id m ≡ none
          → get_node j (M.add_or_update_node w.now (S.heard_node bytes text f w id from_addr h) m)
            ≡ (if id == j then some (heard id from_addr h none) else get_node j m)
      new_node unknown =
          let node = S.heard_node bytes text f w id from_addr h in
          ground (arith, unknown, get_node-add_other j w.now node m (unknown→other id m unknown))

      known_node :
          (n : NodeInfo f.F)
          → get_node id m ≡ some n
          → get_node j (M.modify_node id (S.beat bytes text f w h) m)
            ≡ (if id == j then some (heard id from_addr h (some n)) else get_node j m)
      known_node n known =
          ground (arith, known, get_node-modify_node j id (S.beat bytes text f w h) m (λ n. refl))

  -- The answer to a join.
  abbrev pub answer : ℕ → SocketAddr → MembershipList f.F → Effect
  answer id target m = S.datagram bytes text f w target (
      Message.status_response (S.millis bytes text f w) m.local_node.node_id (M.next_seq m).1
        (S.status_payload bytes text f w id m))

  -- The node that joins, as its message announces it.
  abbrev pub newcomer : ℕ → SocketAddr → NodeJoinPayload → NodeInfo f.F
  newcomer id from_addr p = record {
    node_id = id;
    node_name = p.node_name;
    cluster_addr = socket_addr (ip from_addr) (port p.cluster_addr);
    backdoor_port = p.backdoor_port;
    status = starting;
    started_at = w.now;
    last_heartbeat = w.now;
    bucket_count = 0;
    device_count = 0;
    max_device_suggested = 1000;
    load_percent = f.zero;
  }

  -- The list with the node that joins.
  abbrev pub joined : ℕ → SocketAddr → NodeJoinPayload → MembershipList f.F → MembershipList f.F
  joined id from_addr p m = M.add_or_update_node w.now (newcomer id from_addr p) m

  abbrev pub joined_node : ℕ → SocketAddr → NodeJoinPayload → MembershipList f.F → NodeInfo f.F
  joined_node id from_addr p m = announced w.now (newcomer id from_addr p) (get_node id m)

  -- The addresses of the nodes that are starting, active or draining and are not this one, in the
  -- order of the list.
  abbrev pub seed_texts : ℕ → Map (NodeInfo f.F) → List (List ℕ)
  seed_texts own [] = []
  seed_texts own ((k, n) ∷ rest) =
      if is_up n.status && not (n.node_id == own)
      then text.to_string n.cluster_addr ∷ seed_texts own rest
      else seed_texts own rest

  seed_texts_lem :
      (own : ℕ) (m : Map (NodeInfo f.F))
      → map
          (λ n. text.to_string n.cluster_addr)
          (filter (λ n. not (n.node_id == own)) (filter is_reachable (Map.values m)))
        ≡ seed_texts own m
  unfolding Map.values is_reachable
  seed_texts_lem own [] = refl
  seed_texts_lem own ((k, n) ∷ rest) =
      let same = seed_texts_lem own rest in
      let up = status_reachable-is_up n.status in ground (arith, same, up)

  comma_lem : (ts : List (List ℕ)) → J.comma bytes text f w ts ≡ joined_by_comma ts
  unfolding J.comma
  comma_lem [] = refl
  comma_lem (t ∷ []) = append-nil t
  comma_lem (t ∷ u ∷ us) = ap (λ rest. t ++ (b',' ∷ rest)) (comma_lem (u ∷ us))

  seeds_lem :
      (m : MembershipList f.F)
      → J.seeds bytes text f w m ≡ joined_by_comma (seed_texts m.local_node.node_id m.nodes)
  unfolding J.seeds M.reachable_nodes
  seeds_lem m =
      comma_lem (
        map (λ n. text.to_string n.cluster_addr)
          (filter (λ n. not (n.node_id == m.local_node.node_id))
            (filter is_reachable (Map.values m.nodes))))
      ∙ ap joined_by_comma (seed_texts_lem m.local_node.node_id m.nodes)

  get_node-joined :
      (j id : ℕ) (from_addr : SocketAddr) (p : NodeJoinPayload) (m : MembershipList f.F)
      → id ≢ m.local_node.node_id
      → get_node j (joined id from_addr p m)
        ≡ (if id == j then some (joined_node id from_addr p m) else get_node j m)
  get_node-joined j id from_addr p m other =
      get_node-add_other j w.now (newcomer id from_addr p) m other

  get_node-answered :
      (j id : ℕ) (target : SocketAddr) (m : MembershipList f.F)
      → get_node j (S.handle_status_request bytes text f w id target m).0 ≡ get_node j m
  unfolding S.handle_status_request M.next_seq get_node
  get_node-answered j id target m = refl

  keeps_own :
      (id : ℕ) (from_addr : SocketAddr) (p : NodeJoinPayload) (m : MembershipList f.F)
      → (joined id from_addr p m).local_node.node_id ≡ m.local_node.node_id
  unfolding M.add_or_update_node M.sync_nodes_active_metric
  keeps_own id from_addr p m = elim (Bool-cases (id == m.local_node.node_id)) [
    | inl self ↦ rw self refl
    | inr other ↦ rw other refl
  ]

  stored_seeds :
      (id : ℕ) (from_addr : SocketAddr) (p : NodeJoinPayload) (m : MembershipList f.F)
      → J.seeds bytes text f w (joined id from_addr p m)
        ≡ joined_by_comma (seed_texts m.local_node.node_id (joined id from_addr p m).nodes)
  stored_seeds id from_addr p m =
      seeds_lem (joined id from_addr p m)
      ∙ ap (λ own. joined_by_comma (seed_texts own (joined id from_addr p m).nodes))
          (keeps_own id from_addr p m)

  -- When another node joins, it is found with what it announced: an unknown node as starting, at
  -- the IP that the message came from with the port that it announced and without devices, a known
  -- one with its new name and status at the address that it had. Every other node is as it was. One
  -- more node is counted, the addresses of the nodes that are starting, active or draining, but for
  -- this one, are stored as seeds with commas between them, and this node's status is sent to the
  -- address at which the joining node is found.
  pub handle_node_join_lem :
      (j id : ℕ) (from_addr : SocketAddr) (p : NodeJoinPayload) (m : MembershipList f.F)
      → id ≢ m.local_node.node_id
      → (get_node j
            (J.handle_node_join bytes text f w id from_addr (ClusterPayload.node_join p) m).0
          ≡ (if id == j then some (joined_node id from_addr p m) else get_node j m))
        × ((J.handle_node_join bytes text f w id from_addr (ClusterPayload.node_join p) m).1
            ≡ Effect.inc S.cluster_nodes_total
              ∷ Effect.set_cluster_seeds (
                  joined_by_comma (seed_texts m.local_node.node_id (joined id from_addr p m).nodes))
              ∷ answer id (joined_node id from_addr p m).cluster_addr (joined id from_addr p m)
              ∷ [])
  unfolding J.handle_node_join J.joining_node
  handle_node_join_lem j id from_addr p m other =
      let found : get_node id (joined id from_addr p m) ≡ some (joined_node id from_addr p m) =
        ground (arith, get_node-joined id id from_addr p m other, ==_refl id) in
      rw (found, stored_seeds id from_addr p m, J.welcome)
        (
          get_node-answered j id (joined_node id from_addr p m).cluster_addr
                (joined id from_addr p m)
              ∙ get_node-joined j id from_addr p m other,
          unfold S.handle_status_request in refl,
        )
