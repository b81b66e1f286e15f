-- ===== src/Cluster/FailureDetector.antt =====
-- The failure detector (src/cluster/failure_detector.rs). A handler holds the lock of the list only
-- for its single sections, and other tasks change the list between them.
pub mod Interleaved
mod Tests
use head_end_system_tpp.Prelude.{
  ℕ, ◌/◌, ◌%◌, Bool, true, false, not, Option, none, some, List, [], ◌∷◌, ◌++◌, map, filter, length,
  get_elem?, ltb, leb, ◌==◌, if◌then◌else◌,
}
use head_end_system_tpp.Wire.{Bytes}
use head_end_system_tpp.Cluster.Address.{SocketAddr, AddrText}
use head_end_system_tpp.Cluster.Node.{
  NodeStatus, NodeInfo, Float32, touch, time_since_heartbeat, ClusterConfig,
}
use head_end_system_tpp.Cluster.Membership as M
use head_end_system_tpp.Cluster.Membership.{MembershipList, get_node}
use head_end_system_tpp.Cluster.Protocol.{ClusterMessage}
use head_end_system_tpp.Cluster.Protocol.Message
use head_end_system_tpp.Cluster.Protocol.Codec.{encode}
use head_end_system_tpp.Cluster.Server as S
use head_end_system_tpp.Cluster.Server.{Effect, inc, dec, send_to}

-- What a handler does besides changing the list. `redistribute` is the call of the device manager with
-- the failed node and the active nodes, each with its number of devices.
pub data Action : Type 0 where
  effect : Effect → Action
  set_node_dead : ℕ → Action
  redistribute : ℕ → List (ℕ × ℕ) → Action

-- The configuration that the detector was started with, the clock in the section with a number, whether the socket takes a datagram, the random number, the
-- device count after the redistribution, and what the other tasks do to the list in the gap
-- behind a section.
pub record Outside (F : Type 0) : Type 0 where
  pub config : ClusterConfig
  pub now : ℕ → ℕ
  pub takes : SocketAddr → List ℕ → Bool
  pub random : ℕ
  pub device_count : ℕ
  pub meanwhile : ℕ → MembershipList F → MembershipList F

module _ (bytes : Bytes) (text : AddrText) (f : Float32) (o : Outside f.F) where
  abbrev millis : ℕ → Option ℕ
  millis k = some (o.now k / 1000000)

  unfoldable pub broadcast : ClusterMessage → MembershipList f.F → List Action
  broadcast msg m =
      map (λ n. effect (send_to n.cluster_addr (encode bytes text msg))) (M.reachable_nodes m)

  -- The first section: a node that was heard from since, or is gone, is left alone.
  unfoldable pub suspect_section : ℕ → MembershipList f.F → Option (MembershipList f.F)
  suspect_section id m = elim (get_node id m) [
    | none ↦ none
    | some n ↦
        if leb (time_since_heartbeat (o.now 0) n) o.config.suspect_timeout
        then none
        else some (M.mark_suspect id m)
  ]

  unfoldable pub probe_helpers : ℕ → MembershipList f.F → List (NodeInfo f.F)
  probe_helpers id m = filter (λ n. not (n.node_id == id)) (M.active_nodes m)

  -- The check behind the sleep.
  unfoldable pub was_heard : ℕ → MembershipList f.F → Bool
  was_heard id m = elim (get_node id m) [
    | none ↦ false
    | some n ↦ ltb (time_since_heartbeat (o.now 4) n) o.config.suspect_timeout
  ]

  unfoldable pub probe_packet : ℕ → MembershipList f.F → List ℕ
  probe_packet id m =
      encode bytes text (Message.probe_request (millis 3) m.local_node.node_id (M.next_seq m).1 id)

  -- The request goes to the helper at `target`.
  unfoldable pub probe_through :
      ℕ → SocketAddr → MembershipList f.F → MembershipList f.F × List Action × Bool
  unfolding was_heard probe_packet
  probe_through id target m =
      let m' = (M.next_seq m).0 in
      let packet = probe_packet id m in
      if o.takes target packet
      then (let later = o.meanwhile 4 m' in
          (later, effect (send_to target packet) ∷ [], was_heard id later))
      else (m', effect (send_to target packet) ∷ [], false)

  -- A random helper is asked. There is none if no other node is active.
  unfoldable pub indirect_probe : ℕ → MembershipList f.F → MembershipList f.F × List Action × Bool
  unfolding probe_helpers probe_through
  indirect_probe id m =
      let helpers = probe_helpers id m in
      elim (get_elem? helpers (o.random % length helpers)) [
        | none ↦ (m, [], false)
        | some n ↦ probe_through id n.cluster_addr (o.meanwhile 3 m)
      ]

  unfoldable pub revive : NodeInfo f.F → NodeInfo f.F
  revive n = record (touch (o.now 5) n) { status = NodeStatus.active }

  unfoldable pub probed :
      ℕ → MembershipList f.F × List Action × Bool → MembershipList f.F × List Action
  unfolding revive
  probed id (m, actions, true) = (M.modify_node id revive (o.meanwhile 5 m), actions)
  probed id (m, actions, false) = (m, actions)

  unfoldable pub suspected : ℕ → MembershipList f.F → MembershipList f.F × List Action
  unfolding broadcast indirect_probe probed
  suspected id m =
      let (m1, seq) = M.next_seq (o.meanwhile 0 m) in
      let msg = Message.node_suspect (millis 1) m1.local_node.node_id seq id in
      let m2 = o.meanwhile 1 m1 in
      let (m3, actions) = probed id (indirect_probe id (o.meanwhile 2 m2)) in
      (
        m3,
        effect (inc S.cluster_heartbeat_timeout_total)
            ∷ effect (inc (S.hes_cluster_state_changes_total NodeStatus.active NodeStatus.suspect))
            ∷ effect (inc S.hes_cluster_suspect_nodes)
            ∷ (broadcast msg m2 ++ actions),
      )

  unfoldable pub handle_suspect_node : ℕ → MembershipList f.F → MembershipList f.F × List Action
  unfolding suspect_section suspected
  handle_suspect_node id m = elim (suspect_section id m) [
    | none ↦ (m, [])
    | some m' ↦ suspected id m'
  ]

  -- The list when the nodes to tell are read, behind the section that takes a sequence number.
  unfoldable pub announced_dead : MembershipList f.F → MembershipList f.F
  announced_dead m = o.meanwhile 1 (M.next_seq (o.meanwhile 0 m)).0

  -- The list behind the redistribution, with the new load of this node.
  unfoldable pub redistributed : MembershipList f.F → MembershipList f.F
  redistributed m =
      let m' = o.meanwhile 3 (o.meanwhile 2 m) in
      M.update_local_stats f m'.local_node.bucket_count o.device_count m'

  unfoldable pub confirmed_dead : ℕ → MembershipList f.F → MembershipList f.F × List Action
  unfolding broadcast announced_dead redistributed
  confirmed_dead id m =
      let told = announced_dead m in
      let (_, seq) = M.next_seq (o.meanwhile 0 m) in
      let msg = Message.node_dead (millis 1) (o.meanwhile 0 m).local_node.node_id seq id in
      let others = map (λ n. (n.node_id, n.device_count)) (M.active_nodes (o.meanwhile 2 told)) in
      let (m', removed) = M.remove_node id (o.meanwhile 4 (redistributed told)) in
      (
        m',
        effect (inc S.cluster_failovers_total)
            ∷ effect (inc (S.hes_cluster_state_changes_total NodeStatus.suspect NodeStatus.dead))
            ∷ effect (dec S.hes_cluster_suspect_nodes)
            ∷ set_node_dead id
            ∷ (broadcast msg told ++ (redistribute id others ∷ [])),
      )

  unfoldable pub handle_dead_node : ℕ → MembershipList f.F → MembershipList f.F × List Action
  unfolding confirmed_dead
  handle_dead_node id m = elim (get_node id m) [
    | none ↦ (m, [])
    | some n ↦ confirmed_dead id (M.mark_dead id m)
  ]
