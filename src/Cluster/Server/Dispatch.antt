-- ===== src/Cluster/Server/Dispatch.antt =====
-- How the cluster server decodes a packet and picks its handler (`run_cluster_server`,
-- `handle_message` and `handle_node_dead` of src/cluster/server.rs, `handle_probe_request` of
-- src/cluster/failure_detector.rs).
use head_end_system_tpp.Prelude.{
  ℕ, ◌*◌, ◌/◌, ◌%◌, ◌^◌, Bool, false, Option, none, some, List, [], ◌∷◌, ◌++◌, map, replicate, ltb,
  if◌then◌else◌,
}
use head_end_system_tpp.Wire.{Bytes}
use head_end_system_tpp.Wire as W
use head_end_system_tpp.Cluster.Address.{SocketAddr, AddrText}
use head_end_system_tpp.Cluster.Node.{NodeStatus, Float32, time_since_heartbeat}
use head_end_system_tpp.Cluster.Membership as M
use head_end_system_tpp.Cluster.Membership.{MembershipList, get_node}
use head_end_system_tpp.Cluster.Protocol.{ClusterMessage, ClusterMessageType, ClusterPayload}
use head_end_system_tpp.Cluster.Protocol.Message
use head_end_system_tpp.Cluster.Protocol.Codec.{encode, decode}
use head_end_system_tpp.Cluster.Server as S
use head_end_system_tpp.Cluster.Server.Join as J
use head_end_system_tpp.Cluster.Server.{
  World, Effect, inc, dec, send_to, ClusterError, invalid_message, cluster_messages_total,
}
use head_end_system_tpp.Cluster.Delegation as G
use head_end_system_tpp.Cluster.Delegation.{Node, Log, DelegationError}
use head_end_system_tpp.Scheduler.{second}
use head_end_system_tpp.DeviceManager.{DeviceManager, DeviceManagerError, device_count}
use head_end_system_tpp.DeviceManager as D
use head_end_system_tpp.DeviceManager.Ownership.{redistribute_from_failed}

-- What a handler returns: the errors of the parts that it calls are wrapped by `?`.
pub data Result : Type 0 where
  ok : Result
  err : ClusterError → Result
  delegation_err : DelegationError → Result
  device_manager_err : DeviceManagerError → Result
  database_err : Result
  panic : Result

-- The node afterwards, the effects in their order, and the result.
abbrev pub Handled : Type 0 → Type 0
Handled F = Node F × List Effect × Result

pub data Turn (F : Type 0) : Type 0 where
  goes : Node F → List Effect → Turn F
  ends : Turn F

-- What the arms meet besides the `World`: what the job scheduler answers to a job, `from_timestamp` of
-- `chrono`, whether the database takes the status of a node (the in-memory one never does), what the other tasks do to the list
-- while a probe sleeps, and the clock behind that sleep and at the answer.
pub record Around (F : Type 0) : Type 0 where
  pub adds : ℕ → ℕ → Option ℕ
  pub from_timestamp : ℕ → Option ℕ
  pub stores_status : ℕ → Bool
  pub meanwhile : MembershipList F → MembershipList F
  pub probed_at : ℕ
  pub answered_at : ℕ

module _ (bytes : Bytes) (text : AddrText) (f : Float32) (w : World) (o : Around f.F) where
  -- The `World` with the counts of the device manager.
  unfoldable pub counted : DeviceManager → World
  counted d = record w { local_bucket_count = d.local_bucket_count; device_count = device_count d }

  abbrev of_list : S.Result → Result
  of_list S.ok = ok
  of_list (S.err e) = err e

  -- A handler that works on the list alone.
  unfoldable pub on_list : Node f.F → S.Handled f.F → Handled f.F
  on_list node (m, effects, result) = (record node { membership = m }, effects, of_list result)

  unfoldable pub log_effects : Log → List Effect
  log_effects log =
      map (λ (d : SocketAddr × List ℕ). send_to d.0 d.1) log.datagrams
      ++ replicate log.delegations (inc S.cluster_delegations_total)

  -- A handler of the delegations.
  unfoldable pub on_delegation : G.Handled f.F (Unit {0}) → Handled f.F
  unfolding log_effects
  on_delegation (node, log, G.ok done) = (node, log_effects log, ok)
  on_delegation (node, log, G.err e) = (node, log_effects log, delegation_err e)
  on_delegation (node, log, G.panic) = (node, log_effects log, panic)

  unfoldable pub handle_delegate_request : SocketAddr → ClusterPayload → Node f.F → Handled f.F
  unfolding on_delegation
  handle_delegate_request from_addr (ClusterPayload.delegate_request p) node =
      on_delegation
        (G.handle_delegation_request bytes text f w o.adds o.from_timestamp from_addr p node)
  handle_delegate_request from_addr payload node = (node, [], err invalid_message)

  unfoldable pub handle_delegate_accept : ClusterPayload → Node f.F → Handled f.F
  unfolding on_delegation
  handle_delegate_accept (ClusterPayload.delegate_accept p) node =
      on_delegation (G.handle_delegation_accept p node)
  handle_delegate_accept payload node = (node, [], err invalid_message)

  unfoldable pub handle_delegate_reject : ClusterPayload → Node f.F → Handled f.F
  unfolding on_delegation
  handle_delegate_reject (ClusterPayload.delegate_reject p) node =
      on_delegation (G.handle_delegation_reject p.reason node)
  handle_delegate_reject payload node = (node, [], err invalid_message)

  -- The end of `handle_node_dead`, behind the redistribution.
  unfoldable pub after_redistribution :
      ℕ → MembershipList f.F → DeviceManager × D.Result (Unit {0}) → Node f.F × Result
  after_redistribution id m (d, D.ok done) =
      let synced = M.update_local_stats f m.local_node.bucket_count (device_count d % 2 ^ 32) m in
      (record { membership = (M.remove_node id synced).0; manager = d }, ok)
  after_redistribution id m (d, D.err e) =
      (record { membership = m; manager = d }, device_manager_err e)
  after_redistribution id m (d, D.panic) = (record { membership = m; manager = d }, panic)

  unfoldable pub handle_node_dead : ClusterPayload → Node f.F → Handled f.F
  unfolding after_redistribution
  handle_node_dead (ClusterPayload.node_dead p) node =
      let id = p.dead_node_id in
      let m = M.mark_dead id node.membership in
      let effects =
        inc S.cluster_failovers_total
        ∷ inc (S.hes_cluster_state_changes_total NodeStatus.suspect NodeStatus.dead)
        ∷ dec S.hes_cluster_suspect_nodes
        ∷ [] in
      let others = map (λ n. (n.node_id, n.device_count)) (M.active_nodes m) in
      let (node', result) =
        after_redistribution id m (redistribute_from_failed id others node.manager) in
      if o.stores_status id
      then (node', effects, result)
      else (record node { membership = m }, effects, database_err)
  handle_node_dead payload node = (node, [], err invalid_message)

  unfoldable pub was_alive : ℕ → MembershipList f.F → Bool
  was_alive id m = elim (get_node id m) [
    | none ↦ false
    | some n ↦ ltb (time_since_heartbeat o.probed_at n) (5 * second)
  ]

  -- The ping of the target, and whether it was heard from behind the sleep.
  unfoldable pub pinged :
      ℕ → SocketAddr → MembershipList f.F → MembershipList f.F × List Effect × Bool
  unfolding was_alive
  pinged id addr m =
      let (m', seq) = M.next_seq m in
      let packet =
        encode bytes text
          (Message.status_request (S.millis bytes text f w) m.local_node.node_id seq) in
      if w.takes addr packet
      then (let later = o.meanwhile m' in (later, send_to addr packet ∷ [], was_alive id later))
      else (m', send_to addr packet ∷ [], false)

  unfoldable pub ping_target : ℕ → MembershipList f.F → MembershipList f.F × List Effect × Bool
  unfolding pinged
  ping_target id m = elim (get_node id m) [
    | none ↦ (m, [], false)
    | some n ↦ pinged id n.cluster_addr m
  ]

  -- A probe response that cannot be sent is only logged.
  unfoldable pub handle_probe_request :
      ℕ → SocketAddr → MembershipList f.F → MembershipList f.F × List Effect
  unfolding ping_target
  handle_probe_request id from_addr m =
      let (m', effects, alive) = ping_target id m in
      let (m'', seq) = M.next_seq m' in
      let packet = encode bytes text (
        Message.probe_response (some (o.answered_at / 1000000)) m'.local_node.node_id seq id
          alive) in
      (m'', effects ++ (send_to from_addr packet ∷ []))

  unfoldable pub probe_arm : SocketAddr → ClusterPayload → Node f.F → Handled f.F
  unfolding handle_probe_request
  probe_arm from_addr (ClusterPayload.probe_request p) node =
      let (m, effects) = handle_probe_request p.target_node_id from_addr node.membership in
      (record node { membership = m }, effects, ok)
  probe_arm from_addr payload node = (node, [], err invalid_message)

  unfoldable pub handle_arm :
      SocketAddr → ClusterMessageType → ClusterMessage → Node f.F → Handled f.F
  unfolding on_list counted handle_delegate_request handle_delegate_accept handle_delegate_reject
      handle_node_dead probe_arm
  handle_arm from_addr ClusterMessageType.heartbeat msg node =
      on_list node
        (S.handle_heartbeat bytes text f w msg.node_id from_addr msg.payload node.membership)
  handle_arm from_addr ClusterMessageType.heartbeat_ack msg node =
      on_list node (S.handle_heartbeat_ack bytes text f w msg.node_id node.membership)
  handle_arm from_addr ClusterMessageType.status_request msg node = on_list node (
      S.handle_status_request bytes text f (counted node.manager) msg.node_id from_addr
        node.membership)
  handle_arm from_addr ClusterMessageType.status_response msg node =
      on_list node
        (S.handle_status_response bytes text f w msg.node_id from_addr msg.payload node.membership)
  handle_arm from_addr ClusterMessageType.delegate_request msg node =
      handle_delegate_request from_addr msg.payload node
  handle_arm from_addr ClusterMessageType.delegate_accept msg node =
      handle_delegate_accept msg.payload node
  handle_arm from_addr ClusterMessageType.delegate_reject msg node =
      handle_delegate_reject msg.payload node
  handle_arm from_addr ClusterMessageType.node_join msg node = on_list node (
      J.handle_node_join bytes text f (counted node.manager) msg.node_id from_addr msg.payload
        node.membership)
  handle_arm from_addr ClusterMessageType.node_leave msg node =
      on_list node (J.handle_node_leave bytes text f w msg.node_id node.membership)
  handle_arm from_addr ClusterMessageType.node_suspect msg node =
      on_list node (J.handle_node_suspect bytes text f w msg.payload node.membership)
  handle_arm from_addr ClusterMessageType.node_dead msg node = handle_node_dead msg.payload node
  handle_arm from_addr ClusterMessageType.probe_request msg node =
      probe_arm from_addr msg.payload node
  handle_arm from_addr ClusterMessageType.probe_response msg node =
      on_list node (J.handle_probe_response bytes text f w msg.payload node.membership)
  handle_arm from_addr ClusterMessageType.config_update msg node = on_list node (
      J.handle_config_update bytes text f w msg.node_id msg.seq from_addr msg.payload
        node.membership)
  handle_arm from_addr ClusterMessageType.config_update_ack msg node = (node, [], ok)

  unfoldable pub handle_message : SocketAddr → ClusterMessage → Node f.F → Handled f.F
  unfolding handle_arm
  handle_message from_addr msg node =
      let (node', effects, result) = handle_arm from_addr msg.msg_type msg node in
      (node', inc (cluster_messages_total msg.msg_type) ∷ effects, result)

  -- An error of the handler is only logged, a panic ends the task.
  unfoldable pub turned : Handled f.F → Turn f.F
  turned (node, effects, panic) = ends
  turned (node, effects, result) = goes node effects

  -- One turn of the loop of `run_cluster_server`, for a packet that arrived.
  unfoldable pub receive : SocketAddr → List ℕ → Node f.F → Turn f.F
  unfolding turned
  receive from_addr packet node = elim (decode bytes text packet) [
    | W.ok (some msg) rest ↦ turned (handle_message from_addr msg node)
    | W.ok none rest ↦ goes node []
    | W.err e rest ↦ goes node []
    | W.panic ↦ ends
  ]
