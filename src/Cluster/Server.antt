-- ===== src/Cluster/Server.antt =====
-- The handlers of the cluster server (src/cluster/server.rs), from the membership list to the new
-- list, with what they do to the outside and their result.
pub mod Join
pub mod Dispatch
pub mod Changes
pub mod Calm
pub mod Reached
pub mod Heard
pub mod Answers
pub mod Beat
mod Tests
use head_end_system_tpp.Prelude.{
  ℕ, ◌/◌, ◌%◌, ◌^◌, Bool, true, false, Option, none, some, List, [], ◌∷◌, map,
}
use head_end_system_tpp.Prelude.{◌==◌, if◌then◌else◌, filter, take, not}
use head_end_system_tpp.Wire.{Bytes}
use head_end_system_tpp.Cluster.Address.{SocketAddr, AddrText, ip, port, socket_addr}
use head_end_system_tpp.Cluster.Node.{NodeStatus, NodeInfo, Float32, touch}
use head_end_system_tpp.Cluster.Membership as M
use head_end_system_tpp.Cluster.Membership.{MembershipList, get_node}
use head_end_system_tpp.Cluster.Protocol.{
  ClusterMessage, ClusterMessageType, ClusterPayload, HeartbeatPayload, StatusResponsePayload,
}
use head_end_system_tpp.Cluster.Protocol.{KnownNodeInfo}
use head_end_system_tpp.Cluster.Protocol.Message
use head_end_system_tpp.Cluster.Protocol.Codec.{encode}

-- The errors that the handlers return.
pub data ClusterError : Type 0 where
  invalid_message communication_error : ClusterError

-- The metrics of `METRICS_CLUSTER` that the handlers count, by their fields and labels.
pub data Metric : Type 0 where
  cluster_heartbeat_received_total cluster_nodes_total hes_cluster_suspect_nodes
        cluster_heartbeat_timeout_total cluster_failovers_total cluster_delegations_total :
      Metric
  cluster_messages_total : ClusterMessageType → Metric
  hes_cluster_state_changes_total : NodeStatus → NodeStatus → Metric

-- What a handler does besides changing the list.
pub data Effect : Type 0 where
  inc dec : Metric → Effect
  send_to : SocketAddr → List ℕ → Effect
  set_cluster_seeds : List ℕ → Effect
  set_config_value : List ℕ → List ℕ → Effect

pub data Result : Type 0 where
  ok : Result
  err : ClusterError → Result

-- What the server meets: the clock in nanoseconds, whether the socket takes a datagram, what the
-- configuration store answers to a new value (`none`, or the text of its error), how many buckets
-- and devices the device manager has, and the text of a `Uuid`.
pub record World : Type 0 where
  pub now : ℕ
  pub takes : SocketAddr → List ℕ → Bool
  pub refusal : List ℕ → List ℕ → Option (List ℕ)
  pub local_bucket_count : ℕ
  pub device_count : ℕ
  pub uuid_text : ℕ → List ℕ

-- The list afterwards, the effects in their order, and the result.
abbrev pub Handled : Type 0 → Type 0
Handled F = MembershipList F × List Effect × Result

module _ (bytes : Bytes) (text : AddrText) (f : Float32) (w : World) where
  -- `Utc::now().timestamp_millis()`.
  abbrev pub millis : Option ℕ
  millis = some (w.now / 1000000)

  -- The datagram of `send_message`.
  unfoldable pub datagram : SocketAddr → ClusterMessage → Effect
  datagram target msg = send_to target (encode bytes text msg)

  unfoldable pub send_message : SocketAddr → ClusterMessage → Result
  send_message target msg =
      if w.takes target (encode bytes text msg) then ok else err communication_error

  -- The fields that a heartbeat overwrites.
  unfoldable pub beat : HeartbeatPayload → NodeInfo f.F → NodeInfo f.F
  beat h n = touch w.now (record n {
    status = h.status;
    bucket_count = h.bucket_count;
    device_count = h.device_count;
    load_percent = f.from_u8 h.load_percent;
    max_device_suggested = h.max_device_suggested;
  })

  -- `format!("node-{}", &node_id.to_string()[..8])`.
  unfoldable pub node_name_of : ℕ → List ℕ
  node_name_of id = b'n' ∷ b'o' ∷ b'd' ∷ b'e' ∷ b'-' ∷ take 8 (w.uuid_text id)

  unfoldable pub heard_node : ℕ → SocketAddr → HeartbeatPayload → NodeInfo f.F
  heard_node id from_addr h = record {
    node_id = id;
    node_name = node_name_of id;
    cluster_addr = from_addr;
    backdoor_port = 6565;
    status = h.status;
    started_at = w.now;
    last_heartbeat = w.now;
    bucket_count = h.bucket_count;
    device_count = h.device_count;
    max_device_suggested = h.max_device_suggested;
    load_percent = f.from_u8 h.load_percent;
  }

  -- The ids that the heartbeat gossips are only looked up for the log.
  unfoldable pub take_heartbeat :
      ℕ → SocketAddr → HeartbeatPayload → MembershipList f.F → MembershipList f.F
  take_heartbeat id from_addr h m = elim (get_node id m) [
    | some node ↦ M.modify_node id (beat h) m
    | none ↦ M.add_or_update_node w.now (heard_node id from_addr h) m
  ]

  unfoldable pub handle_heartbeat :
      ℕ → SocketAddr → ClusterPayload → MembershipList f.F → Handled f.F
  unfolding take_heartbeat
  handle_heartbeat id from_addr (ClusterPayload.heartbeat h) m =
      (take_heartbeat id from_addr h m, inc cluster_heartbeat_received_total ∷ [], ok)
  handle_heartbeat id from_addr payload m = (m, [], err invalid_message)

  unfoldable pub handle_heartbeat_ack : ℕ → MembershipList f.F → Handled f.F
  handle_heartbeat_ack id m = (M.update_heartbeat w.now id m, [], ok)

  unfoldable pub known_node : NodeInfo f.F → KnownNodeInfo
  known_node n = record {
    node_id = n.node_id;
    node_name = n.node_name;
    cluster_addr = n.cluster_addr;
    backdoor_port = n.backdoor_port;
    status = n.status;
  }

  -- The nodes that a status response names to the node `id`.
  unfoldable pub nodes_for : ℕ → MembershipList f.F → List KnownNodeInfo
  nodes_for id m = map known_node (filter (λ n. not (n.node_id == id)) (M.reachable_nodes m))

  unfoldable pub status_payload : ℕ → MembershipList f.F → StatusResponsePayload
  unfolding nodes_for
  status_payload id m = record {
    node_name = m.local_node.node_name;
    status = m.local_node.status;
    bucket_count = w.local_bucket_count % 2 ^ 16;
    device_count = w.device_count % 2 ^ 32;
    load_percent = f.to_u8 m.local_node.load_percent;
    max_device_suggested = m.local_node.max_device_suggested;
    backdoor_port = m.local_node.backdoor_port;
    known_nodes = nodes_for id m;
  }

  unfoldable pub handle_status_request : ℕ → SocketAddr → MembershipList f.F → Handled f.F
  unfolding datagram send_message status_payload
  handle_status_request id from_addr m =
      let (m', seq) = M.next_seq m in
      let msg = Message.status_response millis m.local_node.node_id seq (status_payload id m) in
      (m', datagram from_addr msg ∷ [], send_message from_addr msg)

  -- The node that answers with its status.
  unfoldable pub answering_node : ℕ → SocketAddr → StatusResponsePayload → NodeInfo f.F
  answering_node id from_addr s = record {
    node_id = id;
    node_name = s.node_name;
    cluster_addr = socket_addr (ip from_addr) (port from_addr);
    backdoor_port = s.backdoor_port;
    status = s.status;
    started_at = w.now;
    last_heartbeat = w.now;
    bucket_count = s.bucket_count;
    device_count = s.device_count;
    max_device_suggested = s.max_device_suggested;
    load_percent = f.from_u8 s.load_percent;
  }

  is_unknown : MembershipList f.F → KnownNodeInfo → Bool
  is_unknown m k = elim (get_node k.node_id m) [ none ↦ true | some n ↦ false ]

  unfoldable pub unknown_addrs : MembershipList f.F → List KnownNodeInfo → List SocketAddr
  unfolding is_unknown
  unknown_addrs m known = map (λ k. k.cluster_addr) (filter (is_unknown m) known)

  -- A datagram that cannot be sent is only logged.
  unfoldable pub handle_status_response :
      ℕ → SocketAddr → ClusterPayload → MembershipList f.F → Handled f.F
  unfolding datagram answering_node unknown_addrs
  handle_status_response id from_addr (ClusterPayload.status_response s) m =
      let added = M.add_or_update_node w.now (answering_node id from_addr s) m in
      let (m', seq) = M.next_seq added in
      let msg =
        Message.node_join millis added.local_node.node_id seq (M.create_node_join_payload added) in
      (m', map (λ addr. datagram addr msg) (unknown_addrs m' s.known_nodes), ok)
  handle_status_response id from_addr payload m = (m, [], err invalid_message)
