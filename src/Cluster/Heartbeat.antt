-- ===== src/Cluster/Heartbeat.antt =====
-- The heartbeats that a node sends (src/cluster/heartbeat.rs, with `broadcast_message` of
-- src/cluster/membership.rs).
use head_end_system_tpp.Prelude.{ℕ, ◌/◌, some, List, map}
use head_end_system_tpp.Wire.{Bytes}
use head_end_system_tpp.Cluster.Address.{SocketAddr, AddrText}
use head_end_system_tpp.Cluster.Node.{Float32}
use head_end_system_tpp.Cluster.Membership as M
use head_end_system_tpp.Cluster.Membership.{MembershipList}
use head_end_system_tpp.Cluster.Protocol.{ClusterMessage}
use head_end_system_tpp.Cluster.Protocol.Message
use head_end_system_tpp.Cluster.Protocol.Codec.{encode}

module _ (bytes : Bytes) (text : AddrText) (f : Float32) where
  -- The datagrams, each with its target. One that cannot be sent is only logged.
  unfoldable pub broadcast_message :
      ClusterMessage → MembershipList f.F → List (SocketAddr × List ℕ)
  broadcast_message msg m = map (λ n. (n.cluster_addr, encode bytes text msg)) (M.reachable_nodes m)

  -- One turn of the loop, at a time in nanoseconds: the message, with the list afterwards.
  unfoldable pub heartbeat_message : ℕ → MembershipList f.F → MembershipList f.F × ClusterMessage
  heartbeat_message now m =
      let (m', seq) = M.next_seq m in
      let (m'', payload) = M.create_heartbeat_payload f m' in
      (m'', Message.heartbeat (some (now / 1000000)) m'.local_node.node_id seq payload)

  unfoldable pub heartbeat_turn :
      ℕ → MembershipList f.F → MembershipList f.F × List (SocketAddr × List ℕ)
  unfolding heartbeat_message broadcast_message
  heartbeat_turn now m = let (m', msg) = heartbeat_message now m in (m', broadcast_message msg m')
