-- ===== src/Cluster/Server/Beat.antt =====
-- A heartbeat on its way from one node to another (src/cluster/heartbeat.rs, codec.rs, server.rs).
use head_end_system_tpp.Prelude.{ℕ, ◌≡◌, refl, arith, some, List, []}
use head_end_system_tpp.Prelude.{==_refl, ◌%◌, ◌^◌}
use head_end_system_tpp.Prelude.Map
use head_end_system_tpp.Wire.{Bytes, ok}
use head_end_system_tpp.Cluster.Address.{SocketAddr, AddrText}
use head_end_system_tpp.Cluster.Node.{NodeInfo, Float32}
use head_end_system_tpp.Cluster.Membership as M
use head_end_system_tpp.Cluster.Membership.{MembershipList, get_node}
use head_end_system_tpp.Cluster.Protocol.{ClusterMessage, HeartbeatPayload}
use head_end_system_tpp.Cluster.Protocol.Message
use head_end_system_tpp.Cluster.Protocol.Codec.{encode, decode}
use head_end_system_tpp.Cluster.Protocol.Heartbeat.{IsHeartbeat, IsUuid}
use head_end_system_tpp.Cluster.Protocol.Sent.{Built, decode-encode_built}
use head_end_system_tpp.Cluster.Heartbeat.{heartbeat_message}
use head_end_system_tpp.Cluster.Server.{World}
use head_end_system_tpp.Cluster.Server.Dispatch as D
use head_end_system_tpp.Cluster.Server as S
use head_end_system_tpp.Cluster.Server.Dispatch.{Around, Turn, goes, ends}
use head_end_system_tpp.Cluster.Delegation.{Node}
use head_end_system_tpp.Cluster.Server.Heard.{heard, get_node-handle_heartbeat}

module _ (bytes : Bytes) (text : AddrText) (f : Float32) (w : World) (o : Around f.F) where
  -- After the turn the node `id` is found as `n`.
  abbrev pub IsShown : ℕ → NodeInfo f.F → Turn f.F → Type 0
  IsShown id n (goes node effects) = get_node id node.membership ≡ some n
  IsShown id n ends = ⊥

  -- A message that decodes is handled.
  receive_decoded :
      (from_addr : SocketAddr) (packet : List ℕ) (msg : ClusterMessage) (node : Node f.F)
      → decode bytes text packet ≡ ok (some msg) []
      → D.receive bytes text f w o from_addr packet node
        ≡ D.turned bytes text f w o (D.handle_message bytes text f w o from_addr msg node)
  unfolding D.receive
  receive_decoded from_addr packet msg node e = rw (e, D.receive) refl

  -- What a node says of itself.
  abbrev pub said : MembershipList f.F → HeartbeatPayload
  said a = record {
    status = a.local_node.status;
    bucket_count = a.local_node.bucket_count % 2 ^ 16;
    device_count = a.local_node.device_count;
    load_percent = f.to_u8 a.local_node.load_percent;
    max_device_suggested = a.local_node.max_device_suggested;
    known_nodes = Map.keys a.nodes;
  }

  -- The heartbeat that a node sends is decoded by the node that receives it, which then finds the
  -- sender with the status, the counts and the load that the sender's list has, the count of the
  -- buckets cut to 16 bits and the load to its byte, and with the time of its own clock. A sender that
  -- was unknown is found at the address that the packet came from. The fields fit their places in the
  -- packet.
  pub receive-heartbeat_message :
      (from_addr : SocketAddr) (sent : ℕ) (a : MembershipList f.F) (node : Node f.F)
      → IsUuid a.local_node.node_id
      → IsHeartbeat (said a)
      → IsShown a.local_node.node_id
          (heard bytes text f w a.local_node.node_id from_addr
            (said a)
            (get_node a.local_node.node_id node.membership))
          (D.receive bytes text f w o from_addr
            (encode bytes text (heartbeat_message bytes text f sent a).1)
            node)
  unfolding heartbeat_message M.next_seq M.create_heartbeat_payload M.known_node_ids
      Message.heartbeat D.handle_message D.handle_arm D.on_list D.turned S.handle_heartbeat
  receive-heartbeat_message from_addr sent a node u h =
      let id = a.local_node.node_id in
      let msg = (heartbeat_message bytes text f sent a).1 in
      rw
        (receive_decoded from_addr (encode bytes text msg) msg node (
          decode-encode_built bytes text (some _) id _ (Built.heartbeat (said a) h) u
            (omega arith)))
        (ground (
          arith,
          ==_refl id,
          get_node-handle_heartbeat bytes text f w id id from_addr (said a) node.membership,
        ))
