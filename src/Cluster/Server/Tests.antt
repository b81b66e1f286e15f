-- ===== src/Cluster/Server/Tests.antt =====
-- The handlers of src/cluster/server.rs on a list of three nodes.
use head_end_system_tpp.Prelude.{ℕ, ◌≡◌, ◌↔◌, refl, arith, true, false, none, some, List, [], ◌∷◌}
use head_end_system_tpp.Prelude.Map
use head_end_system_tpp.Wire.BigEndian.{big_endian}
use head_end_system_tpp.Cluster.Address.{SocketAddr, AddrText}
use head_end_system_tpp.Cluster.Node.{active}
use head_end_system_tpp.Cluster.Sample.{whole, seconds, loopback, node, members, members-IsValid}
use head_end_system_tpp.Cluster.Membership.{MembershipList, get_node}
use head_end_system_tpp.Cluster.Protocol.{
  ClusterPayload, HeartbeatPayload, NodeJoinPayload, StatusResponsePayload, KnownNodeInfo,
}
use head_end_system_tpp.Cluster.Protocol.Codec.{encode}
use head_end_system_tpp.Cluster.Protocol.Message
use head_end_system_tpp.Cluster.Heartbeat.{heartbeat_message}
use head_end_system_tpp.Cluster.Server as S
use head_end_system_tpp.Cluster.Server.Join as J
use head_end_system_tpp.Cluster.Server.{World, Effect}
use head_end_system_tpp.Cluster.Server.Dispatch as D
use head_end_system_tpp.Cluster.Server.Dispatch.{Around}
use head_end_system_tpp.Cluster.Delegation.{Node}
use head_end_system_tpp.Database.{pos}
use head_end_system_tpp.Cluster.Server.Reached.{IsLeft, receive-IsLeft}
use head_end_system_tpp.Cluster.Server.Heard.{
  heard, get_node-handle_heartbeat, joined_by_comma, seed_texts, joined, joined_node, answer,
  handle_node_join_lem,
}
use head_end_system_tpp.Cluster.Server.Answers.{invitation, answered, handle_status_response_iff}
use head_end_system_tpp.Cluster.Server.Beat.{IsShown, said, receive-heartbeat_message}
use mathlib.Core.List.{Memᴰ}

abbrev text : AddrText
text = record { to_string = λ a. []; parse = λ s. some loopback }

abbrev world : World
world = record {
  now = seconds 99;
  takes = λ a p. true;
  refusal = λ k v. none;
  local_bucket_count = 24;
  device_count = 3;
  uuid_text = λ id. [];
}

-- No other task does anything while a probe sleeps.
abbrev around : Around ℕ
around = record {
  adds = λ id t. some id;
  from_timestamp = λ s. some (seconds s);
  stores_status = λ id. true;
  meanwhile = λ m. m;
  probed_at = seconds 101;
  answered_at = seconds 101;
}

-- The node with its list, two devices and a job scheduler without jobs.
abbrev node_with : MembershipList ℕ → Node ℕ
node_with m = record {
  membership = m;
  manager = record {
    local_node_id = 1;
    local_bucket_count = 24;
    owned_devices = 10 ∷ 12 ∷ [];
    scheduler = record {
      bucket_number = 24;
      database = record {
        devices = [];
        device_registration = [];
        buckets = (10, (pos 0, 1)) ∷ (12, (pos 1, 1)) ∷ (13, (pos 2, 3)) ∷ [];
        scheduled_connections = [];
      };
      owned_devices = some (10 ∷ 12 ∷ []);
      local_node_id = 1;
      test_mode = false;
      active_tasks = [];
      jobs = [];
    };
  };
}

abbrev beat : HeartbeatPayload
beat = record {
  status = active;
  bucket_count = 1;
  device_count = 2;
  load_percent = 3;
  max_device_suggested = 4;
  known_nodes = 5 ∷ 6 ∷ [];
}

abbrev join : NodeJoinPayload
join = record { node_name = []; cluster_addr = loopback; backdoor_port = 7000 }

abbrev status : StatusResponsePayload
status = record {
  node_name = [];
  status = active;
  bucket_count = 1;
  device_count = 2;
  load_percent = 3;
  max_device_suggested = 4;
  backdoor_port = 7000;
  known_nodes =
      record {
        node_id = 9;
        node_name = [];
        cluster_addr = loopback;
        backdoor_port = 7000;
        status = active;
      }
      ∷ [];
}

abbrev peer : SocketAddr
peer = SocketAddr.v4 0x7f000001 6571

abbrev packet : List ℕ
packet = encode big_endian text (heartbeat_message big_endian text whole (seconds 98) members).1

abbrev receiver : MembershipList ℕ
receiver = record members { local_node = node 7 active 0 }

-- Node 2 says that node 3 is dead.
abbrev dead_packet : List ℕ
dead_packet = encode big_endian text (Message.node_dead (some 1) 2 8 3)

receive-IsLeft_example :
    IsLeft big_endian text whole world around dead_packet
      (D.receive big_endian text whole world around peer dead_packet (node_with members))
unfolding Map.get
receive-IsLeft_example =
    receive-IsLeft big_endian text whole world around peer dead_packet (node_with members)
      (λ m v. v) (refl, (refl, (refl, tt))) members-IsValid

get_node-handle_heartbeat_example :
    get_node 2
      (S.handle_heartbeat big_endian text whole world 2 peer
        (ClusterPayload.heartbeat beat)
        members).0
    ≡ some (heard big_endian text whole world 2 peer beat (get_node 2 members))
get_node-handle_heartbeat_example =
    get_node-handle_heartbeat big_endian text whole world 2 2 peer beat members

handle_node_join_lem_example :
    (get_node 9
        (J.handle_node_join big_endian text whole world 9 peer
          (ClusterPayload.node_join join)
          members).0
      ≡ some (joined_node big_endian text whole world 9 peer join members))
    × ((J.handle_node_join big_endian text whole world 9 peer
          (ClusterPayload.node_join join)
          members).1
        ≡ Effect.inc S.cluster_nodes_total
          ∷ Effect.set_cluster_seeds (
              joined_by_comma (
                seed_texts big_endian text whole world members.local_node.node_id
                  (joined big_endian text whole world 9 peer join members).nodes))
          ∷ answer big_endian text whole world 9
              (joined_node big_endian text whole world 9 peer join members).cluster_addr
              (joined big_endian text whole world 9 peer join members)
          ∷ [])
handle_node_join_lem_example =
    handle_node_join_lem big_endian text whole world 9 9 peer join members (λ e. omega arith)

abbrev asked : Effect
asked =
    invitation big_endian text whole world loopback
      (answered big_endian text whole world 2 peer status members)

handle_status_response_iff_example :
    Memᴰ asked
      (S.handle_status_response big_endian text whole world 2 peer
        (ClusterPayload.status_response status)
        members).1
    ↔ ((k : KnownNodeInfo) × Memᴰ k status.known_nodes
        × (get_node k.node_id (answered big_endian text whole world 2 peer status members) ≡ none)
        × (asked
            ≡ invitation big_endian text whole world k.cluster_addr
                (answered big_endian text whole world 2 peer status members)))
handle_status_response_iff_example =
    handle_status_response_iff big_endian text whole world asked 2 peer status members

receive-heartbeat_message_example :
    IsShown big_endian text whole world around 1
      (heard big_endian text whole world 1 peer
        (said big_endian text whole world around members)
        (get_node 1 receiver))
      (D.receive big_endian text whole world around peer packet (node_with receiver))
unfolding Map.keys
receive-heartbeat_message_example =
    receive-heartbeat_message big_endian text whole world around peer (seconds 98) members
      (node_with receiver) (omega arith)
      (record {
        buckets = omega arith;
        devices = omega arith;
        load = omega arith;
        target = omega arith;
        known = (omega arith, (omega arith, tt));
        count = omega arith;
      })
