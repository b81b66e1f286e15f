-- ===== src/Cluster/Membership.antt =====
-- The membership list of a node (src/cluster/membership.rs).
pub mod Valid
pub mod Steps
pub mod Lookup
pub mod Timeouts
pub mod Gauge
mod Tests
use head_end_system_tpp.Prelude.{ℕ, ◌+◌, ◌%◌, ◌^◌, Bool, ◌&&◌, Option, none, some, List, [], map}
use head_end_system_tpp.Prelude.{ltb, ◌==◌, if◌then◌else◌, length, filter}
use head_end_system_tpp.Prelude.Map
use head_end_system_tpp.Prelude.Map.{Map}
use head_end_system_tpp.Cluster.Address.{SocketAddr}
use head_end_system_tpp.Cluster.Node.{
  NodeStatus, active, suspect, dead, is_status, NodeInfo, Float32, new_local,
}
use head_end_system_tpp.Cluster.Node.{
  is_available, is_reachable, touch, time_since_heartbeat, ClusterConfig,
}
use head_end_system_tpp.Cluster.Protocol.{HeartbeatPayload, NodeJoinPayload}
use mathlib.Core.Option

-- `nodes_active`, `devices_owned` and `buckets_owned` are the gauges of `METRICS_CLUSTER` that the
-- list sets.
pub record MembershipList (F : Type 0) : Type 0 where
  pub local_node : NodeInfo F
  pub nodes : Map (NodeInfo F)
  pub seq_counter : ℕ
  pub config : ClusterConfig
  pub nodes_active : ℕ
  pub devices_owned : ℕ
  pub buckets_owned : ℕ

-- `cluster_addr` is what `config.cluster_addr()` parsed; `none` stands for `Err(InvalidConfig)`.
-- The gauges keep what they hold.
unfoldable pub new :
    (f : Float32) → Option SocketAddr → ClusterConfig → ℕ → ℕ × ℕ × ℕ → Option (MembershipList f.F)
new f none config now gauges = none
new f (some addr) config now (a, d, b) = some (record {
  local_node = new_local f config.node_id config.node_name addr config.backdoor_port now;
  nodes = [];
  seq_counter = 0;
  config = config;
  nodes_active = a;
  devices_owned = d;
  buckets_owned = b;
})

module _ {F : Type 0} where
  -- `wrapping_add(1)` on a `u32`.
  unfoldable pub next_seq : MembershipList F → MembershipList F × ℕ
  next_seq m = let seq = (m.seq_counter + 1) % 2 ^ 32 in (record m { seq_counter = seq }, seq)

  unfoldable pub active_nodes : MembershipList F → List (NodeInfo F)
  active_nodes m = filter is_available (Map.values m.nodes)

  unfoldable pub reachable_nodes : MembershipList F → List (NodeInfo F)
  reachable_nodes m = filter is_reachable (Map.values m.nodes)

  unfoldable pub get_node : ℕ → MembershipList F → Option (NodeInfo F)
  get_node id m = if id == m.local_node.node_id then some m.local_node else Map.get id m.nodes

  -- A write through `get_node_mut`; an unknown node changes nothing.
  unfoldable pub modify_node : ℕ → (NodeInfo F → NodeInfo F) → MembershipList F → MembershipList F
  modify_node id f m =
      if id == m.local_node.node_id
      then record m { local_node = f m.local_node }
      else record m { nodes = Map.modify id f m.nodes }

  -- The number of active nodes other than this one, as `sync_nodes_active_metric` counts them.
  unfoldable pub count_active : Map (NodeInfo F) → ℕ
  count_active nodes = length (filter (λ n. is_status n.status active) (Map.values nodes))

  unfoldable pub sync_nodes_active_metric : MembershipList F → MembershipList F
  sync_nodes_active_metric m = record m { nodes_active = count_active m.nodes }

  -- The fields that an announcement overwrites in a known node.
  unfoldable pub update_existing : ℕ → NodeInfo F → NodeInfo F → NodeInfo F
  unfolding touch
  update_existing now node existing = touch now (record existing {
    node_name = node.node_name;
    status = node.status;
    bucket_count = node.bucket_count;
    device_count = node.device_count;
    load_percent = node.load_percent;
    max_device_suggested = node.max_device_suggested;
  })

  unfoldable pub put_node : ℕ → NodeInfo F → Map (NodeInfo F) → Map (NodeInfo F)
  unfolding update_existing
  put_node now node nodes = elim (Map.get node.node_id nodes) [
    | some existing ↦ Map.modify node.node_id (update_existing now node) nodes
    | none ↦ Map.insert node.node_id node nodes
  ]

  unfoldable pub add_or_update_node : ℕ → NodeInfo F → MembershipList F → MembershipList F
  unfolding put_node sync_nodes_active_metric
  add_or_update_node now node m =
      if node.node_id == m.local_node.node_id
      then m
      else sync_nodes_active_metric (record m { nodes = put_node now node m.nodes })

  unfoldable pub update_heartbeat : ℕ → ℕ → MembershipList F → MembershipList F
  update_heartbeat now id m = record m { nodes = Map.modify id (touch now) m.nodes }

  abbrev with_status : NodeStatus → NodeInfo F → NodeInfo F
  with_status s n = record n { status = s }

  unfoldable pub mark_suspect : ℕ → MembershipList F → MembershipList F
  unfolding sync_nodes_active_metric
  mark_suspect id m = elim (Map.get id m.nodes) [
    | none ↦ m
    | some node ↦
        if is_status node.status active
        then sync_nodes_active_metric
            (record m { nodes = Map.modify id (with_status suspect) m.nodes })
        else m
  ]

  unfoldable pub mark_dead : ℕ → MembershipList F → MembershipList F
  unfolding sync_nodes_active_metric
  mark_dead id m = elim (Map.get id m.nodes) [
    | none ↦ m
    | some node ↦
        sync_nodes_active_metric (record m { nodes = Map.modify id (with_status dead) m.nodes })
  ]

  unfoldable pub remove_node : ℕ → MembershipList F → MembershipList F × Option (NodeInfo F)
  unfolding sync_nodes_active_metric
  remove_node id m =
      (sync_nodes_active_metric (record m { nodes = Map.remove id m.nodes }), Map.get id m.nodes)

  unfoldable pub is_suspect_candidate : ℕ → ClusterConfig → NodeInfo F → Bool
  is_suspect_candidate now config n =
      is_status n.status active && ltb config.suspect_timeout (time_since_heartbeat now n)

  unfoldable pub is_dead_candidate : ℕ → ClusterConfig → NodeInfo F → Bool
  is_dead_candidate now config n =
      is_status n.status suspect
      && ltb (config.suspect_timeout + config.dead_timeout) (time_since_heartbeat now n)

  unfoldable pub get_suspect_candidates : ℕ → MembershipList F → List ℕ
  unfolding is_suspect_candidate
  get_suspect_candidates now m =
      map (λ n. n.node_id) (filter (is_suspect_candidate now m.config) (Map.values m.nodes))

  unfoldable pub get_dead_candidates : ℕ → MembershipList F → List ℕ
  unfolding is_dead_candidate
  get_dead_candidates now m =
      map (λ n. n.node_id) (filter (is_dead_candidate now m.config) (Map.values m.nodes))

  unfoldable pub known_node_ids : MembershipList F → List ℕ
  known_node_ids m = Map.keys m.nodes

  unfoldable pub create_node_join_payload : MembershipList F → NodeJoinPayload
  create_node_join_payload m = record {
    node_name = m.local_node.node_name;
    cluster_addr = m.local_node.cluster_addr;
    backdoor_port = m.local_node.backdoor_port;
  }

  unfoldable pub set_local_status : NodeStatus → MembershipList F → MembershipList F
  set_local_status s m = record m { local_node = with_status s m.local_node }

  unfoldable pub node_count : MembershipList F → ℕ
  node_count m = length m.nodes + 1

  unfoldable pub active_node_count : MembershipList F → ℕ
  unfolding active_nodes
  active_node_count m = length (active_nodes m) + (if is_available m.local_node then 1 else 0)

module _ (f : Float32) where
  -- The payload, and the list with the gauges that it exports.
  unfoldable pub create_heartbeat_payload :
      MembershipList f.F → MembershipList f.F × HeartbeatPayload
  unfolding known_node_ids
  create_heartbeat_payload m = (
    record m {
      devices_owned = m.local_node.device_count;
      buckets_owned = m.local_node.bucket_count;
    },
    record {
      status = m.local_node.status;
      bucket_count = m.local_node.bucket_count % 2 ^ 16;
      device_count = m.local_node.device_count;
      load_percent = f.to_u8 m.local_node.load_percent;
      max_device_suggested = m.local_node.max_device_suggested;
      known_nodes = known_node_ids m;
    },
  )

  unfoldable pub local_load : ℕ → ℕ → f.F
  local_load device_count target =
      if ltb 0 target
      then f.mul (f.div (f.from_u32 device_count) (f.from_u32 target)) f.hundred
      else f.zero

  unfoldable pub update_local_stats : ℕ → ℕ → MembershipList f.F → MembershipList f.F
  unfolding local_load
  update_local_stats bucket_count device_count m = record m {
    local_node = record (m.local_node) {
      bucket_count = bucket_count;
      device_count = device_count;
      load_percent = local_load device_count m.local_node.max_device_suggested;
    };
  }
