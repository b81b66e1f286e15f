-- ===== src/Cluster/Sample.antt =====
-- A membership list of three nodes (src/cluster/membership.rs), with numbers in place of floats.
use head_end_system_tpp.Prelude.{ℕ, ◌*◌, ◌/◌, refl, arith, [], ◌∷◌, leb, if◌then◌else◌}
use head_end_system_tpp.Prelude.Map
use head_end_system_tpp.Cluster.Address.{SocketAddr}
use head_end_system_tpp.Cluster.Node.{NodeStatus, active, suspect, NodeInfo, Float32, ClusterConfig}
use head_end_system_tpp.Cluster.Membership.{MembershipList}
use head_end_system_tpp.Cluster.Membership.Valid.{IsValid}

-- Whole percentages in place of floats.
abbrev pub whole : Float32
whole = record {
  F = ℕ;
  zero = 0;
  hundred = 100;
  ninety = 90;
  from_u8 = λ n. n;
  from_u32 = λ n. n;
  div = λ a b. a / b;
  mul = λ a b. a * b;
  geb = λ a b. leb b a;
  to_u8 = λ a. if leb 255 a then 255 else a;
}

abbrev pub config : ClusterConfig
config = record {
  node_id = 1;
  node_name = [];
  cluster_port = 6570;
  cluster_seeds = [];
  heartbeat_interval = 5;
  suspect_timeout = 15;
  dead_timeout = 30;
  backdoor_port = 6565;
  total_buckets = 24;
}

abbrev pub loopback : SocketAddr
loopback = SocketAddr.v4 0x7f000001 6570

-- A time in nanoseconds.
abbrev pub seconds : ℕ → ℕ
seconds s = s * 1000000000

abbrev pub node : ℕ → NodeStatus → ℕ → NodeInfo ℕ
node id status heard = record {
  node_id = id;
  node_name = [];
  cluster_addr = loopback;
  backdoor_port = 6565;
  status = status;
  started_at = 0;
  last_heartbeat = seconds heard;
  bucket_count = 0;
  device_count = 0;
  max_device_suggested = 1000;
  load_percent = 0;
}

abbrev pub members : MembershipList ℕ
members = record {
  local_node = node 1 active 0;
  nodes = (2, node 2 active 80) ∷ (3, node 3 suspect 10) ∷ [];
  seq_counter = 4;
  config = config;
  nodes_active = 1;
  devices_owned = 0;
  buckets_owned = 0;
}

pub members-IsValid : IsValid members
unfolding Map.get
members-IsValid = record {
  local_absent = refl;
  keyed = (refl, (refl, tt));
  distinct = (refl, (refl, tt));
  seq_u32 = omega arith;
}
