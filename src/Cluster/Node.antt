-- ===== src/Cluster/Node.antt =====
-- Nodes of the cluster and their configuration (src/cluster/node.rs).
pub mod Codes
use head_end_system_tpp.Prelude.{
  ℕ, ◌-◌, ◌*◌, ◌/◌, Bool, true, false, Option, none, some, List, ◌==◌,
}
use head_end_system_tpp.Prelude.{if◌then◌else◌}
use head_end_system_tpp.Cluster.Address.{SocketAddr}
use Prim.Native.String.{String}
use text.Mathlib.Text.{◌==◌ as str_eq}

pub data NodeStatus : Type 0 where
  starting active draining suspect dead : NodeStatus

unfoldable pub status_code : NodeStatus → ℕ
status_code starting = 0x01
status_code active = 0x02
status_code draining = 0x03
status_code suspect = 0x04
status_code dead = 0x05

unfoldable pub status_from_code : ℕ → Option NodeStatus
status_from_code c =
    if c == 0x01
    then some starting
    else if c == 0x02
    then some active
    else if c == 0x03
    then some draining
    else if c == 0x04
    then some suspect
    else if c == 0x05
    then some dead
    else none

unfoldable pub status_as_str : NodeStatus → String
status_as_str starting = "starting"
status_as_str active = "active"
status_as_str draining = "draining"
status_as_str suspect = "suspect"
status_as_str dead = "dead"

unfoldable pub status_from_str : String → Option NodeStatus
status_from_str s =
    if str_eq s "starting"
    then some starting
    else if str_eq s "active"
    then some active
    else if str_eq s "draining"
    then some draining
    else if str_eq s "suspect"
    then some suspect
    else if str_eq s "dead"
    then some dead
    else none

-- `node.status == NodeStatus::Active`, and so for the others.
unfoldable pub is_status : NodeStatus → NodeStatus → Bool
unfolding status_code
is_status s t = status_code s == status_code t

-- `F` is the type of 32-bit floats. Times are nanoseconds since the epoch.
pub record NodeInfo (F : Type 0) : Type 0 where
  pub node_id : ℕ
  pub node_name : List ℕ
  pub cluster_addr : SocketAddr
  pub backdoor_port : ℕ
  pub status : NodeStatus
  pub started_at : ℕ
  pub last_heartbeat : ℕ
  pub bucket_count : ℕ
  pub device_count : ℕ
  pub max_device_suggested : ℕ
  pub load_percent : F

-- The arithmetic of `f32` that the cluster uses, with its `as` casts.
pub record Float32 : Type 1 where
  pub F : Type 0
  pub zero : F
  pub hundred : F
  pub ninety : F
  pub from_u8 : ℕ → F
  pub from_u32 : ℕ → F
  pub div : F → F → F
  pub mul : F → F → F
  pub geb : F → F → Bool
  pub to_u8 : F → ℕ

abbrev pub default_max_devices : ℕ
default_max_devices = 1000

unfoldable pub new_local : (f : Float32) → ℕ → List ℕ → SocketAddr → ℕ → ℕ → NodeInfo f.F
new_local f node_id node_name cluster_addr backdoor_port now = record {
  node_id = node_id;
  node_name = node_name;
  cluster_addr = cluster_addr;
  backdoor_port = backdoor_port;
  status = starting;
  started_at = now;
  last_heartbeat = now;
  bucket_count = 0;
  device_count = 0;
  max_device_suggested = default_max_devices;
  load_percent = f.zero;
}

unfoldable pub status_available : NodeStatus → Bool
status_available active = true
status_available s = false

unfoldable pub status_reachable : NodeStatus → Bool
status_reachable starting = true
status_reachable active = true
status_reachable draining = true
status_reachable s = false

module _ {F : Type 0} where
  unfoldable pub is_available : NodeInfo F → Bool
  unfolding status_available
  is_available n = status_available n.status

  unfoldable pub is_reachable : NodeInfo F → Bool
  unfolding status_reachable
  is_reachable n = status_reachable n.status

  -- `update_heartbeat` at the time `now`.
  unfoldable pub touch : ℕ → NodeInfo F → NodeInfo F
  touch now n = record n { last_heartbeat = now }

  -- In nanoseconds, cut to whole milliseconds; a heartbeat in the future counts as 0.
  unfoldable pub time_since_heartbeat : ℕ → NodeInfo F → ℕ
  time_since_heartbeat now n = (now - n.last_heartbeat) / 1_000_000 * 1_000_000

-- Durations are nanoseconds.
pub record ClusterConfig : Type 0 where
  pub node_id : ℕ
  pub node_name : List ℕ
  pub cluster_port : ℕ
  pub cluster_seeds : List SocketAddr
  pub heartbeat_interval : ℕ
  pub suspect_timeout : ℕ
  pub dead_timeout : ℕ
  pub backdoor_port : ℕ
  pub total_buckets : ℕ
