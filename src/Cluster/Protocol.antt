-- ===== src/Cluster/Protocol.antt =====
-- Messages between the nodes of a cluster: their types (src/cluster/protocol/mod.rs, payload.rs and
-- message.rs). The children encode and decode them.
pub mod Text
pub mod Heartbeat
pub mod Join
pub mod Delegate
pub mod Status
pub mod Probe
pub mod Config
pub mod Message
pub mod Codec
pub mod RoundTrip
pub mod Panics
pub mod Sent
mod Tests
use head_end_system_tpp.Prelude.{ℕ, Bool, Option, none, some, List, ◌==◌, if◌then◌else◌}
use head_end_system_tpp.Cluster.Address.{SocketAddr}
use head_end_system_tpp.Cluster.Node.{NodeStatus}

-- What the text of an `InvalidPayload` error says.
pub data Cause : Type 0 where
  not_utf8 : Cause
  no_address : Cause
  unknown_status : ℕ → Cause
  unknown_reason : ℕ → Cause

pub data ClusterCodecError : Type 0 where
  invalid_length : ClusterCodecError
  unknown_message_type : ℕ → ClusterCodecError
  invalid_payload : Cause → ClusterCodecError

pub data ClusterMessageType : Type 0 where
  heartbeat heartbeat_ack status_request status_response delegate_request delegate_accept
        delegate_reject node_join node_leave node_suspect node_dead probe_request probe_response
        config_update config_update_ack :
      ClusterMessageType

unfoldable pub type_code : ClusterMessageType → ℕ
type_code heartbeat = 0x01
type_code heartbeat_ack = 0x02
type_code status_request = 0x10
type_code status_response = 0x11
type_code delegate_request = 0x20
type_code delegate_accept = 0x21
type_code delegate_reject = 0x22
type_code node_join = 0x30
type_code node_leave = 0x31
type_code node_suspect = 0x40
type_code node_dead = 0x41
type_code probe_request = 0x50
type_code probe_response = 0x51
type_code config_update = 0x60
type_code config_update_ack = 0x61

-- `none` stands for `Err(UnknownMessageType(code))`.
unfoldable pub type_from_code : ℕ → Option ClusterMessageType
type_from_code c =
    if c == 0x01
    then some heartbeat
    else if c == 0x02
    then some heartbeat_ack
    else if c == 0x10
    then some status_request
    else if c == 0x11
    then some status_response
    else if c == 0x20
    then some delegate_request
    else if c == 0x21
    then some delegate_accept
    else if c == 0x22
    then some delegate_reject
    else if c == 0x30
    then some node_join
    else if c == 0x31
    then some node_leave
    else if c == 0x40
    then some node_suspect
    else if c == 0x41
    then some node_dead
    else if c == 0x50
    then some probe_request
    else if c == 0x51
    then some probe_response
    else if c == 0x60
    then some config_update
    else if c == 0x61
    then some config_update_ack
    else none

pub data DelegationReason : Type 0 where
  overload shutdown rebalance node_failure : DelegationReason

unfoldable pub reason_code : DelegationReason → ℕ
reason_code overload = 0x01
reason_code shutdown = 0x02
reason_code rebalance = 0x03
reason_code node_failure = 0x04

unfoldable pub reason_from_code : ℕ → Option DelegationReason
reason_from_code c =
    if c == 0x01
    then some overload
    else if c == 0x02
    then some shutdown
    else if c == 0x03
    then some rebalance
    else if c == 0x04
    then some node_failure
    else none

-- A `String` is the list of its bytes, a `Uuid` its 128-bit number, and an `i64` its bit pattern.
pub record HeartbeatPayload : Type 0 where
  pub status : NodeStatus
  pub bucket_count : ℕ
  pub device_count : ℕ
  pub load_percent : ℕ
  pub max_device_suggested : ℕ
  pub known_nodes : List ℕ

pub record NodeJoinPayload : Type 0 where
  pub node_name : List ℕ
  pub cluster_addr : SocketAddr
  pub backdoor_port : ℕ

pub record DelegatedDevicePayload : Type 0 where
  pub device_id : ℕ
  pub ipv4 : Option (List ℕ)
  pub ipv6 : Option (List ℕ)
  pub schedule_time : ℕ

pub record DelegateRequestPayload : Type 0 where
  pub devices : List DelegatedDevicePayload
  pub reason : DelegationReason

pub record DelegateAcceptPayload : Type 0 where
  pub accepted_device_ids : List ℕ

pub record DelegateRejectPayload : Type 0 where
  pub reason : List ℕ

pub record NodeSuspectPayload : Type 0 where
  pub suspect_node_id : ℕ

pub record NodeDeadPayload : Type 0 where
  pub dead_node_id : ℕ

pub record KnownNodeInfo : Type 0 where
  pub node_id : ℕ
  pub node_name : List ℕ
  pub cluster_addr : SocketAddr
  pub backdoor_port : ℕ
  pub status : NodeStatus

pub record StatusResponsePayload : Type 0 where
  pub node_name : List ℕ
  pub status : NodeStatus
  pub bucket_count : ℕ
  pub device_count : ℕ
  pub load_percent : ℕ
  pub max_device_suggested : ℕ
  pub backdoor_port : ℕ
  pub known_nodes : List KnownNodeInfo

pub record ProbeRequestPayload : Type 0 where
  pub target_node_id : ℕ

pub record ProbeResponsePayload : Type 0 where
  pub target_node_id : ℕ
  pub is_alive : Bool

pub record ConfigUpdatePayload : Type 0 where
  pub update_id : ℕ
  pub key : List ℕ
  pub value : List ℕ

pub record ConfigUpdateAckPayload : Type 0 where
  pub update_id : ℕ
  pub success : Bool
  pub error_message : Option (List ℕ)

pub data ClusterPayload : Type 0 where
  empty : ClusterPayload
  heartbeat : HeartbeatPayload → ClusterPayload
  node_join : NodeJoinPayload → ClusterPayload
  node_suspect : NodeSuspectPayload → ClusterPayload
  node_dead : NodeDeadPayload → ClusterPayload
  delegate_request : DelegateRequestPayload → ClusterPayload
  delegate_accept : DelegateAcceptPayload → ClusterPayload
  delegate_reject : DelegateRejectPayload → ClusterPayload
  status_response : StatusResponsePayload → ClusterPayload
  probe_request : ProbeRequestPayload → ClusterPayload
  probe_response : ProbeResponsePayload → ClusterPayload
  config_update : ConfigUpdatePayload → ClusterPayload
  config_update_ack : ConfigUpdateAckPayload → ClusterPayload

pub record ClusterMessage : Type 0 where
  pub version : ℕ
  pub msg_type : ClusterMessageType
  pub node_id : ℕ
  pub seq : ℕ
  pub timestamp : ℕ
  pub payload : ClusterPayload
