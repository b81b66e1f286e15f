-- ===== src/Cluster/Delegation.antt =====
-- The delegation of devices between nodes (src/cluster/delegation.rs), over the membership list and
-- the device manager of a node.
pub mod Shutdown
pub mod Replies
mod Tests
use head_end_system_tpp.Prelude.{
  ℕ, ◌*◌, ◌/◌, Bool, true, false, not, ◌&&◌, Option, none, some, List, [], ◌∷◌, map, leb,
  if◌then◌else◌,
}
use head_end_system_tpp.Prelude.Map
use head_end_system_tpp.Wire.{Bytes}
use head_end_system_tpp.Cluster.Address.{SocketAddr, AddrText}
use head_end_system_tpp.Cluster.Node.{NodeInfo, Float32, is_available}
use head_end_system_tpp.Cluster.Membership as M
use head_end_system_tpp.Cluster.Membership.{MembershipList}
use head_end_system_tpp.Cluster.Protocol.{
  ClusterMessage, DelegationReason, DelegatedDevicePayload, DelegateRequestPayload,
  DelegateAcceptPayload,
}
use head_end_system_tpp.Cluster.Protocol.Message
use head_end_system_tpp.Cluster.Protocol.Codec.{encode}
use head_end_system_tpp.Cluster.Server.{World, millis}
use head_end_system_tpp.Database.{DatabaseError}
use head_end_system_tpp.Scheduler.{second}
use head_end_system_tpp.DeviceManager.{DeviceManager, DeviceManagerError}
use head_end_system_tpp.DeviceManager as D
use head_end_system_tpp.DeviceManager.Delegate.{DelegatedDevice, accept_delegation, release_devices}
use mathlib.Core.Option

pub data DelegationError : Type 0 where
  node_not_found : ℕ → DelegationError
  no_nodes_available communication_error : DelegationError
  delegation_rejected : List ℕ → DelegationError
  device_manager_error : DeviceManagerError → DelegationError
  database_error : DatabaseError → DelegationError

pub data Result (A : Type 0) : Type 0 where
  ok : A → Result A
  err : DelegationError → Result A
  panic : Result A

-- What the handlers of a node share.
pub record Node (F : Type 0) : Type 0 where
  pub membership : MembershipList F
  pub manager : DeviceManager

-- The datagrams that were sent in their order, and how often `cluster_delegations_total` was counted.
pub record Log : Type 0 where
  pub datagrams : List (SocketAddr × List ℕ)
  pub delegations : ℕ

-- A handler: the node afterwards, the log and the result.
abbrev pub Handled : Type 0 → Type 0 → Type 0
Handled F A = Node F × Log × Result A

abbrev pub silent : Log
silent = record { datagrams = []; delegations = 0 }

-- `min_by_key`: the first of the nodes with the fewest devices.
unfoldable pub fewest_devices : {F : Type 0} → List (NodeInfo F) → Option (NodeInfo F)
fewest_devices [] = none
fewest_devices (n ∷ ns) = elim (fewest_devices ns) [
  | none ↦ some n
  | some m ↦ some (if leb n.device_count m.device_count then n else m)
]

-- `d.schedule_time.and_utc().timestamp()`, in seconds.
unfoldable pub to_payload : DelegatedDevice → DelegatedDevicePayload
to_payload d = record {
  device_id = d.device_id;
  ipv4 = d.ipv4;
  ipv6 = d.ipv6;
  schedule_time = d.schedule_time / second;
}

-- `from_timestamp(..., 0).unwrap_or_default()`, where `from_timestamp` is that of `chrono`.
unfoldable pub from_payload : (ℕ → Option ℕ) → DelegatedDevicePayload → DelegatedDevice
from_payload from_timestamp p = record {
  device_id = p.device_id;
  ipv4 = p.ipv4;
  ipv6 = p.ipv6;
  schedule_time = Option.get_or (from_timestamp p.schedule_time) 0;
}

abbrev pub is_shutdown : DelegationReason → Bool
is_shutdown DelegationReason.shutdown = true
is_shutdown r = false

-- "Node is not available or overloaded".
abbrev pub not_available_text : List ℕ
not_available_text =
    78 ∷ 111 ∷ 100 ∷ 101 ∷ 32 ∷ 105 ∷ 115 ∷ 32 ∷ 110 ∷ 111 ∷ 116 ∷ 32 ∷ 97 ∷ 118 ∷ 97 ∷ 105 ∷ 108
    ∷ 97 ∷ 98 ∷ 108 ∷ 101 ∷ 32 ∷ 111 ∷ 114 ∷ 32 ∷ 111 ∷ 118 ∷ 101 ∷ 114 ∷ 108 ∷ 111 ∷ 97 ∷ 100 ∷ 101
    ∷ 100 ∷ []

module _ (bytes : Bytes) (text : AddrText) (f : Float32) (w : World) where
  -- `send_message(...).await?`, and what is returned after it.
  unfoldable pub sending :
      {A : Type 0} → Node f.F → SocketAddr → ClusterMessage → ℕ → A → Handled f.F A
  sending node target msg counted a =
      let packet = encode bytes text msg in
      if w.takes target packet
      then (node, record { datagrams = (target, packet) ∷ []; delegations = counted }, ok a)
      else (
        node,
        record { datagrams = (target, packet) ∷ []; delegations = 0 },
        err communication_error,
      )

  -- The node that a request goes to, by its id or as the least loaded one.
  unfoldable pub target_of : Option ℕ → MembershipList f.F → Result (ℕ × SocketAddr)
  unfolding fewest_devices
  target_of (some id) m = elim (M.get_node id m) [
    | none ↦ err (node_not_found id)
    | some node ↦ ok (id, node.cluster_addr)
  ]
  target_of none m = elim (fewest_devices (M.active_nodes m)) [
    | none ↦ err no_nodes_available
    | some node ↦ ok (node.node_id, node.cluster_addr)
  ]

  abbrev pub device_ids : List DelegatedDevice → List ℕ
  device_ids [] = []
  device_ids (d ∷ ds) = d.device_id ∷ device_ids ds

  unfoldable pub request_to :
      List DelegatedDevice
      → DelegationReason
      → Result (ℕ × SocketAddr)
      → Node f.F
      → Handled f.F (List ℕ)
  unfolding sending to_payload
  request_to devices reason (err e) node = (node, silent, err e)
  request_to devices reason panic node = (node, silent, panic)
  request_to devices reason (ok (target_id, target_addr)) node =
      let (m, seq) = M.next_seq node.membership in
      sending (record node { membership = m }) target_addr
        (Message.delegate_request (millis bytes text f w) node.manager.local_node_id seq
          (record { devices = map to_payload devices; reason = reason }))
        0 (device_ids devices)

  unfoldable pub request_delegation :
      List DelegatedDevice → DelegationReason → Option ℕ → Node f.F → Handled f.F (List ℕ)
  unfolding request_to target_of
  request_delegation [] reason target node = (node, silent, ok [])
  request_delegation (d ∷ ds) reason target node =
      request_to (d ∷ ds) reason (target_of target node.membership) node

  unfoldable pub can_accept : DelegationReason → NodeInfo f.F → Bool
  can_accept reason local =
      if is_shutdown reason
      then is_available local
      else is_available local && not (f.geb local.load_percent f.ninety)

  -- The answer to an accepted request, when the device manager is done.
  unfoldable pub answer_accept :
      ℕ → SocketAddr → Node f.F → D.Result (List ℕ) → Handled f.F (Unit {0})
  unfolding sending
  answer_accept seq from_addr node (D.Result.err e) = (node, silent, err (device_manager_error e))
  answer_accept seq from_addr node D.Result.panic = (node, silent, panic)
  answer_accept seq from_addr node (D.Result.ok ids) =
      sending node from_addr
        (Message.delegate_accept (millis bytes text f w) node.manager.local_node_id seq
          (record { accepted_device_ids = ids }))
        1 tt

  -- `adds` is what the job scheduler answers.
  unfoldable pub handle_delegation_request :
      (ℕ → ℕ → Option ℕ)
      → (ℕ → Option ℕ)
      → SocketAddr
      → DelegateRequestPayload
      → Node f.F
      → Handled f.F (Unit {0})
  unfolding can_accept sending answer_accept from_payload
  handle_delegation_request adds from_timestamp from_addr payload node =
      let (m, seq) = M.next_seq node.membership in
      if can_accept payload.reason node.membership.local_node
      then (let devices = map (from_payload from_timestamp) payload.devices in
          let (manager, accepted) = accept_delegation adds devices node.manager in
          answer_accept seq from_addr (record { membership = m; manager = manager }) accepted)
      else sending (record node { membership = m }) from_addr
          (Message.delegate_reject (millis bytes text f w) node.manager.local_node_id seq
            not_available_text)
          0 tt

-- The devices leave the set of the scheduler too.
unfoldable pub remove_each : List ℕ → DeviceManager → DeviceManager
unfolding D.remove_scheduled_device
remove_each [] s = s
remove_each (id ∷ ids) s = remove_each ids (D.remove_scheduled_device id s)

unfoldable pub handle_delegation_accept :
    {F : Type 0} → DelegateAcceptPayload → Node F → Handled F (Unit {0})
unfolding remove_each
handle_delegation_accept payload node = (
  record node {
    manager =
        remove_each payload.accepted_device_ids
          (release_devices payload.accepted_device_ids node.manager);
  },
  silent,
  ok tt,
)

unfoldable pub handle_delegation_reject : {F : Type 0} → List ℕ → Node F → Handled F (Unit {0})
handle_delegation_reject reason node = (node, silent, err (delegation_rejected reason))
