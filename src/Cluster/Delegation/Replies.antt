-- ===== src/Cluster/Delegation/Replies.antt =====
-- What a node answers to a request for delegation, and what the two nodes own afterwards
-- (src/cluster/delegation.rs).
use head_end_system_tpp.Prelude.{
  ℕ, ◌≡◌, ◌≢◌, refl, ap, ◌∙◌, arith, true, false, Option, List, [], ◌∷◌, map, All, Option-cases,
  inl, inr,
}
use head_end_system_tpp.Wire.{Bytes}
use head_end_system_tpp.Cluster.Address.{SocketAddr, AddrText}
use head_end_system_tpp.Cluster.Node.{Float32}
use head_end_system_tpp.Cluster.Membership as M
use head_end_system_tpp.Cluster.Protocol.{DelegationReason, DelegateRequestPayload}
use head_end_system_tpp.Cluster.Protocol.Message
use head_end_system_tpp.Cluster.Protocol.Codec.{encode}
use head_end_system_tpp.Cluster.Server.{World, millis}
use head_end_system_tpp.Scheduler.Devices as S
use head_end_system_tpp.DeviceManager.{DeviceManager, with_database}
use head_end_system_tpp.DeviceManager as D
use head_end_system_tpp.DeviceManager.Delegate.{DelegatedDevice, accept_delegation}
use head_end_system_tpp.DeviceManager.Owned.{HasBucket, IsInStep}
use head_end_system_tpp.DeviceManager.InStep.Planned.{SameOwners-IsInStep}
use head_end_system_tpp.DeviceManager.Accepted.{
  ids_of, TakesJobs, accept_delegation_lem, delegation-IsInStep,
}
use head_end_system_tpp.Cluster.Delegation.{
  Node, ok, to_payload, from_payload, can_accept, handle_delegation_request,
  handle_delegation_accept, remove_each, sending, answer_accept, not_available_text,
}

module _ (bytes : Bytes) (text : AddrText) (f : Float32) (w : World) where
  -- A node that cannot take the devices answers with a rejection to the sender and keeps its devices
  -- as they are.
  rejects :
      (adds : ℕ → ℕ → Option ℕ) (from_timestamp : ℕ → Option ℕ) (addr : SocketAddr)
      (p : DelegateRequestPayload) (node : Node f.F)
      → can_accept bytes text f w p.reason node.membership.local_node ≡ false
      → let (node', log, result) =
          handle_delegation_request bytes text f w adds from_timestamp addr p node in
        (node'.manager ≡ node.manager)
        × (log.datagrams
            ≡ (
              addr,
              encode bytes text (
                  Message.delegate_reject
                    (millis bytes text f w)
                    node.manager.local_node_id
                    (M.next_seq node.membership).1
                    not_available_text),
            )
              ∷ [])
        × (log.delegations ≡ 0)
  unfolding handle_delegation_request sending
  rejects adds from_timestamp addr p node no_room = rw no_room (ground arith)

ids_of-payloads :
    (from_timestamp : ℕ → Option ℕ) (ds : List DelegatedDevice)
    → ids_of (map (from_payload from_timestamp) (map to_payload ds)) ≡ ids_of ds
unfolding from_payload to_payload
ids_of-payloads from_timestamp [] = refl
ids_of-payloads from_timestamp (d ∷ ds) = ap (◌∷◌ d.device_id) (ids_of-payloads from_timestamp ds)

HasBucket-payloads :
    (from_timestamp : ℕ → Option ℕ) (ds : List DelegatedDevice) (s : DeviceManager)
    → All (λ (d : DelegatedDevice). HasBucket d.device_id s.scheduler.database) ds
    → All
        (λ (d : DelegatedDevice). HasBucket d.device_id s.scheduler.database)
        (map (from_payload from_timestamp) (map to_payload ds))
unfolding from_payload to_payload
HasBucket-payloads from_timestamp [] s have = tt
HasBucket-payloads from_timestamp (d ∷ ds) s have =
    (have.0, HasBucket-payloads from_timestamp ds s have.1)

remove_owned_device-same :
    (id : ℕ) (s : DeviceManager)
    → ((S.remove_owned_device id s.scheduler).local_node_id ≡ s.scheduler.local_node_id)
      × ((S.remove_owned_device id s.scheduler).database.buckets ≡ s.scheduler.database.buckets)
unfolding S.remove_owned_device
remove_owned_device-same id s = elim (Option-cases s.scheduler.owned_devices) [
  | inl all ↦ rw (all, S.remove_owned_device) (refl, refl)
  | inr (owned, some_of_them) ↦ rw (some_of_them, S.remove_owned_device) (refl, refl)
]

remove_each-IsInStep :
    (ids : List ℕ) (s : DeviceManager) → IsInStep s → IsInStep (remove_each ids s)
unfolding remove_each D.remove_scheduled_device
remove_each-IsInStep [] s inv = inv
remove_each-IsInStep (id ∷ ids) s inv = remove_each-IsInStep ids (D.remove_scheduled_device id s) (
    SameOwners-IsInStep s (D.remove_scheduled_device id s)
      (refl, refl, remove_owned_device-same id s) inv)

-- The node as it finds the database that another node has written.
abbrev pub sees : {F : Type 0} → Node F → Node F → Node F
sees other node = record node {
  manager = with_database other.manager.scheduler.database node.manager;
}

module _ (bytes : Bytes) (text : AddrText) (f : Float32) (w : World) where
  answered :
      (adds : ℕ → ℕ → Option ℕ) (from_timestamp : ℕ → Option ℕ) (addr : SocketAddr)
      (p : DelegateRequestPayload) (node : Node f.F) (ids : List ℕ)
      → can_accept bytes text f w p.reason node.membership.local_node ≡ true
      → ((target : SocketAddr) (packet : List ℕ) → w.takes target packet ≡ true)
      → (accept_delegation adds (map (from_payload from_timestamp) p.devices) node.manager).1
        ≡ D.Result.ok ids
      → let (node', log, result) =
          handle_delegation_request bytes text f w adds from_timestamp addr p node in
        (result ≡ ok tt)
        × (log.datagrams
            ≡ (
              addr,
              encode bytes text (
                  Message.delegate_accept
                    (millis bytes text f w)
                    node'.manager.local_node_id
                    (M.next_seq node.membership).1
                    (record { accepted_device_ids = ids })),
            )
              ∷ [])
        × (node'.manager
            ≡ (accept_delegation adds (map (from_payload from_timestamp) p.devices) node.manager).0)
  unfolding handle_delegation_request sending answer_accept
  answered adds from_timestamp addr p node ids room sends accepted =
      rw (room, accepted, answer_accept, sends, sending) (refl, refl, refl)

  -- Two nodes with a shared database, whose owned sets agree with it. If the receiving node takes a
  -- request for devices that have buckets, its job scheduler takes every job and its socket every
  -- datagram, it answers the sender with the ids of all the devices. Once the sender has handled that
  -- answer, the owned sets of both nodes agree with the database again.
  pub handover-IsInStep :
      (adds : ℕ → ℕ → Option ℕ) (from_timestamp : ℕ → Option ℕ) (addr : SocketAddr)
      (ds : List DelegatedDevice) (reason : DelegationReason) (sender receiver : Node f.F)
      → can_accept bytes text f w reason receiver.membership.local_node ≡ true
      → ((target : SocketAddr) (packet : List ℕ) → w.takes target packet ≡ true)
      → TakesJobs adds
      → sender.manager.local_node_id ≢ receiver.manager.local_node_id
      → sender.manager.scheduler.database ≡ receiver.manager.scheduler.database
      → All (λ (d : DelegatedDevice). HasBucket d.device_id receiver.manager.scheduler.database) ds
      → IsInStep sender.manager
      → IsInStep receiver.manager
      → let (receiver', log, result) =
          handle_delegation_request bytes text f w adds from_timestamp addr
            (record { devices = map to_payload ds; reason = reason })
            receiver in
        (result ≡ ok tt)
        × (log.datagrams
            ≡ (
              addr,
              encode bytes text (
                  Message.delegate_accept
                    (millis bytes text f w)
                    receiver'.manager.local_node_id
                    (M.next_seq receiver.membership).1
                    (record { accepted_device_ids = ids_of ds })),
            )
              ∷ [])
        × IsInStep receiver'.manager
        × IsInStep
            (handle_delegation_accept
              (record { accepted_device_ids = ids_of ds })
              (sees receiver' sender)).0.manager
  unfolding handle_delegation_accept
  handover-IsInStep adds from_timestamp addr ds reason sender receiver room sends takes other shared
        have inv inv' =
      let payload : DelegateRequestPayload = record {
        devices = map to_payload ds;
        reason = reason;
      } in
      let taken = map (from_payload from_timestamp) (map to_payload ds) in
      let ids = ids_of-payloads from_timestamp ds in
      let accepted =
        (accept_delegation_lem adds taken receiver.manager takes).0 ∙ ap D.Result.ok ids in
      let (returns, sent, same) =
        answered adds from_timestamp addr payload receiver (ids_of ds) room sends accepted in
      let both =
        delegation-IsInStep adds taken sender.manager receiver.manager takes other shared
          (HasBucket-payloads from_timestamp ds receiver.manager have) inv inv' in
      (returns, sent, rw same both.0, remove_each-IsInStep (ids_of ds) _ (rw (same, ← ids) both.1))
