-- ===== src/Cluster/Server/Reached.antt =====
-- The invariant of the membership list under the handlers of src/cluster/server.rs.
use head_end_system_tpp.Prelude.{
  ℕ, ◌≡◌, ◌≢◌, refl, ap, Bool-cases, Option-cases, inl, inr, Option, none, some, List,
}
use head_end_system_tpp.Wire.{Bytes, Outcome, ok, err, panic}
use head_end_system_tpp.Cluster.Protocol.{ClusterCodecError}
use head_end_system_tpp.Cluster.Protocol.Codec.{encode, decode}
use head_end_system_tpp.Cluster.Protocol.Message
use head_end_system_tpp.Cluster.Address.{SocketAddr, AddrText}
use head_end_system_tpp.Cluster.Node.{Float32}
use head_end_system_tpp.Cluster.Membership as M
use head_end_system_tpp.Cluster.Membership.{MembershipList, get_node}
use head_end_system_tpp.Cluster.Membership.Valid.{IsValid}
use head_end_system_tpp.Cluster.Membership.Steps
use head_end_system_tpp.Cluster.Membership.Steps.{Reach, run-IsValid}
use head_end_system_tpp.Cluster.Protocol.{
  ClusterMessage, ClusterMessageType, ClusterPayload, DelegateRequestPayload,
}
use head_end_system_tpp.Cluster.Server as S
use head_end_system_tpp.Cluster.Server.Join as J
use head_end_system_tpp.Cluster.Server.{World}
use head_end_system_tpp.Cluster.Server.Dispatch as D
use head_end_system_tpp.Cluster.Server.Dispatch.{Around, Turn, goes, ends}
use head_end_system_tpp.Cluster.Server.Calm.{arm-ne-panic}
use head_end_system_tpp.Prelude.Map.{IsDistinct}
use head_end_system_tpp.Cluster.Delegation as G
use head_end_system_tpp.Cluster.Delegation.{Node}
use head_end_system_tpp.DeviceManager as DM
use head_end_system_tpp.Cluster.Server.Changes.{
  handle_heartbeat-Reach, handle_status_response-Reach, handle_node_join-Reach,
  handle_node_suspect-Reach, handle_probe_response-Reach, handle_config_update-Reach,
}

module _ (bytes : Bytes) (text : AddrText) (f : Float32) (w : World) (o : Around f.F) where
  stepped : {m m' : MembershipList f.F} → Steps.Step f m m' → IsValid m → IsValid m'
  stepped s v = run-IsValid f (Reach.next Reach.here s) v

  sending-same :
      {A : Type 0} (node : Node f.F) (addr : SocketAddr) (msg : ClusterMessage) (n : ℕ) (a : A)
      → (G.sending bytes text f w node addr msg n a).0 ≡ node
  unfolding G.sending
  sending-same node addr msg n a = elim (Bool-cases (w.takes addr (encode bytes text msg))) [
    | inl sent ↦ rw (sent, G.sending) refl
    | inr lost ↦ rw (lost, G.sending) refl
  ]

  answer_accept-same :
      (seq : ℕ) (addr : SocketAddr) (node : Node f.F) (r : DM.Result (List ℕ))
      → (G.answer_accept bytes text f w seq addr node r).0 ≡ node
  unfolding G.answer_accept
  answer_accept-same seq addr node (DM.Result.err e) = refl
  answer_accept-same seq addr node DM.Result.panic = refl
  answer_accept-same seq addr node (DM.Result.ok ids) = sending-same node addr _ 1 tt

  -- A delegation request takes a sequence number and changes nothing else in the list.
  handle_delegation_request-list :
      (addr : SocketAddr) (p : DelegateRequestPayload) (node : Node f.F)
      → (G.handle_delegation_request bytes text f w o.adds o.from_timestamp addr p
          node).0.membership
        ≡ (M.next_seq node.membership).0
  unfolding G.handle_delegation_request
  handle_delegation_request-list addr p node =
      elim (Bool-cases (G.can_accept bytes text f w p.reason node.membership.local_node)) [
        | inl accepts ↦
            rw (accepts, G.handle_delegation_request)
              (ap (λ (n : Node f.F). n.membership) (answer_accept-same _ addr _ _))
        | inr rejects ↦
            rw (rejects, G.handle_delegation_request)
              (ap (λ (n : Node f.F). n.membership) (sending-same _ addr _ 0 tt))
      ]

  on_delegation-same : (h : G.Handled f.F (Unit {0})) → (D.on_delegation bytes text f w o h).0 ≡ h.0
  unfolding D.on_delegation
  on_delegation-same (node, log, G.ok done) = refl
  on_delegation-same (node, log, G.err e) = refl
  on_delegation-same (node, log, G.panic) = refl

  handle_delegate_request-IsValid :
      (addr : SocketAddr) (p : ClusterPayload) (node : Node f.F)
      → IsValid node.membership
      → IsValid (D.handle_delegate_request bytes text f w o addr p node).0.membership
  unfolding D.handle_delegate_request
  handle_delegate_request-IsValid addr (ClusterPayload.delegate_request p) node v =
      rw
        (on_delegation-same
          (G.handle_delegation_request bytes text f w o.adds o.from_timestamp addr p node))
        (rw (handle_delegation_request-list addr p node) (stepped Steps.seq v))
  handle_delegate_request-IsValid addr p node v = v

  handle_delegate_accept-IsValid :
      (p : ClusterPayload) (node : Node f.F)
      → IsValid node.membership
      → IsValid (D.handle_delegate_accept bytes text f w o p node).0.membership
  unfolding D.handle_delegate_accept D.on_delegation G.handle_delegation_accept
  handle_delegate_accept-IsValid (ClusterPayload.delegate_accept p) node v = v
  handle_delegate_accept-IsValid p node v = v

  handle_delegate_reject-IsValid :
      (p : ClusterPayload) (node : Node f.F)
      → IsValid node.membership
      → IsValid (D.handle_delegate_reject bytes text f w o p node).0.membership
  unfolding D.handle_delegate_reject D.on_delegation G.handle_delegation_reject
  handle_delegate_reject-IsValid (ClusterPayload.delegate_reject p) node v = v
  handle_delegate_reject-IsValid p node v = v

  after_redistribution-IsValid :
      (id : ℕ) (m : MembershipList f.F) (r : DM.DeviceManager × DM.Result (Unit {0}))
      → IsValid m
      → IsValid (D.after_redistribution bytes text f w o id m r).0.membership
  unfolding D.after_redistribution
  after_redistribution-IsValid id m (d, DM.Result.ok done) v =
      stepped (Steps.remove id) (stepped (Steps.stats _ _) v)
  after_redistribution-IsValid id m (d, DM.Result.err e) v = v
  after_redistribution-IsValid id m (d, DM.Result.panic) v = v

  handle_node_dead-IsValid :
      (p : ClusterPayload) (node : Node f.F)
      → IsValid node.membership
      → IsValid (D.handle_node_dead bytes text f w o p node).0.membership
  unfolding D.handle_node_dead
  handle_node_dead-IsValid (ClusterPayload.node_dead p) node v =
      let marked = stepped (Steps.dead p.dead_node_id) v in
      elim (Bool-cases (o.stores_status p.dead_node_id)) [
        | inl stored ↦
            rw (stored, D.handle_node_dead) (after_redistribution-IsValid p.dead_node_id _ _ marked)
        | inr refused ↦ rw (refused, D.handle_node_dead) marked
      ]
  handle_node_dead-IsValid p node v = v

  -- The other tasks keep the list valid while a probe sleeps.
  abbrev pub IsKeeping : Type 0
  IsKeeping = (m : MembershipList f.F) → IsValid m → IsValid (o.meanwhile m)

  pinged-IsValid :
      (id : ℕ) (addr : SocketAddr) (m : MembershipList f.F)
      → IsKeeping
      → IsValid m
      → IsValid (D.pinged bytes text f w o id addr m).0
  unfolding D.pinged
  pinged-IsValid id addr m keep v =
      let packet =
        encode bytes text (
          Message.status_request (S.millis bytes text f w) m.local_node.node_id (M.next_seq m).1) in
      elim (Bool-cases (w.takes addr packet)) [
        | inl sent ↦ rw (sent, D.pinged) (keep (M.next_seq m).0 (stepped Steps.seq v))
        | inr lost ↦ rw (lost, D.pinged) (stepped Steps.seq v)
      ]

  ping_target-IsValid :
      (id : ℕ) (m : MembershipList f.F)
      → IsKeeping
      → IsValid m
      → IsValid (D.ping_target bytes text f w o id m).0
  unfolding D.ping_target
  ping_target-IsValid id m keep v = elim (Option-cases (get_node id m)) [
    | inl unknown ↦ rw (unknown, D.ping_target) v
    | inr (n, known) ↦ rw (known, D.ping_target) (pinged-IsValid id n.cluster_addr m keep v)
  ]

  probe_arm-IsValid :
      (addr : SocketAddr) (p : ClusterPayload) (node : Node f.F)
      → IsKeeping
      → IsValid node.membership
      → IsValid (D.probe_arm bytes text f w o addr p node).0.membership
  unfolding D.probe_arm D.handle_probe_request
  probe_arm-IsValid addr (ClusterPayload.probe_request p) node keep v =
      stepped Steps.seq (ping_target-IsValid p.target_node_id node.membership keep v)
  probe_arm-IsValid addr p node keep v = v

  arm-IsValid :
      (from_addr : SocketAddr) (t : ClusterMessageType) (msg : ClusterMessage) (node : Node f.F)
      → IsKeeping
      → IsValid node.membership
      → IsValid (D.handle_arm bytes text f w o from_addr t msg node).0.membership
  unfolding D.handle_arm D.on_list S.handle_heartbeat_ack S.handle_status_request
      J.handle_node_leave
  arm-IsValid from_addr ClusterMessageType.heartbeat msg node k v =
      run-IsValid f
        (handle_heartbeat-Reach bytes text f w msg.node_id from_addr msg.payload node.membership) v
  arm-IsValid from_addr ClusterMessageType.heartbeat_ack msg node k v =
      stepped (Steps.heartbeat w.now msg.node_id) v
  arm-IsValid from_addr ClusterMessageType.status_request msg node k v = stepped Steps.seq v
  arm-IsValid from_addr ClusterMessageType.status_response msg node k v =
      run-IsValid f
        (handle_status_response-Reach bytes text f w msg.node_id from_addr msg.payload
          node.membership)
        v
  arm-IsValid from_addr ClusterMessageType.delegate_request msg node k v =
      handle_delegate_request-IsValid from_addr msg.payload node v
  arm-IsValid from_addr ClusterMessageType.delegate_accept msg node k v =
      handle_delegate_accept-IsValid msg.payload node v
  arm-IsValid from_addr ClusterMessageType.delegate_reject msg node k v =
      handle_delegate_reject-IsValid msg.payload node v
  arm-IsValid from_addr ClusterMessageType.node_join msg node k v =
      run-IsValid f
        (handle_node_join-Reach bytes text f (D.counted bytes text f w o node.manager) msg.node_id
          from_addr msg.payload node.membership)
        v
  arm-IsValid from_addr ClusterMessageType.node_leave msg node k v =
      stepped (Steps.remove msg.node_id) v
  arm-IsValid from_addr ClusterMessageType.node_suspect msg node k v =
      run-IsValid f (handle_node_suspect-Reach bytes text f w msg.payload node.membership) v
  arm-IsValid from_addr ClusterMessageType.node_dead msg node k v =
      handle_node_dead-IsValid msg.payload node v
  arm-IsValid from_addr ClusterMessageType.probe_request msg node k v =
      probe_arm-IsValid from_addr msg.payload node k v
  arm-IsValid from_addr ClusterMessageType.probe_response msg node k v =
      run-IsValid f (handle_probe_response-Reach bytes text f w msg.payload node.membership) v
  arm-IsValid from_addr ClusterMessageType.config_update msg node k v =
      run-IsValid f
        (handle_config_update-Reach bytes text f w msg.node_id msg.seq from_addr msg.payload
          node.membership)
        v
  arm-IsValid from_addr ClusterMessageType.config_update_ack msg node k v = v

  -- The list after a turn for a packet is valid, or the turn ends the task since the packet makes the
  -- decoder panic.
  abbrev pub IsLeft : List ℕ → Turn f.F → Type 0
  IsLeft packet (goes node effects) = IsValid node.membership
  IsLeft packet ends = decode bytes text packet ≡ panic

  turned-IsLeft :
      (packet : List ℕ) (h : D.Handled f.F)
      → IsValid h.0.membership
      → h.2 ≢ D.panic
      → IsLeft packet (D.turned bytes text f w o h)
  unfolding D.turned
  turned-IsLeft packet (node, effects, D.panic) v calm = absurd (calm refl)
  turned-IsLeft packet (node, effects, r) v calm = v

  handle_message-IsLeft :
      (packet : List ℕ) (from_addr : SocketAddr) (msg : ClusterMessage) (node : Node f.F)
      → IsKeeping
      → IsDistinct node.manager.scheduler.database.buckets
      → IsValid node.membership
      → IsLeft packet
          (D.turned bytes text f w o (D.handle_message bytes text f w o from_addr msg node))
  unfolding D.handle_message
  handle_message-IsLeft packet from_addr msg node k distinct v =
      turned-IsLeft packet _ (arm-IsValid from_addr msg.msg_type msg node k v)
        (arm-ne-panic bytes text f w o from_addr msg.msg_type msg node distinct)

  -- Whatever packet arrives, from whatever address, a turn of the server leaves a valid membership list
  -- valid, and ends the task only if the packet makes the decoder panic. The other tasks keep the list
  -- valid while the turn sleeps for a probe, and no device stands twice in the table of the buckets.
  pub receive-IsLeft :
      (from_addr : SocketAddr) (packet : List ℕ) (node : Node f.F)
      → ((m : MembershipList f.F) → IsValid m → IsValid (o.meanwhile m))
      → IsDistinct node.manager.scheduler.database.buckets
      → IsValid node.membership
      → IsLeft packet (D.receive bytes text f w o from_addr packet node)
  unfolding D.receive
  receive-IsLeft from_addr packet node k distinct v = decoded (decode bytes text packet) refl
    where
      decoded :
          (r : Outcome ClusterCodecError (Option ClusterMessage))
          → decode bytes text packet ≡ r
          → IsLeft packet (D.receive bytes text f w o from_addr packet node)
      decoded (ok (some msg) rest) e =
          rw (e, D.receive) (handle_message-IsLeft packet from_addr msg node k distinct v)
      decoded (ok none rest) e = rw (e, D.receive) v
      decoded (err c rest) e = rw (e, D.receive) v
      decoded panic e = rw (e, D.receive) e
