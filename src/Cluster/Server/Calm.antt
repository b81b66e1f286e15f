-- ===== src/Cluster/Server/Calm.antt =====
-- No handler of the cluster server panics (src/cluster/server.rs, delegation.rs).
use head_end_system_tpp.Prelude.{ℕ, ◌≡◌, ◌≢◌, refl, Bool-cases, inl, inr, List, map}
use head_end_system_tpp.Prelude.Map.{IsDistinct}
use head_end_system_tpp.Wire.{Bytes}
use head_end_system_tpp.Cluster.Address.{SocketAddr, AddrText}
use head_end_system_tpp.Cluster.Node.{NodeInfo, Float32}
use head_end_system_tpp.Cluster.Membership as M
use head_end_system_tpp.Cluster.Membership.{MembershipList}
use head_end_system_tpp.Cluster.Protocol.{
  ClusterMessage, ClusterMessageType, ClusterPayload, DelegateRequestPayload,
}
use head_end_system_tpp.Cluster.Protocol.Codec.{encode}
use head_end_system_tpp.Cluster.Server as S
use head_end_system_tpp.Cluster.Server.Join as J
use head_end_system_tpp.Cluster.Server.{World}
use head_end_system_tpp.Cluster.Server.Dispatch as D
use head_end_system_tpp.Cluster.Server.Dispatch.{Around}
use head_end_system_tpp.Cluster.Delegation as G
use head_end_system_tpp.Cluster.Delegation.{Node, from_payload}
use head_end_system_tpp.DeviceManager as DM
use head_end_system_tpp.DeviceManager.Settled.{accept_delegation-ne-panic}
use head_end_system_tpp.DeviceManager.Ownership.{redistribute_from_failed}
use head_end_system_tpp.DeviceManager.Dealt.{dealt_by_all_nodes}

module _ (bytes : Bytes) (text : AddrText) (f : Float32) (w : World) (o : Around f.F) where
  on_list-ne-panic :
      (node : Node f.F) (h : S.Handled f.F) → (D.on_list bytes text f w o node h).2 ≢ D.panic
  unfolding D.on_list
  on_list-ne-panic node (m, effects, S.ok) e = cc
  on_list-ne-panic node (m, effects, S.err x) e = cc

  on_delegation-ne-panic :
      (h : G.Handled f.F (Unit {0}))
      → h.2 ≢ G.panic
      → (D.on_delegation bytes text f w o h).2 ≢ D.panic
  unfolding D.on_delegation
  on_delegation-ne-panic (node, log, G.ok done) calm e = cc
  on_delegation-ne-panic (node, log, G.err x) calm e = cc
  on_delegation-ne-panic (node, log, G.panic) calm e = calm refl

  sending-ne-panic :
      {A : Type 0} (node : Node f.F) (addr : SocketAddr) (msg : ClusterMessage) (n : ℕ) (a : A)
      → (G.sending bytes text f w node addr msg n a).2 ≢ G.panic
  unfolding G.sending
  sending-ne-panic node addr msg n a = elim (Bool-cases (w.takes addr (encode bytes text msg))) [
    | inl sent ↦ rw (sent, G.sending) (λ e. cc)
    | inr lost ↦ rw (lost, G.sending) (λ e. cc)
  ]

  answer_accept-ne-panic :
      (seq : ℕ) (addr : SocketAddr) (node : Node f.F) (r : DM.Result (List ℕ))
      → r ≢ DM.panic
      → (G.answer_accept bytes text f w seq addr node r).2 ≢ G.panic
  unfolding G.answer_accept
  answer_accept-ne-panic seq addr node (DM.Result.err x) calm e = cc
  answer_accept-ne-panic seq addr node DM.Result.panic calm e = calm refl
  answer_accept-ne-panic seq addr node (DM.Result.ok ids) calm e =
      sending-ne-panic node addr _ 1 tt e

  handle_delegation_request-ne-panic :
      (addr : SocketAddr) (p : DelegateRequestPayload) (node : Node f.F)
      → (G.handle_delegation_request bytes text f w o.adds o.from_timestamp addr p node).2 ≢ G.panic
  unfolding G.handle_delegation_request
  handle_delegation_request-ne-panic addr p node =
      elim (Bool-cases (G.can_accept bytes text f w p.reason node.membership.local_node)) [
        | inl accepts ↦
            rw (accepts, G.handle_delegation_request)
              (answer_accept-ne-panic _ addr _ _ (
                accept_delegation-ne-panic o.adds (map (from_payload o.from_timestamp) p.devices)
                  node.manager))
        | inr rejects ↦ rw (rejects, G.handle_delegation_request) (sending-ne-panic _ addr _ 0 tt)
      ]

  handle_delegate_request-ne-panic :
      (addr : SocketAddr) (p : ClusterPayload) (node : Node f.F)
      → (D.handle_delegate_request bytes text f w o addr p node).2 ≢ D.panic
  unfolding D.handle_delegate_request
  handle_delegate_request-ne-panic addr (ClusterPayload.delegate_request p) node =
      on_delegation-ne-panic
        (G.handle_delegation_request bytes text f w o.adds o.from_timestamp addr p node)
        (handle_delegation_request-ne-panic addr p node)
  handle_delegate_request-ne-panic addr p node = λ e. cc

  handle_delegate_accept-ne-panic :
      (p : ClusterPayload) (node : Node f.F)
      → (D.handle_delegate_accept bytes text f w o p node).2 ≢ D.panic
  unfolding D.handle_delegate_accept D.on_delegation G.handle_delegation_accept
  handle_delegate_accept-ne-panic (ClusterPayload.delegate_accept p) node = λ e. cc
  handle_delegate_accept-ne-panic p node = λ e. cc

  handle_delegate_reject-ne-panic :
      (p : ClusterPayload) (node : Node f.F)
      → (D.handle_delegate_reject bytes text f w o p node).2 ≢ D.panic
  unfolding D.handle_delegate_reject D.on_delegation G.handle_delegation_reject
  handle_delegate_reject-ne-panic (ClusterPayload.delegate_reject p) node = λ e. cc
  handle_delegate_reject-ne-panic p node = λ e. cc

  after_redistribution-ne-panic :
      (id : ℕ) (m : MembershipList f.F) (r : DM.DeviceManager × DM.Result (Unit {0}))
      → r.1 ≡ DM.ok tt
      → (D.after_redistribution bytes text f w o id m r).1 ≢ D.panic
  unfolding D.after_redistribution
  after_redistribution-ne-panic id m (d, DM.Result.ok done) returns e = cc
  after_redistribution-ne-panic id m (d, DM.Result.err x) returns e = cc
  after_redistribution-ne-panic id m (d, DM.Result.panic) returns e = cc

  handle_node_dead-ne-panic :
      (p : ClusterPayload) (node : Node f.F)
      → IsDistinct node.manager.scheduler.database.buckets
      → (D.handle_node_dead bytes text f w o p node).2 ≢ D.panic
  unfolding D.handle_node_dead
  handle_node_dead-ne-panic (ClusterPayload.node_dead p) node distinct =
      let id = p.dead_node_id in
      let m = M.mark_dead id node.membership in
      let others : List (ℕ × ℕ) =
        map (λ (n : NodeInfo f.F). (n.node_id, n.device_count)) (M.active_nodes m) in
      let returns = (dealt_by_all_nodes id others node.manager distinct).0 in
      let calm =
        after_redistribution-ne-panic id m (redistribute_from_failed id others node.manager)
          returns in
      elim (Bool-cases (o.stores_status id)) [
        | inl stored ↦ rw (stored, D.handle_node_dead) calm
        | inr refused ↦ rw (refused, D.handle_node_dead) (λ e. cc)
      ]
  handle_node_dead-ne-panic p node distinct = λ e. cc

  probe_arm-ne-panic :
      (addr : SocketAddr) (p : ClusterPayload) (node : Node f.F)
      → (D.probe_arm bytes text f w o addr p node).2 ≢ D.panic
  unfolding D.probe_arm
  probe_arm-ne-panic addr (ClusterPayload.probe_request p) node = λ e. cc
  probe_arm-ne-panic addr p node = λ e. cc

  -- Every arm returns, if no device stands twice in the table of the buckets.
  pub arm-ne-panic :
      (from_addr : SocketAddr) (t : ClusterMessageType) (msg : ClusterMessage) (node : Node f.F)
      → IsDistinct node.manager.scheduler.database.buckets
      → (D.handle_arm bytes text f w o from_addr t msg node).2 ≢ D.panic
  unfolding D.handle_arm
  arm-ne-panic from_addr ClusterMessageType.delegate_request msg node distinct =
      handle_delegate_request-ne-panic from_addr msg.payload node
  arm-ne-panic from_addr ClusterMessageType.delegate_accept msg node distinct =
      handle_delegate_accept-ne-panic msg.payload node
  arm-ne-panic from_addr ClusterMessageType.delegate_reject msg node distinct =
      handle_delegate_reject-ne-panic msg.payload node
  arm-ne-panic from_addr ClusterMessageType.node_dead msg node distinct =
      handle_node_dead-ne-panic msg.payload node distinct
  arm-ne-panic from_addr ClusterMessageType.probe_request msg node distinct =
      probe_arm-ne-panic from_addr msg.payload node
  arm-ne-panic from_addr ClusterMessageType.config_update_ack msg node distinct = λ e. cc
  arm-ne-panic from_addr ClusterMessageType.heartbeat msg node distinct =
      on_list-ne-panic node
        (S.handle_heartbeat bytes text f w msg.node_id from_addr msg.payload node.membership)
  arm-ne-panic from_addr ClusterMessageType.heartbeat_ack msg node distinct =
      on_list-ne-panic node (S.handle_heartbeat_ack bytes text f w msg.node_id node.membership)
  arm-ne-panic from_addr ClusterMessageType.status_request msg node distinct =
      on_list-ne-panic node (
        S.handle_status_request bytes text f (D.counted bytes text f w o node.manager) msg.node_id
          from_addr node.membership)
  arm-ne-panic from_addr ClusterMessageType.status_response msg node distinct =
      on_list-ne-panic node
        (S.handle_status_response bytes text f w msg.node_id from_addr msg.payload node.membership)
  arm-ne-panic from_addr ClusterMessageType.node_join msg node distinct = on_list-ne-panic node (
      J.handle_node_join bytes text f (D.counted bytes text f w o node.manager) msg.node_id
        from_addr msg.payload node.membership)
  arm-ne-panic from_addr ClusterMessageType.node_leave msg node distinct =
      on_list-ne-panic node (J.handle_node_leave bytes text f w msg.node_id node.membership)
  arm-ne-panic from_addr ClusterMessageType.node_suspect msg node distinct =
      on_list-ne-panic node (J.handle_node_suspect bytes text f w msg.payload node.membership)
  arm-ne-panic from_addr ClusterMessageType.probe_response msg node distinct =
      on_list-ne-panic node (J.handle_probe_response bytes text f w msg.payload node.membership)
  arm-ne-panic from_addr ClusterMessageType.config_update msg node distinct =
      on_list-ne-panic node (
        J.handle_config_update bytes text f w msg.node_id msg.seq from_addr msg.payload
          node.membership)
