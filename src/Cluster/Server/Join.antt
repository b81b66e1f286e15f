-- ===== src/Cluster/Server/Join.antt =====
-- The handlers of joins, leaves, suspicions, probe responses and config updates
-- (src/cluster/server.rs).
use head_end_system_tpp.Prelude.{
  ℕ, ◌+◌, ◌%◌, ◌^◌, true, false, none, some, List, [], ◌∷◌, ◌++◌, map,
}
use head_end_system_tpp.Prelude.{◌==◌, if◌then◌else◌, filter, not}
use head_end_system_tpp.Wire.{Bytes}
use head_end_system_tpp.Cluster.Address.{SocketAddr, AddrText, ip, port, socket_addr}
use head_end_system_tpp.Cluster.Node.{NodeStatus, NodeInfo, Float32, starting, default_max_devices}
use head_end_system_tpp.Cluster.Membership as M
use head_end_system_tpp.Cluster.Membership.{MembershipList, get_node}
use head_end_system_tpp.Cluster.Protocol.{ClusterPayload, NodeJoinPayload}
use head_end_system_tpp.Cluster.Protocol.{ConfigUpdateAckPayload}
use head_end_system_tpp.Cluster.Protocol.Message
use head_end_system_tpp.Cluster.Server as S
use head_end_system_tpp.Cluster.Server.{
  World, Effect, Handled, ok, err, invalid_message, inc, dec, set_cluster_seeds, set_config_value,
  cluster_nodes_total, hes_cluster_suspect_nodes, hes_cluster_state_changes_total,
}

module _ (bytes : Bytes) (text : AddrText) (f : Float32) (w : World) where
  unfoldable pub joining_node : ℕ → SocketAddr → NodeJoinPayload → NodeInfo f.F
  joining_node id from_addr j = record {
    node_id = id;
    node_name = j.node_name;
    cluster_addr = socket_addr (ip from_addr) (port j.cluster_addr);
    backdoor_port = j.backdoor_port;
    status = starting;
    started_at = w.now;
    last_heartbeat = w.now;
    bucket_count = 0;
    device_count = 0;
    max_device_suggested = default_max_devices;
    load_percent = f.zero;
  }

  -- `join(",")`.
  unfoldable pub comma : List (List ℕ) → List ℕ
  comma [] = []
  comma (s ∷ []) = s
  comma (s ∷ t ∷ ts) = s ++ (b',' ∷ comma (t ∷ ts))

  unfoldable pub seeds : MembershipList f.F → List ℕ
  unfolding comma
  seeds m = comma (
      map (λ n. text.to_string n.cluster_addr)
        (filter (λ n. not (n.node_id == m.local_node.node_id)) (M.reachable_nodes m)))

  unfoldable pub welcome : ℕ → MembershipList f.F → Handled f.F
  welcome id m = elim (get_node id m) [
    | some n ↦ S.handle_status_request bytes text f w id n.cluster_addr m
    | none ↦ (m, [], ok)
  ]

  unfoldable pub handle_node_join :
      ℕ → SocketAddr → ClusterPayload → MembershipList f.F → Handled f.F
  unfolding joining_node seeds welcome
  handle_node_join id from_addr (ClusterPayload.node_join j) m =
      let added = M.add_or_update_node w.now (joining_node id from_addr j) m in
      let (m', effects, result) = welcome id added in
      (m', inc cluster_nodes_total ∷ set_cluster_seeds (seeds added) ∷ effects, result)
  handle_node_join id from_addr payload m = (m, [], err invalid_message)

  unfoldable pub handle_node_leave : ℕ → MembershipList f.F → Handled f.F
  handle_node_leave id m =
      let (m', removed) = M.remove_node id m in
      (m', elim removed [ some n ↦ dec cluster_nodes_total ∷ [] | none ↦ [] ], ok)

  unfoldable pub handle_node_suspect : ClusterPayload → MembershipList f.F → Handled f.F
  handle_node_suspect (ClusterPayload.node_suspect s) m = (
    M.mark_suspect s.suspect_node_id m,
    inc (hes_cluster_state_changes_total NodeStatus.active NodeStatus.suspect)
        ∷ inc hes_cluster_suspect_nodes
        ∷ [],
    ok,
  )
  handle_node_suspect payload m = (m, [], err invalid_message)

  -- The arm for probe responses.
  unfoldable pub handle_probe_response : ClusterPayload → MembershipList f.F → Handled f.F
  handle_probe_response (ClusterPayload.probe_response p) m =
      (if p.is_alive then M.update_heartbeat w.now p.target_node_id m else m, [], ok)
  handle_probe_response payload m = (m, [], ok)

  -- The acknowledgement names the sender's id and the next sequence number of the sender.
  unfoldable pub handle_config_update :
      ℕ → ℕ → SocketAddr → ClusterPayload → MembershipList f.F → Handled f.F
  handle_config_update sender seq from_addr (ClusterPayload.config_update u) m =
      let refused = w.refusal u.key u.value in
      let ack : ConfigUpdateAckPayload = record {
        update_id = u.update_id;
        success = elim refused [ none ↦ true | some e ↦ false ];
        error_message = refused;
      } in
      (
        m,
        set_config_value u.key u.value
            ∷ S.datagram bytes text f w from_addr (
                Message.config_update_ack (S.millis bytes text f w) sender ((seq + 1) % 2 ^ 32) ack)
            ∷ [],
        ok,
      )
  handle_config_update sender seq from_addr payload m = (m, [], err invalid_message)
