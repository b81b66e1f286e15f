-- ===== src/Cluster/Server/Changes.antt =====
-- Each handler of src/cluster/server.rs that works on the membership list alone changes it by a
-- sequence of the list's own operations.
use head_end_system_tpp.Prelude.{ℕ, refl, Bool-cases, Option-cases, inl, inr}
use head_end_system_tpp.Wire.{Bytes}
use head_end_system_tpp.Cluster.Address.{SocketAddr, AddrText}
use head_end_system_tpp.Cluster.Node.{Float32, touch}
use head_end_system_tpp.Cluster.Membership.{MembershipList, get_node}
use head_end_system_tpp.Cluster.Membership.Steps
use head_end_system_tpp.Cluster.Membership.Steps.{Reach, run-IsValid}
use head_end_system_tpp.Cluster.Protocol.{ClusterPayload, HeartbeatPayload}
use head_end_system_tpp.Cluster.Server as S
use head_end_system_tpp.Cluster.Server.Join as J
use head_end_system_tpp.Cluster.Server.{World}

module _ (bytes : Bytes) (text : AddrText) (f : Float32) (w : World) where
  take_heartbeat-Reach :
      (id : ℕ) (from_addr : SocketAddr) (h : HeartbeatPayload) (m : MembershipList f.F)
      → Reach f m (S.take_heartbeat bytes text f w id from_addr h m)
  unfolding S.take_heartbeat S.beat touch
  take_heartbeat-Reach id from_addr h m = elim (Option-cases (get_node id m)) [
    | inl unknown ↦
        rw (unknown, S.take_heartbeat)
          (Reach.next Reach.here (Steps.add w.now (S.heard_node bytes text f w id from_addr h)))
    | inr (n, known) ↦
        rw (known, S.take_heartbeat)
          (Reach.next Reach.here (Steps.write id (S.beat bytes text f w h) (λ n. refl)))
  ]

  pub handle_heartbeat-Reach :
      (id : ℕ) (from_addr : SocketAddr) (p : ClusterPayload) (m : MembershipList f.F)
      → Reach f m (S.handle_heartbeat bytes text f w id from_addr p m).0
  unfolding S.handle_heartbeat
  handle_heartbeat-Reach id from_addr (ClusterPayload.heartbeat h) m =
      take_heartbeat-Reach id from_addr h m
  handle_heartbeat-Reach id from_addr p m = Reach.here

  pub handle_status_response-Reach :
      (id : ℕ) (from_addr : SocketAddr) (p : ClusterPayload) (m : MembershipList f.F)
      → Reach f m (S.handle_status_response bytes text f w id from_addr p m).0
  unfolding S.handle_status_response
  handle_status_response-Reach id from_addr (ClusterPayload.status_response s) m =
      Reach.next
        (Reach.next Reach.here (Steps.add w.now (S.answering_node bytes text f w id from_addr s)))
        Steps.seq
  handle_status_response-Reach id from_addr p m = Reach.here

  welcome-Reach :
      (id : ℕ) (m m' : MembershipList f.F)
      → Reach f m m'
      → Reach f m (J.welcome bytes text f w id m').0
  unfolding J.welcome S.handle_status_request
  welcome-Reach id m m' r = elim (Option-cases (get_node id m')) [
    | inl unknown ↦ rw (unknown, J.welcome) r
    | inr (n, known) ↦ rw (known, J.welcome) (Reach.next r Steps.seq)
  ]

  pub handle_node_join-Reach :
      (id : ℕ) (from_addr : SocketAddr) (p : ClusterPayload) (m : MembershipList f.F)
      → Reach f m (J.handle_node_join bytes text f w id from_addr p m).0
  unfolding J.handle_node_join
  handle_node_join-Reach id from_addr (ClusterPayload.node_join j) m =
      welcome-Reach id m _
        (Reach.next Reach.here (Steps.add w.now (J.joining_node bytes text f w id from_addr j)))
  handle_node_join-Reach id from_addr p m = Reach.here

  pub handle_node_suspect-Reach :
      (p : ClusterPayload) (m : MembershipList f.F)
      → Reach f m (J.handle_node_suspect bytes text f w p m).0
  unfolding J.handle_node_suspect
  handle_node_suspect-Reach (ClusterPayload.node_suspect s) m =
      Reach.next Reach.here (Steps.suspect s.suspect_node_id)
  handle_node_suspect-Reach p m = Reach.here

  pub handle_probe_response-Reach :
      (p : ClusterPayload) (m : MembershipList f.F)
      → Reach f m (J.handle_probe_response bytes text f w p m).0
  unfolding J.handle_probe_response
  handle_probe_response-Reach (ClusterPayload.probe_response p) m = elim (Bool-cases p.is_alive) [
    | inl alive ↦ rw alive (Reach.next Reach.here (Steps.heartbeat w.now p.target_node_id))
    | inr silent ↦ rw silent Reach.here
  ]
  handle_probe_response-Reach p m = Reach.here

  pub handle_config_update-Reach :
      (id seq : ℕ) (from_addr : SocketAddr) (p : ClusterPayload) (m : MembershipList f.F)
      → Reach f m (J.handle_config_update bytes text f w id seq from_addr p m).0
  unfolding J.handle_config_update
  handle_config_update-Reach id seq from_addr (ClusterPayload.config_update u) m = Reach.here
  handle_config_update-Reach id seq from_addr p m = Reach.here
