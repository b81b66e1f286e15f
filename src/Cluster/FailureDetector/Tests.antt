-- ===== src/Cluster/FailureDetector/Tests.antt =====
-- The failure detector (src/cluster/failure_detector.rs) on a list of three nodes.
use head_end_system_tpp.Prelude.{
  ℕ, ◌≡◌, ◌-◌, ◌*◌, ◌/◌, arith, leb, refl, true, some, none, [], if◌then◌else◌, ◌==◌,
}
use head_end_system_tpp.Prelude.Map
use head_end_system_tpp.Wire.BigEndian.{big_endian}
use head_end_system_tpp.Cluster.Address.{AddrText}
use head_end_system_tpp.Cluster.Node.{active, suspect}
use head_end_system_tpp.Cluster.Sample.{whole, seconds, loopback, node, members}
use head_end_system_tpp.Cluster.Membership as M
use head_end_system_tpp.Cluster.Membership.{get_node}
use head_end_system_tpp.Cluster.FailureDetector.{Outside, handle_suspect_node, handle_dead_node}
use head_end_system_tpp.Cluster.FailureDetector.Interleaved.{
  handle_suspect_node_lem, handle_dead_node_lem,
}

abbrev text : AddrText
text = record { to_string = λ a. []; parse = λ s. some loopback }

-- No other task does anything.
abbrev quiet : Outside ℕ
quiet = record {
  config = members.config;
  now = λ k. seconds 99;
  takes = λ a p. true;
  random = 5;
  device_count = 3;
  meanwhile = λ k m. m;
}

-- In every gap a heartbeat of node 3 arrives.
abbrev alive : Outside ℕ
alive = record quiet { meanwhile = λ k m. M.update_heartbeat (seconds 99) 3 m }

handle_suspect_node_lem_example :
    get_node 2 (handle_suspect_node big_endian text whole quiet 2 members).0
    ≡ some (
        if leb ((seconds 99 - seconds 80) / 1000000 * 1000000) members.config.suspect_timeout
        then node 2 active 80
        else record (node 2 active 80) { status = suspect })
handle_suspect_node_lem_example =
    handle_suspect_node_lem big_endian text whole quiet 2 (node 2 active 80) members (λ k l. refl)
      (omega arith) (unfold get_node Map.get in refl) (λ e. omega arith) refl

handle_dead_node_lem_example :
    get_node 3 (handle_dead_node big_endian text whole alive 3 members).0 ≡ (
      if 3 == (handle_dead_node big_endian text whole alive 3 members).0.local_node.node_id
      then some (handle_dead_node big_endian text whole alive 3 members).0.local_node
      else none)
handle_dead_node_lem_example =
    handle_dead_node_lem big_endian text whole alive 3 (node 3 suspect 10) members
      (unfold get_node Map.get in refl)
