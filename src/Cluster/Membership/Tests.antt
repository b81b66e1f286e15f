-- ===== src/Cluster/Membership/Tests.antt =====
-- The theorems about the membership list (src/cluster/membership.rs) at a list of three nodes.
use head_end_system_tpp.Prelude.{ℕ, ◌<◌, ◌≡◌, ◌↔◌, refl, some, [], ◌∷◌}
use head_end_system_tpp.Prelude.Map
use head_end_system_tpp.Prelude.Map.{IsDistinct}
use head_end_system_tpp.Cluster.Node.{
  active, suspect, starting, is_status, NodeInfo, new_local, time_since_heartbeat,
}
use head_end_system_tpp.Cluster.Sample.{
  whole, config, loopback, seconds, node, members, members-IsValid,
}
use head_end_system_tpp.Cluster.Membership as M
use head_end_system_tpp.Cluster.Membership.{MembershipList, get_node}
use head_end_system_tpp.Cluster.Membership.Valid.{IsValid}
use head_end_system_tpp.Cluster.Membership.Steps
use head_end_system_tpp.Cluster.Membership.Steps.{Reach, Reach-IsValid}
use head_end_system_tpp.Cluster.Membership.Lookup.{announced, get_node-add_or_update_node}
use head_end_system_tpp.Cluster.Membership.Timeouts.{
  Elem, get_suspect_candidates_iff, get_dead_candidates_iff,
}
use head_end_system_tpp.Cluster.Membership.Gauge.{IsSynced, Step-IsSynced}

abbrev start : MembershipList ℕ
start = record {
  local_node = new_local whole 1 [] loopback 6565 7;
  nodes = [];
  seq_counter = 0;
  config = config;
  nodes_active = 0;
  devices_owned = 0;
  buckets_owned = 0;
}

Reach-IsValid_example : IsValid (M.mark_suspect 2 (M.add_or_update_node 8 (node 2 active 8) start))
unfolding M.new new_local
Reach-IsValid_example =
    Reach-IsValid whole loopback config 7 (0, 0, 0) refl
      (Reach.next (Reach.next Reach.here (Steps.add 8 (node 2 active 8))) (Steps.suspect 2))

get_node-add_or_update_node_example :
    get_node 2 (M.add_or_update_node 90 (node 2 starting 90) members)
    ≡ some (announced 90 (node 2 starting 90) (some (node 2 active 80)))
unfolding Map.get
get_node-add_or_update_node_example = get_node-add_or_update_node 2 90 (node 2 starting 90) members

get_suspect_candidates_iff_example : Elem 2 (M.get_suspect_candidates (seconds 99) members) ↔ (
    (n : NodeInfo ℕ) × (Map.get 2 members.nodes ≡ some n)
    × (n.status ≡ active)
    × (15 < time_since_heartbeat (seconds 99) n))
get_suspect_candidates_iff_example =
    get_suspect_candidates_iff (seconds 99) members 2 members-IsValid

get_dead_candidates_iff_example : Elem 3 (M.get_dead_candidates (seconds 99) members) ↔ (
    (n : NodeInfo ℕ) × (Map.get 3 members.nodes ≡ some n)
    × (n.status ≡ suspect)
    × (45 < time_since_heartbeat (seconds 99) n))
get_dead_candidates_iff_example = get_dead_candidates_iff (seconds 99) members 3 members-IsValid

Step-IsSynced_example : IsSynced (M.mark_suspect 2 members)
unfolding M.count_active Map.values is_status
Step-IsSynced_example = Step-IsSynced whole (Steps.suspect 2) tt refl

-- The detector names node 2 as suspect and node 3 as dead.
suspects : M.get_suspect_candidates (seconds 99) members ≡ 2 ∷ []
unfolding M.get_suspect_candidates Map.values is_status time_since_heartbeat
suspects = refl

deaths : M.get_dead_candidates (seconds 99) members ≡ 3 ∷ []
unfolding M.get_dead_candidates Map.values is_status time_since_heartbeat
deaths = refl
