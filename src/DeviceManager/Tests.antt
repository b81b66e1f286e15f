-- ===== src/DeviceManager/Tests.antt =====
-- A device manager (src/device_manager/device_manager.rs) with six devices on three nodes.
use head_end_system_tpp.Prelude.{
  arith, ℕ, ◌+◌, ◌≡◌, ◌≤◌, refl, false, Option, none, some, List, [], ◌∷◌, map, get_elem?, length,
  ◌%◌,
}
use head_end_system_tpp.Prelude.Map
use head_end_system_tpp.Prelude.Map.{IsDistinct}
use head_end_system_tpp.Database.{Device, pos}
use head_end_system_tpp.Database.InMemory.{InnerDb}
use head_end_system_tpp.Scheduler.{Scheduler}
use head_end_system_tpp.Scheduler.Sample.{days}
use head_end_system_tpp.Scheduler.Devices as D
use head_end_system_tpp.DeviceManager.{DeviceManager, ok, with_database}
use head_end_system_tpp.DeviceManager as M
use head_end_system_tpp.DeviceManager.Ownership as O
use head_end_system_tpp.DeviceManager.ByCount.{IsByCount}
use mathlib.Core.List.{Perm}
use mathlib.Core.Option
use head_end_system_tpp.DeviceManager.Delegate.{DelegatedDevice, accept_delegation}
use head_end_system_tpp.DeviceManager.Owned.{owner_of, IsInStep}
use head_end_system_tpp.DeviceManager.Steps.{Reach, Reach-IsInStep}
use head_end_system_tpp.DeviceManager.Steps as Step
use head_end_system_tpp.DeviceManager.Accepted.{TakesJobs, IsAccepted, accept_delegation_lem}
use head_end_system_tpp.DeviceManager.Redistribute.{Distinct}
use head_end_system_tpp.DeviceManager.Dealt.{
  id_of, orphans, after_failure, redistribute_from_failed_lem,
}
use head_end_system_tpp.DeviceManager.Again.{redistribute_from_failed-again}
use head_end_system_tpp.DeviceManager.Shares.{count_owned, redistribute_from_failed-even}

abbrev tables : InnerDb
tables = record {
  devices = [];
  device_registration = [];
  buckets =
      (1, (pos 0, 100))
      ∷ (2, (pos 1, 200))
      ∷ (3, (pos 2, 200))
      ∷ (4, (pos 3, 300))
      ∷ (5, (pos 4, 200))
      ∷ (6, (pos 5, 0))
      ∷ [];
  scheduled_connections = [];
}

abbrev scheduler : Scheduler
scheduler = record {
  bucket_number = 24;
  database = tables;
  owned_devices = none;
  local_node_id = 100;
  test_mode = false;
  active_tasks = [];
  jobs = [];
}

abbrev manager : DeviceManager
manager = record {
  local_node_id = 100;
  local_bucket_count = 24;
  owned_devices = [];
  scheduler = scheduler;
}

tables-IsDistinct : IsDistinct tables.buckets
unfolding Map.get
tables-IsDistinct = (refl, (refl, (refl, (refl, (refl, (refl, tt))))))

abbrev meter : Device
meter = record { id = 7; ipv4 = none; ipv6 = none; imei = none }

abbrev loaded : DeviceManager
loaded = (O.load_from_database manager).0

abbrev with_orphans : DeviceManager
with_orphans = (O.claim_unassigned_devices loaded).0

abbrev after_registration : DeviceManager
after_registration = (M.manager_register_device days 0 meter with_orphans).0

Reach-IsInStep_example : IsInStep after_registration
Reach-IsInStep_example =
    Reach-IsInStep manager after_registration refl tables-IsDistinct
      (Step.next (Step.next Step.here Step.claims_unassigned) (Step.registers days 0 meter))

abbrev adds : ℕ → ℕ → Option ℕ
adds id t = some id

adds-TakesJobs : TakesJobs adds
adds-TakesJobs id t = (id, refl)

abbrev delegated : List DelegatedDevice
delegated =
    record { device_id = 2; ipv4 = none; ipv6 = none; schedule_time = 60 }
    ∷ record { device_id = 9; ipv4 = none; ipv6 = none; schedule_time = 70 }
    ∷ []

accept_delegation_lem_example :
    IsAccepted adds 100 (2 ∷ 9 ∷ []) manager (accept_delegation adds delegated manager)
accept_delegation_lem_example = accept_delegation_lem adds delegated manager adds-TakesJobs

redistribute_from_failed_lem_example :
    (nodes : List (ℕ × ℕ)) × IsByCount nodes
    × Perm nodes ((300, 1) ∷ (100, length manager.owned_devices) ∷ [])
    × ((O.redistribute_from_failed 200 ((300, 1) ∷ []) manager).1 ≡ ok tt)
    × ((k d : ℕ)
        → get_elem? (orphans 200 manager) k ≡ some d
        → owner_of d (after_failure 200 ((300, 1) ∷ []) manager)
          ≡ Option.map (λ (n : ℕ × ℕ). n.0) (get_elem? nodes (k % length nodes)))
    × ((j : ℕ)
        → D.contains j (orphans 200 manager) ≡ false
        → owner_of j (after_failure 200 ((300, 1) ∷ []) manager) ≡ owner_of j tables)
redistribute_from_failed_lem_example =
    redistribute_from_failed_lem 200 ((300, 1) ∷ []) manager tables-IsDistinct

all_nodes-Distinct : Distinct (map id_of (O.all_nodes ((300, 1) ∷ []) manager))
unfolding O.all_nodes O.sort_by_count O.insert_by_count D.contains
all_nodes-Distinct = (refl, (refl, tt))

redistribute_from_failed-even_example :
    count_owned 100 (orphans 200 manager) (after_failure 200 ((300, 1) ∷ []) manager)
    ≤ count_owned 300 (orphans 200 manager) (after_failure 200 ((300, 1) ∷ []) manager) + 1
unfolding O.all_nodes O.sort_by_count O.insert_by_count
redistribute_from_failed-even_example =
    redistribute_from_failed-even 200 0 1 100 300 ((300, 1) ∷ []) manager tables-IsDistinct
      all_nodes-Distinct refl refl

abbrev first : DeviceManager
first = record manager { owned_devices = 1 ∷ [] }

first-IsInStep : IsInStep first
unfolding D.contains Map.get
first-IsInStep = record {
  agree = λ j. ground arith;
  same_node = refl;
  distinct = (refl, (refl, (refl, (refl, (refl, (refl, tt))))));
}

-- The node 300, which is dealt the device 3.
abbrev other : DeviceManager
other = record {
  local_node_id = 300;
  local_bucket_count = 24;
  owned_devices = 4 ∷ [];
  scheduler = record scheduler { local_node_id = 300 };
}

redistribute_from_failed-again_example :
    let other' = with_database (after_failure 200 ((300, 1) ∷ []) first) other in
    O.redistribute_from_failed 200 ((100, 1) ∷ []) other' ≡ (other', ok tt)
unfolding O.all_nodes O.sort_by_count O.insert_by_count
redistribute_from_failed-again_example =
    redistribute_from_failed-again 200 ((300, 1) ∷ []) ((100, 1) ∷ []) first other
      (λ e. omega arith) ((λ e. omega arith), ((λ e. omega arith), tt)) first-IsInStep
