-- ===== src/DeviceManager/Steps.antt =====
-- Everything that a node's device manager does with the owners of devices, in any order
-- (src/device_manager/device_manager.rs).
use head_end_system_tpp.Prelude.{ℕ, ◌≡◌, ◌≢◌, refl, Option, List, All}
use head_end_system_tpp.Prelude.Map
use head_end_system_tpp.Prelude.Map.{IsDistinct}
use head_end_system_tpp.Database.{Device}
use head_end_system_tpp.Scheduler.{Chrono}
use head_end_system_tpp.DeviceManager.{DeviceManager, new}
use head_end_system_tpp.DeviceManager as M
use head_end_system_tpp.DeviceManager.Ownership as O
use head_end_system_tpp.DeviceManager.Delegate as G
use head_end_system_tpp.DeviceManager.Rebalance as R
use head_end_system_tpp.DeviceManager.Owned.{HasBucket, IsInStep}
use head_end_system_tpp.DeviceManager.InStep as I
use head_end_system_tpp.DeviceManager.InStep.Planned as P
use head_end_system_tpp.DeviceManager.InStep.Shed.{OtherNodes, rebalance_cluster-IsInStep}

-- One call, but for `release_devices` and `manager_add_owned_device`, which change the owned set alone,
-- with what the caller gives: other nodes are not this one, and the devices that are
-- claimed at the start or taken over from another node have a bucket.
pub data Step (s : DeviceManager) : DeviceManager → Type 1 where
  loads : Step s (O.load_from_database s).0
  claims_unassigned : Step s (O.claim_unassigned_devices s).0
  claims_all :
      All (λ d. HasBucket d s.scheduler.database) (Map.keys s.scheduler.database.devices)
      → Step s (O.claim_all_devices s).0
  registers : (c : Chrono) (now : ℕ) (d : Device) → Step s (M.manager_register_device c now d s).0
  plans :
      (adds : ℕ → ℕ → Option ℕ) (c : Chrono) (now id : ℕ)
      → Step s (M.schedule_next_wakeup c now adds id s).0
  accepts :
      (adds : ℕ → ℕ → Option ℕ) (ds : List G.DelegatedDevice)
      → All (λ (d : G.DelegatedDevice). HasBucket d.device_id s.scheduler.database) ds
      → Step s (G.accept_delegation adds ds s).0
  redistributes :
      (failed : ℕ) (others : List (ℕ × ℕ))
      → failed ≢ s.local_node_id
      → Step s (O.redistribute_from_failed failed others s).0
  rebalances :
      {F : Type 0} (f32 : R.F32 F) (others : List (R.NodeLoad F)) (local_load : F) (local_max : ℕ)
      → OtherNodes s.local_node_id others
      → Step s (R.rebalance_cluster f32 others local_load local_max s).0

pub data Reach (s : DeviceManager) : DeviceManager → Type 1 where
  here : Reach s s
  next : {t u : DeviceManager} → Reach s t → Step t u → Reach s u

pub Step-IsInStep : {s t : DeviceManager} → Step s t → IsInStep s → IsInStep t
unfolding G.accept_delegation
Step-IsInStep {s} loads inv = I.load_from_database-IsInStep s inv.same_node inv.distinct
Step-IsInStep {s} claims_unassigned inv = I.claim_unassigned_devices-IsInStep s inv
Step-IsInStep {s} (claims_all have) inv = I.claim_all_devices-IsInStep s have inv
Step-IsInStep {s} (registers c now d) inv = P.register_device-IsInStep c now d s _ refl inv
Step-IsInStep {s} (plans adds c now id) inv =
    P.SameOwners-IsInStep s _ (P.schedule_next_wakeup-same adds c now id s) inv
Step-IsInStep {s} (accepts adds ds have) inv =
    P.accept_each-IsInStep adds s.local_node_id ds s refl have inv
Step-IsInStep {s} (redistributes failed others other) inv =
    I.redistribute_from_failed-IsInStep failed others s other inv
Step-IsInStep {s} (rebalances f32 others local_load local_max other) inv =
    rebalance_cluster-IsInStep f32 others local_load local_max s other inv

Reach-from : {s t : DeviceManager} → Reach s t → IsInStep s → IsInStep t
Reach-from here inv = inv
Reach-from (next r st) inv = Step-IsInStep st (Reach-from r inv)

-- A manager that starts by loading its devices from the database, and then loads, claims, registers
-- and plans devices, accepts delegations, redistributes and rebalances in any order, owns exactly
-- the devices that the database gives to its node. The scheduler stands for the same node, no
-- device has two buckets at the start, the devices of claim_all_devices and of a delegation have a
-- bucket, and neither a failed node nor the other nodes of a rebalancing are this one.
pub Reach-IsInStep :
    (s t : DeviceManager)
    → s.scheduler.local_node_id ≡ s.local_node_id
    → IsDistinct s.scheduler.database.buckets
    → Reach (O.load_from_database s).0 t
    → IsInStep t
Reach-IsInStep s t same distinct r = Reach-from r (I.load_from_database-IsInStep s same distinct)
