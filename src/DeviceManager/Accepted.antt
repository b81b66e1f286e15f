-- ===== src/DeviceManager/Accepted.antt =====
-- What accepting a delegation does to the devices of it (src/device_manager/device_manager.rs).
use head_end_system_tpp.Prelude.{
  ℕ, ◌≡◌, ◌≢◌, refl, arith, true, false, Option, none, some, List, [], ◌∷◌, ◌==◌, if◌then◌else◌,
  All, Option-cases, inl, inr,
}
use head_end_system_tpp.Database.InMemory.{InnerDb}
use head_end_system_tpp.Scheduler.Devices as D
use head_end_system_tpp.Scheduler.Jobs.{contains-put, contains-filter}
use head_end_system_tpp.DeviceManager.{
  DeviceManager, Result, ok, Manager, return, own, disown, with_database, ◌>>=◌,
}
use head_end_system_tpp.DeviceManager as M
use head_end_system_tpp.DeviceManager.Delegate.{
  DelegatedDevice, accept_device, accept_each, accept_delegation, release_devices,
}
use head_end_system_tpp.DeviceManager.Owned.{
  owner_of, is_node, HasBucket, owner_of-set_device_owner, IsInStep,
}
use head_end_system_tpp.DeviceManager.InStep.{claim_lem}
use head_end_system_tpp.DeviceManager.InStep.Planned.{accept_device-same, accept_each-IsInStep}
use mathlib.Core.Option

abbrev pub ids_of : List DelegatedDevice → List ℕ
ids_of [] = []
ids_of (d ∷ ds) = d.device_id ∷ ids_of ds

module _ (adds : ℕ → ℕ → Option ℕ) where
  -- The job scheduler takes every job.
  abbrev pub TakesJobs : Type 0
  TakesJobs = (id t : ℕ) → (job : ℕ) × (adds id t ≡ some job)

  accept_device_ok :
      (node : ℕ) (d : DelegatedDevice) (s : DeviceManager)
      → TakesJobs
      → (accept_device adds node d s).1 ≡ ok tt
  unfolding accept_device M.schedule ◌>>=◌ D.schedule_delegated_device D.schedule_at
  accept_device_ok node d s takes =
      let (job, taken) = takes d.device_id d.schedule_time in
      rw (claim_lem node d.device_id s)
        (rw (taken, D.schedule_delegated_device, D.schedule_at) refl)

  accept_each_step :
      (node : ℕ) (d : DelegatedDevice) (ds : List DelegatedDevice) (s : DeviceManager)
      (ids : List ℕ)
      → (accept_device adds node d s).1 ≡ ok tt
      → (accept_each adds node ds (accept_device adds node d s).0).1 ≡ ok ids
      → ((accept_each adds node (d ∷ ds) s).0
          ≡ (accept_each adds node ds (accept_device adds node d s).0).0)
        × ((accept_each adds node (d ∷ ds) s).1 ≡ ok (d.device_id ∷ ids))
  unfolding accept_each ◌>>=◌
  accept_each_step node d ds s ids first rest =
      rw (first, M.continue) (rw (rest, M.continue) (refl, refl))

  accepted_set :
      (node j : ℕ) (d : DelegatedDevice) (s : DeviceManager)
      → D.contains j (accept_device adds node d s).0.owned_devices
        ≡ (if d.device_id == j then true else D.contains j s.owned_devices)
  unfolding own
  accepted_set node j d s =
      rw (accept_device-same adds node d s).0 (contains-put j d.device_id s.owned_devices)

  accepted_owner :
      (node j : ℕ) (d : DelegatedDevice) (s : DeviceManager)
      → owner_of j (accept_device adds node d s).0.scheduler.database ≡ (
          if d.device_id == j
          then Option.map (λ o. node) (owner_of j s.scheduler.database)
          else owner_of j s.scheduler.database)
  unfolding own
  accepted_owner node j d s =
      rw (accept_device-same adds node d s).2.1
        (owner_of-set_device_owner j d.device_id node s.scheduler.database)

  -- The owner of a device, and whether it is in the owned set, after the loop.
  abbrev pub IsAccepted : ℕ → List ℕ → DeviceManager → DeviceManager × Result (List ℕ) → Type 0
  IsAccepted node ids s p =
      (p.1 ≡ ok ids)
      × ((j : ℕ)
          → D.contains j p.0.owned_devices
            ≡ (if D.contains j ids then true else D.contains j s.owned_devices))
      × ((j : ℕ)
          → owner_of j p.0.scheduler.database ≡ (
              if D.contains j ids
              then Option.map (λ o. node) (owner_of j s.scheduler.database)
              else owner_of j s.scheduler.database))

  accept_each_lem :
      (node : ℕ) (ds : List DelegatedDevice) (s : DeviceManager)
      → TakesJobs
      → IsAccepted node (ids_of ds) s (accept_each adds node ds s)
  unfolding D.contains
  accept_each_lem node [] s takes = unfold accept_each in (refl, λ j. refl, λ j. refl)
  accept_each_lem node (d ∷ ds) s takes =
      let t = (accept_device adds node d s).0 in
      let same = accept_device-same adds node d s in
      let (returns, set, owners) = accept_each_lem node ds t takes in
      let (state, value) =
        accept_each_step node d ds s (ids_of ds) (accept_device_ok node d s takes) returns in
      rw (state, value)
        (
          refl,
          λ j. ground (arith, set j, accepted_set node j d s),
          λ j. elim (Option-cases (owner_of j s.scheduler.database)) [
            | inl missing ↦ ground (arith, missing, owners j, accepted_owner node j d s)
            | inr (o, known) ↦ ground (arith, known, owners j, accepted_owner node j d s)
          ],
        )

  -- When the job scheduler takes every job, a node that accepts a delegation answers with the ids of
  -- all its devices. It owns these devices besides those that it owned, the database gives it those
  -- of them that have a bucket, and the owner of every other device is as it was.
  pub accept_delegation_lem :
      (ds : List DelegatedDevice) (s : DeviceManager)
      → TakesJobs
      → IsAccepted s.local_node_id (ids_of ds) s (accept_delegation adds ds s)
  unfolding accept_delegation
  accept_delegation_lem ds s takes = accept_each_lem s.local_node_id ds s takes

-- What the delegating node does when the devices were accepted, the database being shared.
abbrev pub released : List ℕ → InnerDb → DeviceManager → DeviceManager
released ids db s = release_devices ids (with_database db s)

release_lem :
    (ids : List ℕ) (s : DeviceManager) (j : ℕ)
    → (D.contains j (release_devices ids s).owned_devices
        ≡ (if D.contains j ids then false else D.contains j s.owned_devices))
      × ((release_devices ids s).scheduler ≡ s.scheduler)
      × ((release_devices ids s).local_node_id ≡ s.local_node_id)
unfolding release_devices disown D.contains
release_lem [] s j = (refl, refl, refl)
release_lem (d ∷ ids) s j =
    let (set, sch, node) = release_lem ids (disown d s) j in
    (ground (arith, set, contains-filter j d s.owned_devices), sch, node)

left_over :
    (j : ℕ) (ids : List ℕ) (s : DeviceManager) (to : ℕ) (o : Option ℕ)
    → s.local_node_id ≢ to
    → D.contains j s.owned_devices ≡ is_node s.local_node_id o
    → (if D.contains j ids then false else D.contains j s.owned_devices)
      ≡ is_node s.local_node_id (if D.contains j ids then Option.map (λ p. to) o else o)
left_over j ids s to none other agree = ground (arith, agree)
left_over j ids s to (some p) other agree = ground (arith, agree)

-- A delegation from end to end over a shared database: if the owned sets of two different nodes agree
-- with the database, the devices have buckets, and the job scheduler of the accepting node takes
-- every job, then both sets agree with the database again once the accepting node took the devices up
-- and the delegating node released them.
pub delegation-IsInStep :
    (adds : ℕ → ℕ → Option ℕ) (ds : List DelegatedDevice) (from to : DeviceManager)
    → TakesJobs adds
    → from.local_node_id ≢ to.local_node_id
    → from.scheduler.database ≡ to.scheduler.database
    → All (λ (d : DelegatedDevice). HasBucket d.device_id to.scheduler.database) ds
    → IsInStep from
    → IsInStep to
    → let to' = (accept_delegation adds ds to).0 in
      IsInStep to' × IsInStep (released (ids_of ds) to'.scheduler.database from)
unfolding accept_delegation
delegation-IsInStep adds ds from to takes other shared have inv inv' =
    let after = accept_each-IsInStep adds to.local_node_id ds to refl have inv' in
    let (returns, set, owners) = accept_delegation_lem adds ds to takes in
    let db = (accept_each adds to.local_node_id ds to).0.scheduler.database in
    let kept = release_lem (ids_of ds) (with_database db from) 0 in
    (
      after,
      record {
        same_node = rw (kept.1, kept.2) inv.same_node;
        distinct = rw kept.1 after.distinct;
        agree = λ j.
            rw ((release_lem (ids_of ds) (with_database db from) j).0, kept.1, kept.2, owners j)
              (left_over j (ids_of ds) from to.local_node_id (owner_of j to.scheduler.database)
                other (rw shared at (inv.agree j)));
      },
    )
