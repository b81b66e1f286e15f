-- ===== src/DeviceManager/InStep/Planned.antt =====
-- The owners of devices through the operations that plan sessions: registering and accepting devices
-- (src/device_manager/device_manager.rs).
use head_end_system_tpp.Prelude.{
  ℕ, ◌≡◌, refl, sym, ◌∙◌, arith, Option, List, [], ◌∷◌, ==_iff, All, map-All, ◌⊎◌, Option-cases,
  inl, inr,
}
use head_end_system_tpp.Prelude.Map
use head_end_system_tpp.Prelude.Map.{Map, IsDistinct, insert-IsDistinct}
use head_end_system_tpp.Database.{ℤ, Device}
use head_end_system_tpp.Database.InMemory as Db
use head_end_system_tpp.Database.InMemory.{InnerDb, owned_by}
use head_end_system_tpp.Database as DbTypes
use head_end_system_tpp.Scheduler as S
use head_end_system_tpp.Scheduler.{Scheduler, Chrono, next_wakeup}
use head_end_system_tpp.Scheduler.Devices as D
use head_end_system_tpp.Scheduler.Jobs.{contains-put}
use head_end_system_tpp.DeviceManager.{
  DeviceManager, Result, ok, Manager, own, disown, return, ◌>>=◌,
}
use head_end_system_tpp.DeviceManager as M
use head_end_system_tpp.DeviceManager.Delegate as G
use head_end_system_tpp.DeviceManager.Owned.{
  HasBucket, moved, IsInStep, own-moved-IsInStep, moved-HasBucket,
}
use head_end_system_tpp.DeviceManager.InStep.{bind_then, bind_keeps, claim_lem}

-- A plan of the scheduler leaves the owners alone.
abbrev pub SameOwners : DeviceManager → DeviceManager → Type 0
SameOwners s t =
    (t.owned_devices ≡ s.owned_devices)
    × (t.local_node_id ≡ s.local_node_id)
    × ((t.scheduler.local_node_id ≡ s.scheduler.local_node_id)
        × (t.scheduler.database.buckets ≡ s.scheduler.database.buckets))

pub SameOwners-IsInStep : (s t : DeviceManager) → SameOwners s t → IsInStep s → IsInStep t
SameOwners-IsInStep s t same inv = record {
  agree = λ j. rw (same.0, same.1, same.2.1) (inv.agree j);
  same_node = rw (same.1, same.2.0) inv.same_node;
  distinct = rw same.2.1 inv.distinct;
}

S_cases :
    {A : Type 0} (r : S.Result A)
    → ((a : A) × (r ≡ S.Result.ok a))
      ⊎ (((e : S.SchedulerError) × (r ≡ S.Result.err e)) ⊎ (r ≡ S.Result.panic))
S_cases (S.Result.ok a) = inl (a, refl)
S_cases (S.Result.err e) = inr (inl (e, refl))
S_cases S.Result.panic = inr (inr refl)

add_owned_device-same :
    (id : ℕ) (s : Scheduler)
    → ((D.add_owned_device id s).local_node_id ≡ s.local_node_id)
      × ((D.add_owned_device id s).database.buckets ≡ s.database.buckets)
unfolding D.add_owned_device
add_owned_device-same id s = elim (Option-cases s.owned_devices) [
  | inl all ↦ rw (all, D.add_owned_device) (refl, refl)
  | inr (owned, some_of_them) ↦ rw (some_of_them, D.add_owned_device) (refl, refl)
]

module _ (adds : ℕ → ℕ → Option ℕ) where
  schedule_at-same :
      (id time : ℕ) (s : Scheduler)
      → ((D.schedule_at adds id time s).0.local_node_id ≡ s.local_node_id)
        × ((D.schedule_at adds id time s).0.database.buckets ≡ s.database.buckets)
  unfolding D.schedule_at Db.schedule_connection
  schedule_at-same id time s = elim (Option-cases (adds id time)) [
    | inl refused ↦ rw (refused, D.schedule_at) (refl, refl)
    | inr (job, taken) ↦ rw (taken, D.schedule_at) (refl, refl)
  ]

  schedule_delegated_device-same :
      (id time : ℕ) (s : Scheduler)
      → ((D.schedule_delegated_device adds id time s).0.local_node_id ≡ s.local_node_id)
        × ((D.schedule_delegated_device adds id time s).0.database.buckets ≡ s.database.buckets)
  unfolding D.schedule_delegated_device
  schedule_delegated_device-same id time s =
      let kept = schedule_at-same id time s in
      elim (S_cases (D.schedule_at adds id time s).1) [
        | inl (done, e) ↦
            let owned = add_owned_device-same id (D.schedule_at adds id time s).0 in
            rw (e, D.schedule_delegated_device) (owned.0 ∙ kept.0, owned.1 ∙ kept.1)
        | inr (inl (x, e)) ↦ rw (e, D.schedule_delegated_device) kept
        | inr (inr e) ↦ rw (e, D.schedule_delegated_device) kept
      ]

  scheduled-same :
      (id : ℕ) (s : Scheduler) (r : S.Result ℕ)
      → ((D.scheduled adds id s r).0.local_node_id ≡ s.local_node_id)
        × ((D.scheduled adds id s r).0.database.buckets ≡ s.database.buckets)
  unfolding D.scheduled
  scheduled-same id s (S.Result.ok t) = schedule_at-same id t s
  scheduled-same id s (S.Result.err e) = (refl, refl)
  scheduled-same id s S.Result.panic = (refl, refl)

  schedule_next_wakeup_job-same :
      (c : Chrono) (now id : ℕ) (s : Scheduler) (r : DbTypes.Result ℤ)
      → Db.get_bucket_number id s.database ≡ r
      → ((D.schedule_next_wakeup_job adds c now id s).0.local_node_id ≡ s.local_node_id)
        × ((D.schedule_next_wakeup_job adds c now id s).0.database.buckets ≡ s.database.buckets)
  unfolding D.schedule_next_wakeup_job
  schedule_next_wakeup_job-same c now id s (DbTypes.Result.ok bucket) e =
      rw (e, D.schedule_next_wakeup_job)
        (scheduled-same id s (next_wakeup c now (D.to_usize bucket) s))
  schedule_next_wakeup_job-same c now id s (DbTypes.Result.err x) e =
      rw (e, D.schedule_next_wakeup_job) (refl, refl)

  pub schedule_next_wakeup-same :
      (c : Chrono) (now id : ℕ) (s : DeviceManager)
      → SameOwners s (M.schedule_next_wakeup c now adds id s).0
  unfolding M.schedule_next_wakeup M.schedule
  schedule_next_wakeup-same c now id s =
      (refl, refl, schedule_next_wakeup_job-same c now id s.scheduler _ refl)

  pub accept_device-same :
      (node : ℕ) (d : G.DelegatedDevice) (s : DeviceManager)
      → SameOwners (own d.device_id (moved d.device_id node s)) (G.accept_device adds node d s).0
  unfolding G.accept_device M.schedule ◌>>=◌
  accept_device-same node d s =
      let t = own d.device_id (moved d.device_id node s) in
      rw (claim_lem node d.device_id s)
        (refl, refl, schedule_delegated_device-same d.device_id d.schedule_time t.scheduler)

  -- Between two devices of a delegation.
  abbrev IsReady : ℕ → List G.DelegatedDevice → DeviceManager → Type 0
  IsReady node ds t =
      (t.local_node_id ≡ node)
      × All (λ (d : G.DelegatedDevice). HasBucket d.device_id t.scheduler.database) ds
      × IsInStep t

  accept_device-IsReady :
      (node : ℕ) (d : G.DelegatedDevice) (ds : List G.DelegatedDevice) (s : DeviceManager)
      → s.local_node_id ≡ node
      → All (λ (d : G.DelegatedDevice). HasBucket d.device_id s.scheduler.database) (d ∷ ds)
      → IsInStep s
      → IsReady node ds (G.accept_device adds node d s).0
  unfolding own
  accept_device-IsReady node d ds s here have inv =
      let same = accept_device-same node d s in
      let t = own d.device_id (moved d.device_id node s) in
      (
        same.1 ∙ here,
        map-All _ _
            (λ (e : G.DelegatedDevice) h.
              rw same.2.1 (moved-HasBucket e.device_id d.device_id node s h))
            ds have.1,
        SameOwners-IsInStep t _ same (rw (sym here) (own-moved-IsInStep d.device_id s have.0 inv)),
      )

  pub accept_each-IsInStep :
      (node : ℕ) (ds : List G.DelegatedDevice) (s : DeviceManager)
      → s.local_node_id ≡ node
      → All (λ (d : G.DelegatedDevice). HasBucket d.device_id s.scheduler.database) ds
      → IsInStep s
      → IsInStep (G.accept_each adds node ds s).0
  unfolding G.accept_each
  accept_each-IsInStep node [] s here have inv = inv
  accept_each-IsInStep node (d ∷ ds) s here have inv =
      bind_then (IsReady node ds) IsInStep _ (G.accept_device adds node d) s
        (accept_device-IsReady node d ds s here have inv) (λ t ready. ready.2)
        (λ done t ready.
          bind_keeps IsInStep (λ (ids : List ℕ). return (d.device_id ∷ ids))
            (G.accept_each adds node ds) t (accept_each-IsInStep node ds t ready.0 ready.1 ready.2)
            (λ ids u kept. kept))

module _ (c : Chrono) (now : ℕ) where
  pub register_device-IsInStep :
      (d : Device) (s : DeviceManager) (r : S.Result ℕ)
      → next_wakeup c now (D.choose_bucket s.scheduler) s.scheduler ≡ r
      → IsInStep s
      → IsInStep (M.manager_register_device c now d s).0
  unfolding M.manager_register_device M.schedule ◌>>=◌ D.register_device own Db.add_device_to_bucket
  register_device-IsInStep d s (S.Result.err x) e inv = rw (e, D.register_device) inv
  register_device-IsInStep d s S.Result.panic e inv = rw (e, D.register_device) inv
  register_device-IsInStep d s (S.Result.ok t) e inv =
      rw (e, D.register_device)
        (record {
          same_node = inv.same_node;
          distinct = insert-IsDistinct _ _ _ inv.distinct;
          agree = λ j. ground (
            arith,
            contains-put j d.id s.owned_devices,
            Map.get-insert j d.id
                (DbTypes.pos (D.choose_bucket s.scheduler), s.scheduler.local_node_id)
                s.scheduler.database.buckets,
            inv.agree j,
            inv.same_node,
            ==_iff d.id j,
          );
        })
