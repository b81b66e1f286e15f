-- ===== src/DeviceManager/Settled.antt =====
-- Accepting a delegation does not panic (src/device_manager/device_manager.rs).
use head_end_system_tpp.Prelude.{
  ℕ, ◌≡◌, ◌≢◌, refl, Option-cases, inl, inr, Option, none, some, List, [], ◌∷◌,
}
use head_end_system_tpp.Scheduler as S
use head_end_system_tpp.Scheduler.Devices as D
use head_end_system_tpp.DeviceManager.{
  DeviceManager, DeviceManagerError, Result, ok, err, panic, return, ◌>>=◌,
}
use head_end_system_tpp.DeviceManager as M
use head_end_system_tpp.DeviceManager.Delegate.{
  DelegatedDevice, accept_device, accept_each, accept_delegation,
}
use head_end_system_tpp.DeviceManager.InStep.{claim_lem}

continue-ne-panic :
    (id : ℕ) (r : Result (List ℕ)) (s : DeviceManager)
    → r ≢ panic
    → (M.continue r (λ ids. return (id ∷ ids)) s).1 ≢ panic
continue-ne-panic id (ok ids) s calm e = cc
continue-ne-panic id (err x) s calm e = cc
continue-ne-panic id panic s calm e = calm refl

module _ (adds : ℕ → ℕ → Option ℕ) where
  taken_device :
      (node job : ℕ) (d : DelegatedDevice) (s : DeviceManager)
      → adds d.device_id d.schedule_time ≡ some job
      → (accept_device adds node d s).1 ≡ ok tt
  unfolding accept_device M.schedule ◌>>=◌ D.schedule_delegated_device D.schedule_at
  taken_device node job d s taken =
      rw (claim_lem node d.device_id s)
        (rw (taken, D.schedule_delegated_device, D.schedule_at) refl)

  refused_device :
      (node : ℕ) (d : DelegatedDevice) (s : DeviceManager)
      → adds d.device_id d.schedule_time ≡ none
      → (accept_device adds node d s).1
        ≡ err (DeviceManagerError.scheduler S.SchedulerError.job_scheduler_error)
  unfolding accept_device M.schedule ◌>>=◌ D.schedule_delegated_device D.schedule_at
  refused_device node d s refused =
      rw (claim_lem node d.device_id s)
        (rw (refused, D.schedule_delegated_device, D.schedule_at) refl)

  accept_each-ne-panic :
      (node : ℕ) (ds : List DelegatedDevice) (s : DeviceManager)
      → (accept_each adds node ds s).1 ≢ panic
  unfolding accept_each ◌>>=◌
  accept_each-ne-panic node [] s = λ e. cc
  accept_each-ne-panic node (d ∷ ds) s = elim (Option-cases (adds d.device_id d.schedule_time)) [
    | inl refused ↦ rw (refused_device node d s refused, M.continue) (λ e. cc)
    | inr (job, taken) ↦
        rw (taken_device node job d s taken, M.continue)
          (continue-ne-panic d.device_id
            (accept_each adds node ds (accept_device adds node d s).0).1
            (accept_each adds node ds (accept_device adds node d s).0).0
            (accept_each-ne-panic node ds (accept_device adds node d s).0))
  ]

  -- Whatever the job scheduler answers, accepting a delegation returns.
  pub accept_delegation-ne-panic :
      (ds : List DelegatedDevice) (s : DeviceManager) → (accept_delegation adds ds s).1 ≢ panic
  unfolding accept_delegation
  accept_delegation-ne-panic ds s = accept_each-ne-panic s.local_node_id ds s
