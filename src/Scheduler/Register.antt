-- ===== src/Scheduler/Register.antt =====
-- A device that registers gets a time and a bucket (src/scheduler/scheduler.rs).
use head_end_system_tpp.Prelude.{ℕ, suc, ◌≤◌, ◌<◌, ◌≡◌, refl, arith, none}
use head_end_system_tpp.Prelude.Map
use head_end_system_tpp.Database.{Device}
use head_end_system_tpp.Database.InMemory as Db
use head_end_system_tpp.Database.InMemory.{InnerDb}
use head_end_system_tpp.Database.InMemory.Balance.{
  IsBalanced, least_loaded, add_device_to_bucket-IsBalanced, load,
}
use head_end_system_tpp.Scheduler.{Chrono, IsChrono, Scheduler, Result, ok, err, panic, next_wakeup}
use head_end_system_tpp.Scheduler.Times.{IsSoon, next_wakeup-IsSoon}
use head_end_system_tpp.Scheduler.Devices.{register_device, choose_bucket}

-- The bucket that is chosen is in range and holds no more devices than the bucket `b`.
pub choose_bucket-least :
    (n b : ℕ) (s : Scheduler)
    → s.bucket_number ≡ suc n
    → b < suc n
    → (choose_bucket s < suc n)
      × (load (choose_bucket s) s.database.buckets ≤ load b s.database.buckets)
unfolding choose_bucket Db.get_bucket_with_less_devices
choose_bucket-least n b s total h =
    let found = least_loaded s.bucket_number b s.database (omega (arith, total, h)) in
    (omega (arith, found.0, total), found.1)

module _ (c : Chrono) (laws : IsChrono c) (now : ℕ) where
  -- Registering a device that has no bucket, when the number of buckets is positive and no two of
  -- them differ by more than one device: it succeeds with a wake-up that is later than now and at
  -- most 26 hours away, and no two buckets differ by more than one device afterwards.
  pub register_device_lem :
      (n : ℕ) (d : Device) (s : Scheduler)
      → s.bucket_number ≡ suc n
      → Map.get d.id s.database.buckets ≡ none
      → IsBalanced (suc n) s.database
      → IsSoon now (register_device c now d s).1
        × IsBalanced (suc n) (register_device c now d s).0.database
  unfolding register_device
  register_device_lem n d s total new bal =
      let bucket = choose_bucket s in
      let soon =
        next_wakeup-IsSoon c laws now n bucket s total
          (choose_bucket-least n 0 s total (omega arith)).0 in
      woken (next_wakeup c now bucket s) refl soon
    where
      woken :
          (r : Result ℕ)
          → next_wakeup c now (choose_bucket s) s ≡ r
          → IsSoon now r
          → IsSoon now (register_device c now d s).1
            × IsBalanced (suc n) (register_device c now d s).0.database
      woken (ok t) e soon =
          rw (e, register_device)
            (
              soon,
              add_device_to_bucket-IsBalanced (suc n) (choose_bucket s) d.id s.local_node_id
                  s.database new (λ b h. (choose_bucket-least n b s total h).1) bal,
            )
      woken (err x) e soon = absurd soon
      woken panic e soon = absurd soon
