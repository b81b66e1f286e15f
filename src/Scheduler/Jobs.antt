-- ===== src/Scheduler/Jobs.antt =====
-- The sessions that the scheduler plans, cancels and aborts, and the devices it owns
-- (src/scheduler/scheduler.rs).
use head_end_system_tpp.Prelude.{
  ℕ, suc, ◌<◌, ◌≡◌, refl, arith, none, some, Option, Option-cases, Bool, true, false, not, inl, inr,
  List, [], ◌∷◌, filter, ◌==◌, ==_iff, ==_refl, if◌then◌else◌,
}
use head_end_system_tpp.Prelude.Map
use head_end_system_tpp.Database.{ScheduledConnection, pos, ℤ}
use head_end_system_tpp.Database as DbTypes
use head_end_system_tpp.Database.InMemory as Db
use head_end_system_tpp.Database.InMemory.{InnerDb}
use head_end_system_tpp.Database.InMemory.Connections.{fresh, schedule_connection_lem}
use head_end_system_tpp.Scheduler.{Chrono, IsChrono, Scheduler, Result, ok, err, panic, next_wakeup}
use head_end_system_tpp.Scheduler.Times.{IsSoon, next_wakeup-IsSoon}
use head_end_system_tpp.Scheduler.Devices as D
use head_end_system_tpp.Scheduler.Devices.{
  schedule_next_wakeup_job, cancel_wakeup_job, abort_active_wakeup, owns_device, add_owned_device,
  remove_owned_device,
}

abbrev pub runs : Option ℕ → Bool
runs none = false
runs (some handle) = true

-- `abort_active_wakeup` answers whether a task of the device runs, and none does afterwards. The tasks
-- of other devices still run.
pub abort_active_wakeup_lem :
    (j id : ℕ) (s : Scheduler)
    → ((abort_active_wakeup id s).1 ≡ runs (Map.get id s.active_tasks))
      × (Map.get j (abort_active_wakeup id s).0.active_tasks
          ≡ (if id == j then none else Map.get j s.active_tasks))
unfolding abort_active_wakeup
abort_active_wakeup_lem j id s = elim (Option-cases (Map.get id s.active_tasks)) [
  | inl idle ↦ rw (idle, abort_active_wakeup) (refl, ground (arith, idle, ==_iff id j))
  | inr (handle, running) ↦
      rw (running, abort_active_wakeup) (refl, Map.get-remove j id s.active_tasks)
]

pub contains-put :
    (j id : ℕ) (owned : List ℕ)
    → D.contains j (D.put id owned) ≡ (if id == j then true else D.contains j owned)
unfolding D.put D.contains
contains-put j id owned = ground (arith, ==_iff id j)

pub contains-filter :
    (j id : ℕ) (owned : List ℕ)
    → D.contains j (filter (λ d. not (d == id)) owned)
      ≡ (if id == j then false else D.contains j owned)
unfolding D.contains
contains-filter j id [] = ground arith
contains-filter j id (x ∷ xs) =
    ground (arith, ==_iff x id, ==_iff x j, ==_iff id j, contains-filter j id xs)

-- In cluster mode a node owns a device after `add_owned_device` if it is that one or was owned before.
-- Outside of cluster mode it owns every device, then too.
pub owns_device-add_owned_device :
    (j id : ℕ) (s : Scheduler)
    → owns_device j (add_owned_device id s) ≡ (if id == j then true else owns_device j s)
unfolding owns_device add_owned_device
owns_device-add_owned_device j id s = elim (Option-cases s.owned_devices) [
  | inl all ↦ rw (all, add_owned_device, owns_device) (ground arith)
  | inr (owned, some_of_them) ↦
      rw (some_of_them, add_owned_device, owns_device) (contains-put j id owned)
]

-- In cluster mode a node owns a device after `remove_owned_device` if it is another one and was owned
-- before.
pub owns_device-remove_owned_device :
    (j id : ℕ) (owned : List ℕ) (s : Scheduler)
    → s.owned_devices ≡ some owned
    → owns_device j (remove_owned_device id s) ≡ (if id == j then false else owns_device j s)
unfolding owns_device remove_owned_device
owns_device-remove_owned_device j id owned s h =
    rw (h, remove_owned_device, owns_device) (contains-filter j id owned)

-- The device has one awaiting connection, at a time that is soon, with the job that was added for it.
abbrev pub IsScheduled : ℕ → ℕ → (ℕ → ℕ → Option ℕ) → Scheduler × Result (Unit {0}) → Type 0
IsScheduled now id adds (s, err e) = ⊥
IsScheduled now id adds (s, panic) = ⊥
IsScheduled now id adds (s, ok done) =
    (t : ℕ) × (job : ℕ) × IsSoon now (ok t)
    × (adds id t ≡ some job)
    × (Db.get_scheduled_connection id s.database ≡ DbTypes.Result.ok (fresh id t job))

module _ (c : Chrono) (laws : IsChrono c) (now : ℕ) (adds : ℕ → ℕ → Option ℕ) where
  -- `schedule_next_wakeup_job` succeeds for a device in a bucket in range if the job scheduler takes
  -- every job of that device. Then the device has one awaiting connection, later than now and at
  -- most 26 hours away, with the job that was added for that time.
  pub schedule_next_wakeup_job-IsScheduled :
      (n bucket id : ℕ) (s : Scheduler)
      → s.bucket_number ≡ suc n
      → bucket < suc n
      → Db.get_bucket_number id s.database ≡ DbTypes.Result.ok (pos bucket)
      → ((t : ℕ) → (job : ℕ) × (adds id t ≡ some job))
      → IsScheduled now id adds (schedule_next_wakeup_job adds c now id s)
  unfolding schedule_next_wakeup_job D.to_usize
  schedule_next_wakeup_job-IsScheduled n bucket id s total h found takes =
      rw (found, schedule_next_wakeup_job)
        (woken (next_wakeup c now bucket s) (next_wakeup-IsSoon c laws now n bucket s total h))
    where
      woken : (r : Result ℕ) → IsSoon now r → IsScheduled now id adds (D.scheduled adds id s r)
      woken (ok t) soon =
          let (job, taken) = takes t in
          rw (taken, D.schedule_at)
            (
              t,
              job,
              soon,
              taken,
              ground (arith, schedule_connection_lem id t job id s.database, ==_refl id),
            )
      woken (err x) soon = absurd soon
      woken panic soon = absurd soon

-- The scheduler after a session is cancelled.
abbrev without : ℕ → ScheduledConnection → Scheduler → Scheduler
without job conn s = record s {
  database = (Db.update_scheduled_connection (D.cancelled conn) s.database).0;
  jobs = Map.remove job s.jobs;
}

cancels :
    (removes : ℕ → Bool) (id job : ℕ) (conn : ScheduledConnection) (s : Scheduler)
    → Db.get_scheduled_connection id s.database ≡ DbTypes.Result.ok conn
    → conn.job_id ≡ some job
    → removes job ≡ true
    → cancel_wakeup_job removes id s ≡ (without job conn s, ok true)
unfolding cancel_wakeup_job
cancels removes id job conn s found planned takes =
    rw (found, cancel_wakeup_job) (rw (planned, cancel_wakeup_job) (rw takes refl))

get-update :
    (id : ℕ) (conn : ScheduledConnection) (db : InnerDb)
    → conn.fk_device ≡ id
    → Db.get_scheduled_connection id (Db.update_scheduled_connection (D.cancelled conn) db).0
      ≡ DbTypes.Result.ok (D.cancelled conn)
unfolding Db.get_scheduled_connection Db.update_scheduled_connection Db.ok_or_missing D.cancelled
get-update id conn db keyed = ground (
  arith,
  keyed,
  ==_refl id,
  Map.get-insert id conn.fk_device (D.cancelled conn) db.scheduled_connections,
)

finds_none :
    (removes : ℕ → Bool) (id : ℕ) (conn : ScheduledConnection) (s : Scheduler)
    → Db.get_scheduled_connection id s.database ≡ DbTypes.Result.ok (D.cancelled conn)
    → (cancel_wakeup_job removes id s).1 ≡ ok false
unfolding cancel_wakeup_job D.cancelled
finds_none removes id conn s found = rw (found, cancel_wakeup_job) refl

-- Cancelling the session of a device that has a job, which the job scheduler removes, answers true.
-- The job is gone, the connection stays without a job and is not renewed, and a second call finds
-- nothing to cancel.
pub cancel_wakeup_job_lem :
    (removes : ℕ → Bool) (id job : ℕ) (conn : ScheduledConnection) (s : Scheduler)
    → Db.get_scheduled_connection id s.database ≡ DbTypes.Result.ok conn
    → conn.fk_device ≡ id
    → conn.job_id ≡ some job
    → removes job ≡ true
    → ((cancel_wakeup_job removes id s).1 ≡ ok true)
      × (Db.get_scheduled_connection id (cancel_wakeup_job removes id s).0.database
          ≡ DbTypes.Result.ok (record conn { job_id = none; renewable = false }))
      × (Map.get job (cancel_wakeup_job removes id s).0.jobs ≡ none)
      × ((cancel_wakeup_job removes id (cancel_wakeup_job removes id s).0).1 ≡ ok false)
unfolding D.cancelled
cancel_wakeup_job_lem removes id job conn s found keyed planned takes =
    let first = cancels removes id job conn s found planned takes in
    let after = get-update id conn s.database keyed in
    rw first (
      refl,
      after,
      ground (arith, Map.get-remove job job s.jobs, ==_refl job),
      finds_none removes id conn (without job conn s) after,
    )
