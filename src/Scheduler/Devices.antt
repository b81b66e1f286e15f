-- ===== src/Scheduler/Devices.antt =====
-- What the scheduler does for its devices (src/scheduler/scheduler.rs): registering, scheduling and
-- cancelling sessions, and the set of devices that the node owns.
use head_end_system_tpp.Prelude.{
  ℕ, suc, ◌-◌, ◌^◌, Bool, true, false, Option, none, some, List, [], ◌∷◌, ◌==◌, if◌then◌else◌,
  filter, not,
}
use head_end_system_tpp.Prelude.Map
use head_end_system_tpp.Database.{Device, ScheduledConnection, ℤ, pos, negsuc}
use head_end_system_tpp.Database as DbTypes
use head_end_system_tpp.Database.InMemory as Db
use head_end_system_tpp.Scheduler.{
  Chrono, Scheduler, database_error, job_scheduler_error, Result, ok, err, panic, next_wakeup,
}

-- `as usize` on an `i32`.
unfoldable pub to_usize : ℤ → ℕ
to_usize (pos n) = n
to_usize (negsuc n) = 2 ^ 64 - suc n

unfoldable pub contains : ℕ → List ℕ → Bool
contains id [] = false
contains id (x ∷ xs) = if x == id then true else contains id xs

unfoldable pub owns_device : ℕ → Scheduler → Bool
unfolding contains
owns_device id s = elim s.owned_devices [ none ↦ true | some owned ↦ contains id owned ]

-- `enable_cluster_mode`, which is `set_owned_devices` with a line for the log.
unfoldable pub enable_cluster_mode : List ℕ → Scheduler → Scheduler
enable_cluster_mode owned s = record s { owned_devices = some owned }

-- A `HashSet` holds an item once.
unfoldable pub put : ℕ → List ℕ → List ℕ
unfolding contains
put id owned = if contains id owned then owned else id ∷ owned

unfoldable pub add_owned_device : ℕ → Scheduler → Scheduler
unfolding put
add_owned_device id s = elim s.owned_devices [
  | none ↦ s
  | some owned ↦ record s { owned_devices = some (put id owned) }
]

unfoldable pub remove_owned_device : ℕ → Scheduler → Scheduler
remove_owned_device id s = elim s.owned_devices [
  | none ↦ s
  | some owned ↦ record s { owned_devices = some (filter (λ d. not (d == id)) owned) }
]

unfoldable pub abort_active_wakeup : ℕ → Scheduler → Scheduler × Bool
abort_active_wakeup id s = elim (Map.get id s.active_tasks) [
  | some handle ↦ (record s { active_tasks = Map.remove id s.active_tasks }, true)
  | none ↦ (s, false)
]

-- `get_bucket_number` of the scheduler.
unfoldable pub choose_bucket : Scheduler → ℕ
choose_bucket s = elim (Db.get_bucket_with_less_devices s.bucket_number s.database) [
  | DbTypes.Result.ok bucket ↦ bucket
  | DbTypes.Result.err e ↦ 0
]

module _ (c : Chrono) (now : ℕ) where
  unfoldable pub register_device : Device → Scheduler → Scheduler × Result ℕ
  unfolding choose_bucket
  register_device device s =
      let bucket = choose_bucket s in
      elim (next_wakeup c now bucket s) [
        | err e ↦ (s, err e)
        | panic ↦ (s, panic)
        | ok next_wake_up ↦ (
          record s {
            database =
                (Db.add_device_to_bucket device.id (pos bucket) s.local_node_id s.database).0;
          },
          ok next_wake_up,
        )
      ]

-- `adds` is what the `JobScheduler` answers to a job for a device at a time: its id, or `none` for
-- an error. `removes` says whether it removes a job.
module _ (adds : ℕ → ℕ → Option ℕ) where
  unfoldable pub schedule_at : ℕ → ℕ → Scheduler → Scheduler × Result (Unit {0})
  schedule_at id time s = elim (adds id time) [
    | none ↦ (s, err job_scheduler_error)
    | some job ↦ (
      record s {
        database = (Db.schedule_connection id time job s.database).0;
        jobs = Map.insert job (id, time) s.jobs;
      },
      ok tt,
    )
  ]

  unfoldable pub scheduled : ℕ → Scheduler → Result ℕ → Scheduler × Result (Unit {0})
  unfolding schedule_at
  scheduled id s (err e) = (s, err e)
  scheduled id s panic = (s, panic)
  scheduled id s (ok next_wake_up) = schedule_at id next_wake_up s

  unfoldable pub schedule_next_wakeup_job :
      Chrono → ℕ → ℕ → Scheduler → Scheduler × Result (Unit {0})
  unfolding to_usize scheduled
  schedule_next_wakeup_job c now id s = elim (Db.get_bucket_number id s.database) [
    | DbTypes.Result.err e ↦ (s, err (database_error e))
    | DbTypes.Result.ok bucket ↦ scheduled id s (next_wakeup c now (to_usize bucket) s)
  ]

  unfoldable pub schedule_delegated_device : ℕ → ℕ → Scheduler → Scheduler × Result (Unit {0})
  unfolding schedule_at add_owned_device
  schedule_delegated_device id time s =
      let (s', result) = schedule_at id time s in
      elim result [
        | ok done ↦ (add_owned_device id s', ok tt)
        | err e ↦ (s', err e)
        | panic ↦ (s', panic)
      ]

unfoldable pub cancelled : ScheduledConnection → ScheduledConnection
cancelled conn = record conn { job_id = none; renewable = false }

unfoldable pub cancel_wakeup_job : (ℕ → Bool) → ℕ → Scheduler → Scheduler × Result Bool
unfolding cancelled
cancel_wakeup_job removes id s = elim (Db.get_scheduled_connection id s.database) [
  | DbTypes.Result.err e ↦ (s, err (database_error e))
  | DbTypes.Result.ok conn ↦ elim conn.job_id [
    | none ↦ (s, ok false)
    | some job ↦
        if removes job
        then (
          record s {
            database = (Db.update_scheduled_connection (cancelled conn) s.database).0;
            jobs = Map.remove job s.jobs;
          },
          ok true,
        )
        else (s, err job_scheduler_error)
  ]
]
