-- ===== src/Scheduler/Reload.antt =====
-- The scheduler takes up the stored connections after a restart (`reload_active_connections` of
-- src/scheduler/scheduler.rs).
pub mod Tables
pub mod TakenUp
use head_end_system_tpp.Prelude.{
  ℕ, suc, ◌+◌, ◌*◌, none, some, Option, Bool, true, false, List, [], ◌∷◌, ltb,
}
use head_end_system_tpp.Prelude.Map
use head_end_system_tpp.Prelude.Map.{Map}
use head_end_system_tpp.Database.{ScheduledConnection, lost}
use head_end_system_tpp.Database.InMemory as Db
use head_end_system_tpp.Scheduler.{Scheduler, Result, ok, err, job_scheduler_error, second}
use head_end_system_tpp.Scheduler.Devices.{owns_device}
use mathlib.Core.Option

-- A connection that is overdue.
unfoldable pub expired : ScheduledConnection → ScheduledConnection
expired conn = record conn { status = lost; renewable = false; job_id = none }

unfoldable pub with_job : ℕ → ScheduledConnection → ScheduledConnection
with_job job conn = record conn { job_id = some job }

unfoldable pub store : ScheduledConnection → Scheduler → Scheduler
store conn s = record s { database = (Db.update_scheduled_connection conn s.database).0 }

-- `adds` is what the `JobScheduler` answers to a job for a device at a time, and `now` the clock while
-- a device's connection is taken up.
module _ (adds : ℕ → ℕ → Option ℕ) (now : ℕ → ℕ) where
  unfoldable pub is_overdue : ScheduledConnection → Bool
  is_overdue conn = ltb conn.schedule_time (now conn.fk_device + 300 * second)

  -- The loop, with the number of the overdue connections so far. The result is the value of the gauge
  -- `hes_scheduler_overdue_devices_total`, which an error leaves as it is.
  unfoldable pub reload_from : List ScheduledConnection → ℕ → Scheduler → Scheduler × Result ℕ
  unfolding is_overdue expired with_job store
  reload_from [] overdue s = (s, ok overdue)
  reload_from (conn ∷ rest) overdue s = elim (owns_device conn.fk_device s) [
    | false ↦ reload_from rest overdue s
    | true ↦ elim (is_overdue conn) [
      | true ↦ reload_from rest (suc overdue) (store (expired conn) s)
      | false ↦ elim (adds conn.fk_device conn.schedule_time) [
        | none ↦ (s, err job_scheduler_error)
        | some job ↦ reload_from rest overdue (
            store (with_job job conn)
              (record s { jobs = Map.insert job (conn.fk_device, conn.schedule_time) s.jobs }))
      ]
    ]
  ]

  unfoldable pub reload_active_connections : Scheduler → Scheduler × Result ℕ
  unfolding reload_from
  reload_active_connections s = reload_from (Map.values s.database.scheduled_connections) 0 s
