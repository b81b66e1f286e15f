-- ===== src/Scheduler/Tests.antt =====
-- The scheduler (src/scheduler/scheduler.rs) with four buckets at a concrete time.
use head_end_system_tpp.Prelude.{
  ℕ, ◌+◌, ◌*◌, ◌≡◌, refl, arith, none, some, Option, true, false, [], ◌∷◌,
}
use head_end_system_tpp.Prelude.Map
use head_end_system_tpp.Database.{Device, ScheduledConnection, awaiting, pos, ℤ}
use head_end_system_tpp.Database as DbTypes
use head_end_system_tpp.Database.InMemory as Db
use head_end_system_tpp.Database.InMemory.{InnerDb}
use head_end_system_tpp.Database.InMemory.Balance.{IsBalanced}
use head_end_system_tpp.Database.InMemory.Connections.{fresh}
use head_end_system_tpp.Scheduler.{Scheduler, ok, second, next_wakeup}
use head_end_system_tpp.Scheduler.Sample.{days, days-IsChrono}
use head_end_system_tpp.Scheduler.Times.{IsSoon, next_wakeup-IsSoon}
use head_end_system_tpp.Scheduler.Devices.{
  register_device, schedule_next_wakeup_job, cancel_wakeup_job, owns_device,
}
use head_end_system_tpp.Scheduler.Reload.{reload_active_connections}
use head_end_system_tpp.Scheduler.Reload.TakenUp.{
  takes, taken_up, IsOk, reload_active_connections_lem,
}
use head_end_system_tpp.Scheduler.Register.{register_device_lem}
use head_end_system_tpp.Scheduler.Jobs.{IsScheduled}
use head_end_system_tpp.Scheduler.Jobs.{schedule_next_wakeup_job-IsScheduled, cancel_wakeup_job_lem}

-- 23:59:59 on the third day.
abbrev now : ℕ
now = (2 * 86400 + 86399) * 1000000000

abbrev planned : ScheduledConnection
planned = fresh 1 500 40

abbrev tables : InnerDb
tables = record {
  devices = [];
  device_registration = [];
  buckets = (1, (pos 0, 100)) ∷ [];
  scheduled_connections = (1, planned) ∷ [];
}

abbrev four : Scheduler
four = record {
  bucket_number = 4;
  database = tables;
  owned_devices = some (1 ∷ 2 ∷ []);
  local_node_id = 100;
  test_mode = false;
  active_tasks = (1, 7) ∷ [];
  jobs = (40, (1, 500)) ∷ [];
}

abbrev meter : Device
meter = record { id = 3; ipv4 = none; ipv6 = none; imei = none }

abbrev adds : ℕ → ℕ → Option ℕ
adds id t = some 41

-- The first bucket is a second away, right before midnight.
midnight : next_wakeup days now 0 four ≡ ok (now + second)
unfolding next_wakeup
midnight = refl

next_wakeup-IsSoon_example : IsSoon now (next_wakeup days now 2 four)
next_wakeup-IsSoon_example = next_wakeup-IsSoon days days-IsChrono now 3 2 four refl (omega arith)

balanced : IsBalanced 4 tables
balanced b c hb hc = ground arith

register_device_lem_example :
    IsSoon now (register_device days now meter four).1
    × IsBalanced 4 (register_device days now meter four).0.database
register_device_lem_example =
    register_device_lem days days-IsChrono now 3 meter four refl (unfold Map.get in refl) balanced

schedule_next_wakeup_job-IsScheduled_example :
    IsScheduled now 1 adds (schedule_next_wakeup_job adds days now 1 four)
unfolding Db.get_bucket_number Db.ok_or_missing Map.get
schedule_next_wakeup_job-IsScheduled_example =
    schedule_next_wakeup_job-IsScheduled days days-IsChrono now adds 3 0 1 four refl (omega arith)
      refl (λ t. (41, refl))

cancel_wakeup_job_lem_example :
    ((cancel_wakeup_job (λ j. true) 1 four).1 ≡ ok true)
    × (Db.get_scheduled_connection 1 (cancel_wakeup_job (λ j. true) 1 four).0.database
        ≡ DbTypes.Result.ok (record planned { job_id = none; renewable = false }))
    × (Map.get 40 (cancel_wakeup_job (λ j. true) 1 four).0.jobs ≡ none)
    × ((cancel_wakeup_job (λ j. true) 1 (cancel_wakeup_job (λ j. true) 1 four).0).1 ≡ ok false)
unfolding Db.get_scheduled_connection Db.ok_or_missing Map.get
cancel_wakeup_job_lem_example =
    cancel_wakeup_job_lem (λ j. true) 1 40 planned four refl refl refl refl

reload_active_connections_lem_example :
    (Map.get 1
        (reload_active_connections
          (takes (λ id t. 50) (λ d. now))
          (λ d. now)
          four).0.database.scheduled_connections
      ≡ some (taken_up (λ id t. 50) (λ d. now) (λ d. owns_device d four) planned))
    × IsOk (reload_active_connections (takes (λ id t. 50) (λ d. now)) (λ d. now) four).1
unfolding Map.get
reload_active_connections_lem_example =
    reload_active_connections_lem (λ id t. 50) (λ d. now) 1 four (refl, tt)
      (unfold Map.get in (refl, tt))
