-- ===== src/Scheduler/WakeUp/GivenUp.antt =====
-- What a job leaves whose attempts all fail (the closure of `create_wakeup_job` in
-- src/scheduler/scheduler.rs).
use head_end_system_tpp.Prelude.{
  ℕ, ◌≡◌, ◌≤◌, refl, arith, Bool, false, none, some, List, [], ◌==◌, if◌then◌else◌,
}
use head_end_system_tpp.Wire.{Bytes}
use head_end_system_tpp.Prelude.Map
use head_end_system_tpp.Database.{Device, ScheduledConnection, lost}
use head_end_system_tpp.Database as DbTypes
use head_end_system_tpp.Database.InMemory as Db
use head_end_system_tpp.Database.InMemory.{InnerDb}
use head_end_system_tpp.Messages.Rlp.{Rlp}
use head_end_system_tpp.Scheduler.WakeUp.{max_retries_exceeded, err, Peer}
use head_end_system_tpp.Scheduler.{Scheduler}
use head_end_system_tpp.Scheduler.WakeUp.Job as J
use head_end_system_tpp.Scheduler.WakeUp.Job.{
  Woken, Joined, finished, attempted, attempt_from, run_wake_up, ip_of,
}
use head_end_system_tpp.Scheduler.WakeUp.Retries.{Fails, run_wake_up-gives_up}

module _ (wire : Bytes) (rlp : Rlp) (peers : ℕ → Peer) (reschedules : Bool) where
  abbrev task : ℕ → InnerDb → Joined
  task id db = finished (run_wake_up wire rlp peers reschedules id db)

  stored_lost :
      (id : ℕ) (conn : ScheduledConnection) (db : InnerDb)
      → Db.get_scheduled_connection id db ≡ DbTypes.Result.ok conn
      → J.mark_lost id db
        ≡ (Db.update_scheduled_connection
            (record conn { status = lost; renewable = false; job_id = none })
            db).0
  unfolding J.mark_lost J.lost_connection
  stored_lost id conn db stored = rw (stored, J.mark_lost) refl

  given_up :
      (id : ℕ) (s : Scheduler) (device : Device) (ip : List ℕ) (conn : ScheduledConnection)
      → Db.get_device id s.database ≡ DbTypes.Result.ok device
      → ip_of device ≡ some ip
      → Db.get_scheduled_connection id s.database ≡ DbTypes.Result.ok conn
      → ((j : ℕ) → 1 ≤ j → j ≤ 5 → Fails wire rlp peers id s.database j)
      → J.after_task id (task id s.database)
        ≡ (Db.update_scheduled_connection
            (record conn { status = lost; renewable = false; job_id = none })
            s.database).0
  unfolding J.after_task
  given_up id s device ip conn known has_ip stored failed =
      rw
        (run_wake_up-gives_up wire rlp peers id s.database reschedules device ip known has_ip
          failed)
        (stored_lost id conn s.database stored)

  -- A job for a device with an IP, whose connection is stored under it and whose first five attempts
  -- fail: the task makes five attempts and four pauses, leaves the database as it was, hands nothing
  -- back and ends with the error for too many retries. The job then stores the connection as lost,
  -- not renewable and without a job, no task of the device stands among those that run, and all else
  -- in the scheduler and its database is as it was.
  pub wake_up_job-gives_up :
      (j id handle : ℕ) (s : Scheduler) (device : Device) (ip : List ℕ) (conn : ScheduledConnection)
      → Db.get_device id s.database ≡ DbTypes.Result.ok device
      → ip_of device ≡ some ip
      → Db.get_scheduled_connection id s.database ≡ DbTypes.Result.ok conn
      → conn.fk_device ≡ id
      → ((k : ℕ) → 1 ≤ k → k ≤ 5 → Fails wire rlp peers id s.database k)
      → (run_wake_up wire rlp peers reschedules id s.database ≡ record {
        database = s.database;
        rescheduled = [];
        attempts = 5;
        pauses = 4;
        result = err max_retries_exceeded;
      })
        × (Map.get j (J.wake_up_job (task id) id handle s).database.scheduled_connections ≡ (
            if id == j
            then some (record conn { status = lost; renewable = false; job_id = none })
            else Map.get j s.database.scheduled_connections))
        × (Map.get j (J.wake_up_job (task id) id handle s).active_tasks
            ≡ (if id == j then none else Map.get j s.active_tasks))
        × (record (J.wake_up_job (task id) id handle s) {
          database = record ((J.wake_up_job (task id) id handle s).database) {
            scheduled_connections = s.database.scheduled_connections;
          };
          active_tasks = s.active_tasks;
        }
            ≡ s)
  unfolding J.wake_up_job Db.update_scheduled_connection
  wake_up_job-gives_up j id handle s device ip conn known has_ip stored keyed failed =
      let last = record conn { status = lost; renewable = false; job_id = none } in
      let left = given_up id s device ip conn known has_ip stored failed in
      (
        run_wake_up-gives_up wire rlp peers id s.database reschedules device ip known has_ip failed,
        rw left (
            ground (
              arith,
              keyed,
              Map.get-insert j conn.fk_device last s.database.scheduled_connections,
            )),
        ground (
          arith,
          Map.get-remove j id (Map.insert id handle s.active_tasks),
          Map.get-insert j id handle s.active_tasks,
        ),
        rw left refl,
      )
