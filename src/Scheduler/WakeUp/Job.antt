-- ===== src/Scheduler/WakeUp/Job.antt =====
-- The job that wakes a device up (the closure of `schedule_next_wakeup_job` in
-- src/scheduler/scheduler.rs), and its retries (src/scheduler/task/wake_up_device.rs).
use head_end_system_tpp.Prelude.{
  ℕ, zero, suc, ◌+◌, ltb, Bool, false, Option, none, some, List, [], ◌∷◌, if◌then◌else◌,
}
use Prim.Native.String.{String}
use head_end_system_tpp.Wire.{Bytes}
use head_end_system_tpp.Prelude.Map
use head_end_system_tpp.Scheduler.{Scheduler}
use head_end_system_tpp.Database.{DatabaseError, Device, ScheduledConnection, lost}
use head_end_system_tpp.Database as DbTypes
use head_end_system_tpp.Database.InMemory as Db
use head_end_system_tpp.Database.InMemory.{InnerDb}
use head_end_system_tpp.Messages.Rlp.{Rlp}
use head_end_system_tpp.Scheduler.WakeUp.{
  TaskError, device_with_no_ip, max_retries_exceeded, database_error, Result, ok, err, panic, Peer,
  run_session, max_retries,
}

-- What a job leaves: the database, the devices whose next job is to be scheduled, how many attempts
-- and how many pauses of a minute it made, and its result.
pub record Woken : Type 0 where
  pub database : InnerDb
  pub rescheduled : List ℕ
  pub attempts : ℕ
  pub pauses : ℕ
  pub result : Result (Unit {0})

-- `(Some(ip), None)` and `(None, Some(ip))`; a device with both addresses or with none has no IP.
unfoldable pub ip_of : Device → Option (List ℕ)
ip_of d = elim d.ipv4 [
  | some ip ↦ elim d.ipv6 [ none ↦ some ip | some other ↦ none ]
  | none ↦ d.ipv6
]

module _ (wire : Bytes) (rlp : Rlp) (peers : ℕ → Peer) where
  -- A failed attempt, with the pause behind it unless it was the last, in front of the others.
  unfoldable pub failed_attempt : ℕ → Woken → Woken
  failed_attempt attempt rest = record rest {
    attempts = rest.attempts + 1;
    pauses = if ltb attempt max_retries then rest.pauses + 1 else rest.pauses;
  }

  unfoldable pub attempted :
      (InnerDb → Woken) → Bool → ℕ → ℕ → InnerDb × List (List ℕ) × Result (Unit {0}) → Woken
  unfolding failed_attempt
  attempted rest reschedules id attempt (db, sent, ok done) = record {
    database = db;
    rescheduled = if reschedules then id ∷ [] else [];
    attempts = 1;
    pauses = 0;
    result = ok tt;
  }
  attempted rest reschedules id attempt (db, sent, err e) = failed_attempt attempt (rest db)
  attempted rest reschedules id attempt (db, sent, panic) = record {
    database = db;
    rescheduled = [];
    attempts = 1;
    pauses = 0;
    result = panic;
  }

  -- The attempts from the one with a number on, with `left` of them to come.
  unfoldable pub attempt_from : Bool → ℕ → ℕ → ℕ → InnerDb → Woken
  unfolding run_session attempted
  attempt_from reschedules id zero attempt db = record {
    database = db;
    rescheduled = [];
    attempts = 0;
    pauses = 0;
    result = err max_retries_exceeded;
  }
  attempt_from reschedules id (suc left) attempt db =
      let rest = attempt_from reschedules id left (suc attempt) in
      attempted rest reschedules id attempt (run_session wire rlp (peers attempt) id db)

  unfoldable pub not_attempted : TaskError → InnerDb → Woken
  not_attempted e db = record {
    database = db;
    rescheduled = [];
    attempts = 0;
    pauses = 0;
    result = err e;
  }

  -- `reschedules` says whether the job was given a channel to the scheduler, which takes the device.
  unfoldable pub run_wake_up : Bool → ℕ → InnerDb → Woken
  unfolding ip_of attempt_from not_attempted
  run_wake_up reschedules id db = elim (Db.get_device id db) [
    | DbTypes.Result.err e ↦ not_attempted (database_error e) db
    | DbTypes.Result.ok device ↦ elim (ip_of device) [
      | some ip ↦ attempt_from reschedules id max_retries 1 db
      | none ↦ not_attempted device_with_no_ip db
    ]
  ]

-- What a connection becomes when its job has ended with an error.
unfoldable pub lost_connection : ScheduledConnection → ScheduledConnection
lost_connection conn = record conn { status = lost; renewable = false; job_id = none }

unfoldable pub mark_lost : ℕ → InnerDb → InnerDb
unfolding lost_connection
mark_lost id db = elim (Db.get_scheduled_connection id db) [
  | DbTypes.Result.err e ↦ db
  | DbTypes.Result.ok conn ↦ (Db.update_scheduled_connection (lost_connection conn) db).0
]

-- How the task that a job spawns ends: by itself, or aborted with the database as it then is.
pub data Joined : Type 0 where
  finished : Woken → Joined
  aborted : InnerDb → Joined

-- What the job does when its task has ended. A panic of the task and an abort are only logged, and so
-- are the errors of the database.
unfoldable pub after_task : ℕ → Joined → InnerDb
unfolding mark_lost
after_task id (aborted db) = db
after_task id (finished woken) = elim woken.result [
  | ok done ↦ woken.database
  | err e ↦ mark_lost id woken.database
  | panic ↦ woken.database
]

-- The job of a device: the task stands under its handle in `active_tasks` while it runs.
unfoldable pub wake_up_job : (InnerDb → Joined) → ℕ → ℕ → Scheduler → Scheduler
unfolding after_task
wake_up_job task id handle s =
    let started = record s { active_tasks = Map.insert id handle s.active_tasks } in
    let joined = task started.database in
    record started {
      database = after_task id joined;
      active_tasks = Map.remove id started.active_tasks;
    }

-- The label of a result in `hes_device_connection_outcome_total`.
unfoldable pub outcome : Result (Unit {0}) → String
outcome (ok done) = "success"
outcome (err device_with_no_ip) = "no_ip"
outcome (err max_retries_exceeded) = "max_retries"
outcome (err e) = "error"
outcome panic = ""
