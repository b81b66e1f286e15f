-- ===== src/Scheduler.antt =====
-- The scheduler of the sessions with the devices (src/scheduler/scheduler.rs and schedule.rs), over
-- the in-memory database.
pub mod Devices
pub mod Times
pub mod Register
pub mod Jobs
pub mod Reload
pub mod WakeUp
pub mod Sample
mod Tests
use head_end_system_tpp.Prelude.{
  ℕ, zero, suc, ◌+◌, ◌*◌, ◌/◌, ◌%◌, ◌^◌, ◌<◌, ◌≡◌, Bool, Option, none, some, List, ltb,
  if◌then◌else◌,
}
use head_end_system_tpp.Prelude.Map
use head_end_system_tpp.Prelude.Map.{Map}
use head_end_system_tpp.Database.{DatabaseError}
use head_end_system_tpp.Database.InMemory as Db
use head_end_system_tpp.Database.InMemory.{InnerDb}

pub data SchedulerError : Type 0 where
  database_error : DatabaseError → SchedulerError
  job_scheduler_error parse_error : SchedulerError

-- A call returns a value or an error, or panics.
pub data Result (A : Type 0) : Type 0 where
  ok : A → Result A
  err : SchedulerError → Result A
  panic : Result A

-- The parts of the `chrono` crate that the scheduler calls. A time is the number of its nanoseconds
-- since the epoch, a date the number of its day, a time of day the number of its second.
pub record Chrono : Type 0 where
  pub hour : ℕ → ℕ
  pub day : ℕ → ℕ
  pub month : ℕ → ℕ
  pub year : ℕ → ℕ
  pub from_ymd_opt : ℕ → ℕ → ℕ → Option ℕ
  pub from_hms_opt : ℕ → ℕ → ℕ → Option ℕ
  pub date_time : ℕ → ℕ → ℕ

abbrev pub second : ℕ
second = 1000000000

abbrev pub seconds_per_day : ℕ
seconds_per_day = 86400

-- What the documentation of `chrono` says of them.
pub record IsChrono (c : Chrono) : Type 0 where
  pub hour_of : (t : ℕ) → c.hour t ≡ t / (3600 * second) % 24
  pub date_of :
      (t : ℕ)
      → c.from_ymd_opt (c.year t) (c.month t) (c.day t) ≡ some (t / (seconds_per_day * second))
  pub time_of :
      (h m s : ℕ) → h < 24 → m < 60 → s < 60 → c.from_hms_opt h m s ≡ some (h * 3600 + m * 60 + s)
  pub date_time_of : (d t : ℕ) → c.date_time d t ≡ (d * seconds_per_day + t) * second

pub record Schedule : Type 0 where
  pub sec : ℕ
  pub min : ℕ
  pub hour : ℕ
  pub day : ℕ
  pub mon : ℕ
  pub year : ℕ

-- `owned_devices` is `none` outside of cluster mode. A task that runs is in `active_tasks` under its
-- device, by the number of its handle. `jobs` are the jobs of the `JobScheduler`.
pub record Scheduler : Type 0 where
  pub bucket_number : ℕ
  pub database : InnerDb
  pub owned_devices : Option (List ℕ)
  pub local_node_id : ℕ
  pub test_mode : Bool
  pub active_tasks : Map ℕ
  pub jobs : Map (ℕ × ℕ)

abbrev pub test_mode_wakeup_secs : ℕ
test_mode_wakeup_secs = 150

-- The time of day of a bucket, as seconds, minutes and hours. Zero buckets are a
-- division by zero, and the product wraps around as in a release build.
unfoldable pub get_time_from_bucket_number : ℕ → ℕ → Option (ℕ × ℕ × ℕ)
get_time_from_bucket_number zero bucket = none
get_time_from_bucket_number (suc n) bucket =
    let slot = seconds_per_day / suc n * bucket % 2 ^ 64 in
    some (slot % 3600 % 60, slot % 3600 / 60, slot / 3600)

module _ (c : Chrono) (now : ℕ) where
  -- Today for an hour that is at least two later than the present one, tomorrow for the others.
  unfoldable pub get_date_from_hour : ℕ → ℕ × ℕ × ℕ
  get_date_from_hour hour =
      let tomorrow = now + seconds_per_day * second in
      if ltb (c.hour now + 1) hour
      then (c.day now, c.month now, c.year now)
      else (c.day tomorrow, c.month tomorrow, c.year tomorrow)

  unfoldable pub get_next_schedule : ℕ → ℕ → Option Schedule
  unfolding get_time_from_bucket_number get_date_from_hour
  get_next_schedule total bucket = elim (get_time_from_bucket_number total bucket) [
    | none ↦ none
    | some (sec, min, hour) ↦
        let (day, mon, year) = get_date_from_hour hour in
        some (record { sec = sec; min = min; hour = hour; day = day; mon = mon; year = year })
  ]

  -- `NaiveDateTime::try_from`.
  unfoldable pub try_from : Schedule → Option ℕ
  try_from s = elim (c.from_ymd_opt s.year s.mon s.day) [
    | none ↦ none
    | some date ↦ elim (c.from_hms_opt s.hour s.min s.sec) [
      | none ↦ none
      | some time ↦ some (c.date_time date time)
    ]
  ]

  unfoldable pub of_schedule : Option Schedule → Result ℕ
  unfolding try_from
  of_schedule none = panic
  of_schedule (some s) = elim (try_from s) [ some t ↦ ok t | none ↦ err parse_error ]

  unfoldable pub next_wakeup : ℕ → Scheduler → Result ℕ
  unfolding of_schedule get_next_schedule
  next_wakeup bucket s =
      if s.test_mode
      then ok (now + test_mode_wakeup_secs * second)
      else of_schedule (get_next_schedule s.bucket_number bucket)
