-- ===== src/Scheduler/Sample.antt =====
-- A calendar for the tests of the scheduler (src/scheduler/scheduler.rs).
use head_end_system_tpp.Prelude.{◌+◌, ◌*◌, ◌/◌, ◌%◌, refl, some}
use head_end_system_tpp.Scheduler.{Chrono, IsChrono}

-- A calendar of one long month.
abbrev pub days : Chrono
days = record {
  hour = λ t. t / (3600 * 1000000000) % 24;
  day = λ t. t / (86400 * 1000000000);
  month = λ t. 1;
  year = λ t. 1970;
  from_ymd_opt = λ y m d. some d;
  from_hms_opt = λ h m s. some (h * 3600 + m * 60 + s);
  date_time = λ d t. (d * 86400 + t) * 1000000000;
}

pub days-IsChrono : IsChrono days
days-IsChrono = record {
  hour_of = λ t. refl;
  date_of = λ t. refl;
  time_of = λ h m s a b c. refl;
  date_time_of = λ d t. refl;
}
