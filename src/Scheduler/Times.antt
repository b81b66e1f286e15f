-- ===== src/Scheduler/Times.antt =====
-- When the buckets wake their devices: the times of day of the buckets, and how far the next one
-- is away (src/scheduler/scheduler.rs).
use head_end_system_tpp.Prelude.{
  ℕ, zero, suc, ◌+◌, ◌*◌, ◌/◌, ◌≤◌, ◌<◌, ◌≡◌, ap, arith, Option, none, some, ltb, Bool-cases, inl,
  inr,
}
use native.Mathlib.Nat.{
  mul-le-mul_left, mul-suc, div-mul-le_self, mul-lt-mul_of_pos_left, le-div_iff_mul-le,
}
use head_end_system_tpp.Scheduler.{
  Chrono, IsChrono, second, seconds_per_day, Scheduler, Result, ok, err, panic,
  get_time_from_bucket_number, next_wakeup, try_from, of_schedule, get_next_schedule,
  get_date_from_hour,
}

-- The second of the day at which a bucket wakes.
abbrev pub slot : ℕ → ℕ → ℕ
slot n bucket = seconds_per_day / suc n * bucket

below : (d b n : ℕ) → b < suc n → d * suc n ≤ seconds_per_day → d * b < seconds_per_day
below zero b n h k = omega (arith, h)
below (suc d) b n h k =
    omega (arith, mul-le-mul_left {m = suc b} {n = suc n} (suc d) h, k, mul-suc (suc d) b)

-- A bucket in range starts within the day.
slot-lt : (n bucket : ℕ) → bucket < suc n → slot n bucket < seconds_per_day
slot-lt n bucket h =
    below (seconds_per_day / suc n) bucket n h (div-mul-le_self seconds_per_day (suc n))

-- The seconds, minutes and hours are those of a time of day.
abbrev pub IsTimeOfDay : ℕ → Option (ℕ × ℕ × ℕ) → Type 0
IsTimeOfDay t none = ⊥
IsTimeOfDay t (some (sec, min, hour)) =
    (sec < 60) × (min < 60) × (hour < 24) × (hour * 3600 + min * 60 + sec ≡ t)

-- A bucket of a positive number of buckets wakes at a time of day, its number times the whole
-- seconds of a bucket after midnight.
pub get_time_from_bucket_number_lem :
    (n bucket : ℕ)
    → bucket < suc n
    → IsTimeOfDay (slot n bucket) (get_time_from_bucket_number (suc n) bucket)
unfolding get_time_from_bucket_number
get_time_from_bucket_number_lem n bucket h =
    let t = slot n bucket in
    (omega arith, omega arith, omega (arith, slot-lt n bucket h), omega (arith, slot-lt n bucket h))

slot-lt-slot : (n b c : ℕ) → suc n ≤ seconds_per_day → b < c → slot n b < slot n c
slot-lt-slot n b c few h = mul-lt-mul_of_pos_left h (
    (le-div_iff_mul-le {k = suc n} {x = 1} {y = seconds_per_day} (omega arith)).1
      (omega (arith, few)))

-- The first time of day is before the second.
abbrev pub IsBefore : Option (ℕ × ℕ × ℕ) → Option (ℕ × ℕ × ℕ) → Type 0
IsBefore (some (s, m, h)) (some (s', m', h')) = h * 3600 + m * 60 + s < h' * 3600 + m' * 60 + s'
IsBefore t u = ⊥

-- Of two buckets in range the one with the lower number wakes earlier in the day, when there are no
-- more buckets than the day has seconds.
pub get_time_from_bucket_number-IsBefore :
    (n b c : ℕ)
    → suc n ≤ seconds_per_day
    → b < c
    → c < suc n
    → IsBefore (get_time_from_bucket_number (suc n) b) (get_time_from_bucket_number (suc n) c)
unfolding get_time_from_bucket_number
get_time_from_bucket_number-IsBefore n b c few h k =
    omega (arith, slot-lt-slot n b c few h, slot-lt n b (omega (arith, h, k)), slot-lt n c k)

-- Between a second and 26 hours.
abbrev pub IsSoon : ℕ → Result ℕ → Type 0
IsSoon now panic = ⊥
IsSoon now (err e) = ⊥
IsSoon now (ok t) = (now < t) × (t ≤ now + 93600 * second)

module _ (c : Chrono) (laws : IsChrono c) (now : ℕ) where
  -- The schedule of a time of day on the day of the time `u`.
  on_day :
      (u sec min hour : ℕ)
      → sec < 60
      → min < 60
      → hour < 24
      → try_from c now (record {
        sec = sec;
        min = min;
        hour = hour;
        day = c.day u;
        mon = c.month u;
        year = c.year u;
      })
        ≡ some (
            (u / (seconds_per_day * second) * seconds_per_day + (hour * 3600 + min * 60 + sec))
            * second)
  unfolding try_from
  on_day u sec min hour hs hm hh =
      rw (laws.date_of u, try_from)
        (rw (laws.time_of hour min sec hh hm hs, try_from) (ap some (laws.date_time_of _ _)))

  wakeup-IsSoon :
      (sec min hour : ℕ)
      → sec < 60
      → min < 60
      → hour < 24
      → IsSoon now (
          of_schedule c now (
            some (record {
              sec = sec;
              min = min;
              hour = hour;
              day = (get_date_from_hour c now hour).0;
              mon = (get_date_from_hour c now hour).1;
              year = (get_date_from_hour c now hour).2;
            })))
  unfolding of_schedule get_date_from_hour
  wakeup-IsSoon sec min hour hs hm hh = elim (Bool-cases (ltb (c.hour now + 1) hour)) [
    | inl today ↦ rw today (
        rw (on_day now sec min hour hs hm hh, of_schedule)
          (ground (arith, today, laws.hour_of now)))
    | inr over ↦ rw over (
        rw (on_day (now + seconds_per_day * second) sec min hour hs hm hh, of_schedule)
          (ground (arith, over, laws.hour_of now)))
  ]

  -- The next wake-up of a bucket in range is found, is later than now and is at most 26 hours away,
  -- in test mode too.
  pub next_wakeup-IsSoon :
      (n bucket : ℕ) (s : Scheduler)
      → s.bucket_number ≡ suc n
      → bucket < suc n
      → IsSoon now (next_wakeup c now bucket s)
  unfolding next_wakeup get_next_schedule get_time_from_bucket_number
  next_wakeup-IsSoon n bucket s total h =
      let (hs, hm, hh, e) = get_time_from_bucket_number_lem n bucket h in
      elim (Bool-cases s.test_mode) [
        | inl testing ↦ rw testing (omega arith, omega arith)
        | inr normal ↦ rw (normal, total) (wakeup-IsSoon _ _ _ hs hm hh)
      ]
