-- ===== src/Database/InMemory/Connections.antt =====
-- The scheduled connections (src/common/database/in_memory.rs): what a lookup finds after each
-- change, and the pages that `get_upcoming_connections` and `get_connection_history` return.
pub mod Sorting
use head_end_system_tpp.Database.InMemory.Listing.{is_awaiting, is_for, sort_by, sooner}
use head_end_system_tpp.Database.InMemory.Listing as L
use head_end_system_tpp.Prelude.{ℕ, ◌≤◌, ◌≡◌, ◌↔◌, refl, arith, true, false, Option, none, some}
use head_end_system_tpp.Prelude.{
  List, ◌==◌, if◌then◌else◌, Option-cases, inl, inr, length, filter, drop, All,
}
use head_end_system_tpp.Prelude.{
  filter-Memᴰ, Memᴰ-filter, length-filter, length-take, take_all, take-All, drop-All, all-filter,
  filter-All, both-All,
}
use head_end_system_tpp.Prelude.Map
use head_end_system_tpp.Prelude.Map.{Map}
use head_end_system_tpp.Database.{
  Result, ok, err, ScheduledConnection, ScheduledStatus, awaiting, done, lost,
}
use head_end_system_tpp.Database.InMemory as Db
use head_end_system_tpp.Database.InMemory.{InnerDb, ok_or_missing}
use head_end_system_tpp.Database.InMemory.Connections.Sorting.{
  IsOrdered, sort_by-All, length-sort_by, sort_by-Memᴰ, sort_by-IsOrdered, take-IsOrdered,
  drop-IsOrdered,
}
use mathlib.Core.Option
use mathlib.Core.List.{Memᴰ}

abbrev pub fresh : ℕ → ℕ → ℕ → ScheduledConnection
fresh id timestamp job = record {
  fk_device = id;
  schedule_time = timestamp;
  connection_time = none;
  status = awaiting;
  job_id = some job;
  renewable = true;
  last_battery_read = none;
}

-- After `schedule_connection` the device has one awaiting connection at that time with that job,
-- without a battery read, whatever it had before, and every other device has the one it had.
pub schedule_connection_lem :
    (id timestamp job j : ℕ) (db : InnerDb)
    → Db.get_scheduled_connection j (Db.schedule_connection id timestamp job db).0
      ≡ (if id == j then ok (fresh id timestamp job) else Db.get_scheduled_connection j db)
unfolding Db.schedule_connection Db.get_scheduled_connection ok_or_missing
schedule_connection_lem id timestamp job j db = ground (
  arith,
  Map.get-insert j id (fresh id timestamp job) (Map.remove id db.scheduled_connections),
  Map.get-remove j id db.scheduled_connections,
)

-- After `update_last_battery_read` a connection of that device has that time as its last battery
-- read and is otherwise as it was, a device without one still has none, which is the error that the
-- call returns, and every other device has the connection that it had.
pub update_last_battery_read_lem :
    (id timestamp j : ℕ) (db : InnerDb)
    → (Map.get j (Db.update_last_battery_read id timestamp db).0.scheduled_connections ≡ (
        if id == j
        then Option.map
            (λ (c : ScheduledConnection). record c { last_battery_read = some timestamp })
            (Map.get j db.scheduled_connections)
        else Map.get j db.scheduled_connections))
      × ((Db.update_last_battery_read id timestamp db).1
          ≡ ok_or_missing (Option.map (λ c. tt) (Map.get id db.scheduled_connections)))
unfolding Db.update_last_battery_read ok_or_missing
update_last_battery_read_lem id timestamp j db =
    elim (Option-cases (Map.get id db.scheduled_connections)) [
      | inl missing ↦
          rw (missing, Db.update_last_battery_read, ok_or_missing) (ground (arith, missing), refl)
      | inr (c, known) ↦
          rw (known, Db.update_last_battery_read, ok_or_missing)
            (
              Map.get-modify j id
                  (λ (c : ScheduledConnection). record c { last_battery_read = some timestamp })
                  db.scheduled_connections,
              refl,
            )
    ]

abbrev pub IsUpcoming : Option ℕ → ScheduledConnection → Type 0
IsUpcoming device c = (c.status ≡ awaiting) × (is_for device c ≡ true)

-- A page: at most `limit` awaiting connections of the device that was asked for, the soonest first.
abbrev pub IsPage : ℕ → Option ℕ → Result (List ScheduledConnection) → Type 0
IsPage limit device (err e) = ⊥
IsPage limit device (ok cs) = (length cs ≤ limit) × All (IsUpcoming device) cs × IsOrdered sooner cs

sooner_total : (c d : ScheduledConnection) → sooner c d ≡ false → sooner d c ≡ true
sooner_total c d h = ground arith

sooner_trans :
    (c d e : ScheduledConnection) → sooner c d ≡ true → sooner d e ≡ true → sooner c e ≡ true
sooner_trans c d e h k = ground arith

is_awaiting→ : (s : ScheduledStatus) → is_awaiting s ≡ true → s ≡ awaiting
unfolding is_awaiting
is_awaiting→ awaiting h = refl
is_awaiting→ lost h = cc
is_awaiting→ done h = cc

-- The connections that the pages of a device are taken from.
abbrev upcoming : Option ℕ → InnerDb → List ScheduledConnection
upcoming device db =
    filter (is_for device)
      (filter (λ c. is_awaiting c.status) (Map.values db.scheduled_connections))

upcoming-IsUpcoming :
    (device : Option ℕ) (db : InnerDb) → All (IsUpcoming device) (upcoming device db)
upcoming-IsUpcoming device db =
    let rows = Map.values db.scheduled_connections in
    both-All (λ c. c.status ≡ awaiting) (λ c. is_for device c ≡ true) (upcoming device db)
      (filter-All (λ c. c.status ≡ awaiting) (is_for device)
        (filter (λ c. is_awaiting c.status) rows)
        (all-filter (λ c. c.status ≡ awaiting) (λ c. is_awaiting c.status) rows
          (λ c. is_awaiting→ c.status)))
      (all-filter (λ c. is_for device c ≡ true) (is_for device)
        (filter (λ c. is_awaiting c.status) rows) (λ c h. h))

length-upcoming :
    (device : Option ℕ) (db : InnerDb)
    → length (upcoming device db) ≤ length db.scheduled_connections
length-upcoming device db =
    let rows = Map.values db.scheduled_connections in
    omega (
      arith,
      length-filter (is_for device) (filter (λ c. is_awaiting c.status) rows),
      length-filter (λ c. is_awaiting c.status) rows,
      Map.length-values db.scheduled_connections,
    )

upcoming-Memᴰ :
    (device : Option ℕ) (db : InnerDb) (c : ScheduledConnection)
    → Memᴰ c (upcoming device db)
      ↔ Memᴰ c (Map.values db.scheduled_connections) × IsUpcoming device c
upcoming-Memᴰ device db c =
    let rows = Map.values db.scheduled_connections in
    let waits : List ScheduledConnection = filter (λ c. is_awaiting c.status) rows in
    (
      λ h.
          let (m, mine) = filter-Memᴰ (is_for device) waits c h in
          let (m', w) = filter-Memᴰ (λ c. is_awaiting c.status) rows c m in
          (m', (is_awaiting→ c.status w, mine)),
      λ (m, (w, mine)).
          Memᴰ-filter (is_for device) waits c
            (Memᴰ-filter (λ c. is_awaiting c.status) rows c m (rw w (unfold is_awaiting in refl)))
            mine,
    )

-- `get_upcoming_connections` returns at most `limit` connections, all of them awaiting and of the
-- device asked for, if one is, in the order of their times.
pub get_upcoming_connections-IsPage :
    (limit offset : ℕ) (device : Option ℕ) (db : InnerDb)
    → IsPage limit device (L.get_upcoming_connections limit offset device db)
unfolding L.get_upcoming_connections
get_upcoming_connections-IsPage limit offset device db =
    let all = sort_by sooner (upcoming device db) in
    (
      length-take limit (drop offset all),
      take-All (IsUpcoming device) limit (drop offset all) (
          drop-All (IsUpcoming device) offset all (
            sort_by-All sooner (IsUpcoming device) (upcoming device db)
              (upcoming-IsUpcoming device db))),
      take-IsOrdered sooner limit (drop offset all) (
          drop-IsOrdered sooner offset all
            (sort_by-IsOrdered sooner sooner_total sooner_trans (upcoming device db))),
    )

abbrev pub IsListed : ScheduledConnection → Result (List ScheduledConnection) → Type 0
IsListed c (err e) = ⊥
IsListed c (ok cs) = Memᴰ c cs

-- A first page whose limit is not below the number of stored connections lists exactly the awaiting
-- ones of the device asked for.
pub get_upcoming_connections_iff :
    (limit : ℕ) (device : Option ℕ) (db : InnerDb) (c : ScheduledConnection)
    → length db.scheduled_connections ≤ limit
    → IsListed c (L.get_upcoming_connections limit 0 device db)
      ↔ Memᴰ c (Map.values db.scheduled_connections) × IsUpcoming device c
unfolding L.get_upcoming_connections
get_upcoming_connections_iff limit device db c h =
    let rows = upcoming device db in
    let page =
      take_all limit (sort_by sooner rows)
        (omega (arith, h, length-sort_by sooner rows, length-upcoming device db)) in
    (
      λ k. (upcoming-Memᴰ device db c).0 ((sort_by-Memᴰ sooner c rows).0 (rw page at k)),
      λ k. rw page ((sort_by-Memᴰ sooner c rows).1 ((upcoming-Memᴰ device db c).1 k)),
    )
