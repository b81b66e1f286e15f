-- ===== src/Database/InMemory.antt =====
-- The in-memory database (src/common/database/in_memory.rs). Every method holds the lock for all
-- of its body, so a method is one step from the tables to new tables.
pub mod Listing
pub mod Balance
pub mod Registration
pub mod Connections
pub mod Ownership
mod Tests
use head_end_system_tpp.Prelude.{ℕ, zero, suc, Bool, true, false, Option, none, some, List, [], ◌∷◌}
use head_end_system_tpp.Prelude.{ltb, leb, ◌==◌, if◌then◌else◌, length, replicate}
use head_end_system_tpp.Prelude.Map
use head_end_system_tpp.Prelude.Map.{Map}
use head_end_system_tpp.Database.{
  query_error, no_data_found, Result, ok, err, Device, ℤ, pos, negsuc,
}
use head_end_system_tpp.Database.{RegistrationStatus, pending_ack, DeviceRegistration}
use head_end_system_tpp.Database.{awaiting, ScheduledConnection}
use mathlib.Core.Option

pub record InnerDb : Type 0 where
  pub devices : Map Device
  pub device_registration : Map (RegistrationStatus × ℕ)
  -- the bucket of a device, and the node that owns the device
  pub buckets : Map (ℤ × ℕ)
  pub scheduled_connections : Map ScheduledConnection

-- `.ok_or(DatabaseError::NoDataFound)`.
unfoldable pub ok_or_missing : {A : Type 0} → Option A → Result A
ok_or_missing (some a) = ok a
ok_or_missing none = err no_data_found

unfoldable pub add_device : Device → InnerDb → InnerDb × Result (Unit {0})
add_device d db = (record db { devices = Map.insert d.id d db.devices }, ok tt)

unfoldable pub get_device : ℕ → InnerDb → Result Device
unfolding ok_or_missing
get_device id db = ok_or_missing (Map.get id db.devices)

unfoldable pub modify_device : Device → InnerDb → InnerDb × Result (Unit {0})
modify_device d db = elim (Map.get d.id db.devices) [
  | none ↦ (db, err no_data_found)
  | some old ↦ (record db { devices = Map.modify d.id (λ _. d) db.devices }, ok tt)
]

unfoldable pub register_device : ℕ → ℕ → InnerDb → InnerDb × Result (Unit {0})
register_device id now db = (
  record db { device_registration = Map.insert id (pending_ack, now) db.device_registration },
  ok tt,
)

unfoldable pub registration_timeout : ℕ → ℕ → InnerDb → InnerDb × Result Bool
registration_timeout id now db = elim (Map.get id db.device_registration) [
  | none ↦ (db, err no_data_found)
  | some (pending_ack, t) ↦ (
    record db {
      device_registration =
          Map.modify id (λ _. (RegistrationStatus.ack_timeout, now)) db.device_registration;
    },
    ok true,
  )
  | some (s, t) ↦ (db, ok false)
]

unfoldable pub get_device_registration : ℕ → InnerDb → Result DeviceRegistration
get_device_registration id db = elim (Map.get id db.device_registration) [
  | none ↦ err no_data_found
  | some (s, t) ↦ ok (record { fk_device = id; registration_status = s; registration_time = t })
]

unfoldable pub update_device_registration :
    ℕ → Option RegistrationStatus → Option ℕ → InnerDb → InnerDb × Result (Unit {0})
update_device_registration id status timestamp db = elim (Map.get id db.device_registration) [
  | none ↦ (db, err no_data_found)
  | some old ↦ (
    record db {
      device_registration =
          Map.modify id (λ e. (Option.get_or status e.0, Option.get_or timestamp e.1))
            db.device_registration;
    },
    ok tt,
  )
]

-- `counts[i] += 1`.
unfoldable pub bump : ℕ → List ℕ → List ℕ
bump i [] = []
bump zero (c ∷ cs) = suc c ∷ cs
bump (suc i) (c ∷ cs) = c ∷ bump i cs

-- The loop over the entries. A bucket that is negative or out of range is not counted.
unfoldable pub count_buckets : List ℕ → List (ℤ × ℕ) → List ℕ
unfolding bump
count_buckets counts [] = counts
count_buckets counts ((pos b, node) ∷ rest) =
    count_buckets (if ltb b (length counts) then bump b counts else counts) rest
count_buckets counts ((negsuc b, node) ∷ rest) = count_buckets counts rest

-- `counts.iter().min().unwrap_or(&0)`.
unfoldable pub min_count : List ℕ → ℕ
min_count [] = 0
min_count (c ∷ []) = c
min_count (c ∷ d ∷ cs) = let m = min_count (d ∷ cs) in if leb c m then c else m

-- `counts.iter().position(|&c| c == n)`.
unfoldable pub position : ℕ → List ℕ → Option ℕ
position n [] = none
position n (c ∷ cs) = if c == n then some 0 else Option.map suc (position n cs)

-- For a number of buckets that is not negative.
unfoldable pub get_bucket_with_less_devices : ℕ → InnerDb → Result ℕ
unfolding count_buckets min_count position
get_bucket_with_less_devices total db =
    let counts = count_buckets (replicate total 0) (Map.values db.buckets) in
    ok (Option.get_or (position (min_count counts) counts) 0)

unfoldable pub add_device_to_bucket : ℕ → ℤ → ℕ → InnerDb → InnerDb × Result (Unit {0})
add_device_to_bucket id bucket node db =
    (record db { buckets = Map.insert id (bucket, node) db.buckets }, ok tt)

unfoldable pub get_bucket_number : ℕ → InnerDb → Result ℤ
unfolding ok_or_missing
get_bucket_number id db = ok_or_missing (Option.map (λ e. e.0) (Map.get id db.buckets))

unfoldable pub schedule_connection : ℕ → ℕ → ℕ → InnerDb → InnerDb × Result (Unit {0})
schedule_connection id timestamp job db = (
  record db {
    scheduled_connections =
        Map.insert id
          (record {
            fk_device = id;
            schedule_time = timestamp;
            connection_time = none;
            status = awaiting;
            job_id = some job;
            renewable = true;
            last_battery_read = none;
          })
          (Map.remove id db.scheduled_connections);
  },
  ok tt,
)

unfoldable pub get_scheduled_connections : InnerDb → Result (List ScheduledConnection)
get_scheduled_connections db = ok (Map.values db.scheduled_connections)

unfoldable pub get_scheduled_connection : ℕ → InnerDb → Result ScheduledConnection
unfolding ok_or_missing
get_scheduled_connection id db = ok_or_missing (Map.get id db.scheduled_connections)

unfoldable pub update_scheduled_connection :
    ScheduledConnection → InnerDb → InnerDb × Result (Unit {0})
update_scheduled_connection c db =
    (record db { scheduled_connections = Map.insert c.fk_device c db.scheduled_connections }, ok tt)

-- The four operations on cluster nodes.
unfoldable pub cluster_unsupported : {A : Type 0} → InnerDb → InnerDb × Result A
cluster_unsupported db = (db, err query_error)

unfoldable pub owned_by : ℕ → Map (ℤ × ℕ) → List ℕ
owned_by node [] = []
owned_by node ((id, (b, owner)) ∷ rest) =
    if owner == node then id ∷ owned_by node rest else owned_by node rest

unfoldable pub get_devices_by_owner : ℕ → InnerDb → Result (List ℕ)
unfolding owned_by
get_devices_by_owner node db = ok (owned_by node db.buckets)

unfoldable pub set_device_owner : ℕ → ℕ → InnerDb → InnerDb × Result (Unit {0})
set_device_owner id node db =
    (record db { buckets = Map.modify id (λ e. (e.0, node)) db.buckets }, ok tt)

unfoldable pub get_all_device_ids : InnerDb → Result (List ℕ)
get_all_device_ids db = ok (Map.keys db.devices)

unfoldable pub update_last_battery_read : ℕ → ℕ → InnerDb → InnerDb × Result (Unit {0})
update_last_battery_read id timestamp db = elim (Map.get id db.scheduled_connections) [
  | none ↦ (db, err no_data_found)
  | some c ↦ (
    record db {
      scheduled_connections =
          Map.modify id
            (λ (c : ScheduledConnection). record c { last_battery_read = some timestamp })
            db.scheduled_connections;
    },
    ok tt,
  )
]
