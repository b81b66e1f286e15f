-- ===== src/Database/InMemory/Tests.antt =====
-- Runs of the in-memory database (src/common/database/in_memory.rs) on concrete tables.
use head_end_system_tpp.Database.InMemory.Listing as L
use head_end_system_tpp.Prelude.{ℕ, ◌≡◌, refl, arith, true, none, some, [], ◌∷◌}
use head_end_system_tpp.Prelude.Map
use head_end_system_tpp.Prelude.Map.{IsDistinct}
use head_end_system_tpp.Database.{
  ok, pos, negsuc, pending_ack, registered, ScheduledConnection, ScheduledStatus, done, awaiting,
}
use head_end_system_tpp.Database.InMemory as Db
use head_end_system_tpp.Database.InMemory.{InnerDb}
use head_end_system_tpp.Database.InMemory.Balance.{IsLighter, least_loaded}
use head_end_system_tpp.Database.InMemory.Connections.{fresh, schedule_connection_lem}

abbrev node_a : ℕ
node_a = 100

abbrev connection : ℕ → ℕ → ScheduledStatus → ScheduledConnection
connection id time status = record {
  fk_device = id;
  schedule_time = time;
  connection_time = none;
  status = status;
  job_id = some 40;
  renewable = true;
  last_battery_read = some 7;
}

-- Three devices in the buckets 0, 2 and -1, a fourth that has none.
abbrev tables : InnerDb
tables = record {
  devices = [];
  device_registration = (1, (pending_ack, 10)) ∷ (2, (registered, 20)) ∷ [];
  buckets = (1, (pos 0, 100)) ∷ (2, (pos 2, 200)) ∷ (3, (negsuc 0, 100)) ∷ [];
  scheduled_connections =
      (1, connection 1 60 awaiting)
      ∷ (2, connection 2 50 awaiting)
      ∷ (3, connection 3 40 done)
      ∷ [];
}

chosen : Db.get_bucket_with_less_devices 3 tables ≡ ok 1
unfolding Db.get_bucket_with_less_devices Map.values
chosen = refl

page :
    L.get_upcoming_connections 5 0 none tables
    ≡ ok (connection 2 50 awaiting ∷ connection 1 60 awaiting ∷ [])
unfolding L.get_upcoming_connections Map.values
page = refl

least_loaded_example : IsLighter 3 2 tables (Db.get_bucket_with_less_devices 3 tables)
least_loaded_example = least_loaded 3 2 tables (omega arith)

schedule_connection_lem_example :
    Db.get_scheduled_connection 3 (Db.schedule_connection 3 70 41 tables).0 ≡ ok (fresh 3 70 41)
schedule_connection_lem_example = schedule_connection_lem 3 70 41 3 tables
