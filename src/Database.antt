-- ===== src/Database.antt =====
-- The data that the head-end system stores, and the results of its database
-- (src/common/device.rs, registration_status.rs, scheduled_connection.rs, database/mod.rs).
pub mod InMemory
use head_end_system_tpp.Prelude.{ℕ, Bool, Option, List}

pub data DatabaseError : Type 0 where
  tcp_error query_error no_data_found too_many_rows invalid_initialization_arguments sqlx_error
        registration_error ack_timeout :
      DatabaseError

pub data Result (A : Type 0) : Type 0 where
  ok : A → Result A
  err : DatabaseError → Result A

-- A `Uuid` is its 128-bit number, a `String` the list of its bytes.
pub record Device : Type 0 where
  pub id : ℕ
  pub ipv4 : Option (List ℕ)
  pub ipv6 : Option (List ℕ)
  pub imei : Option (List ℕ)

pub data RegistrationStatus : Type 0 where
  registered pending_ack ack_timeout : RegistrationStatus

-- Times are nanoseconds since the epoch.
pub record DeviceRegistration : Type 0 where
  pub fk_device : ℕ
  pub registration_status : RegistrationStatus
  pub registration_time : ℕ

pub data ScheduledStatus : Type 0 where
  awaiting lost done : ScheduledStatus

pub record ScheduledConnection : Type 0 where
  pub fk_device : ℕ
  pub schedule_time : ℕ
  pub connection_time : Option ℕ
  pub status : ScheduledStatus
  pub job_id : Option ℕ
  pub renewable : Bool
  pub last_battery_read : Option ℕ

-- A signed integer; `negsuc n` is -(n + 1).
pub data ℤ : Type 0 where
  pos : ℕ → ℤ
  negsuc : ℕ → ℤ
