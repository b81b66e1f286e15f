-- ===== src/DeviceManager/Delegate.antt =====
-- Devices that a node hands to another (src/device_manager/device_manager.rs and
-- src/common/delegated_device.rs).
use head_end_system_tpp.Prelude.{
  ℕ, zero, suc, ◌+◌, ◌-◌, ◌*◌, ◌/◌, Option, List, [], ◌∷◌, leb, if◌then◌else◌, length, take,
}
use head_end_system_tpp.Database.{Device, ScheduledConnection}
use head_end_system_tpp.Database as DbTypes
use head_end_system_tpp.Database.InMemory as Db
use head_end_system_tpp.Scheduler.{second, seconds_per_day}
use head_end_system_tpp.Scheduler.Devices as D
use head_end_system_tpp.DeviceManager.{
  DeviceManager, Manager, ◌>>=◌, ◌>>◌, return, ask, schedule, disown, ok,
}
use head_end_system_tpp.DeviceManager.Ownership.{claim}

pub record DelegatedDevice : Type 0 where
  pub device_id : ℕ
  pub ipv4 : Option (List ℕ)
  pub ipv6 : Option (List ℕ)
  pub schedule_time : ℕ

-- The time of the scheduled connection, or a day from now where there is none.
unfoldable pub time_or_tomorrow : ℕ → DbTypes.Result ScheduledConnection → ℕ
time_or_tomorrow now (DbTypes.Result.ok conn) = conn.schedule_time
time_or_tomorrow now (DbTypes.Result.err e) = now + seconds_per_day * second

module _ (now : ℕ) where
  unfoldable pub delegated_device : ℕ → Manager DelegatedDevice
  unfolding ask time_or_tomorrow ◌>>=◌
  delegated_device id = do
    device ← ask (Db.get_device id)
    λ s. (
      s,
      ok (record {
        device_id = device.id;
        ipv4 = device.ipv4;
        ipv6 = device.ipv6;
        schedule_time = time_or_tomorrow now (Db.get_scheduled_connection id s.scheduler.database);
      }),
    )

  unfoldable pub delegated_devices : List ℕ → Manager (List DelegatedDevice)
  unfolding delegated_device ◌>>=◌
  delegated_devices [] = return []
  delegated_devices (id ∷ ids) = do
    d ← delegated_device id
    ds ← delegated_devices ids
    return (d ∷ ds)

  -- How many devices are above this node's fair share of its own devices.
  unfoldable pub to_give : ℕ → DeviceManager → ℕ
  to_give zero s = 0
  to_give (suc n) s = length s.owned_devices - length s.owned_devices / suc n

  unfoldable pub get_devices_for_delegation : ℕ → Manager (List DelegatedDevice)
  unfolding to_give delegated_devices
  get_devices_for_delegation active_node_count s =
      if leb active_node_count 1
      then (s, ok [])
      else delegated_devices (take (to_give active_node_count s) s.owned_devices) s

-- All owned devices, as `shutdown_delegation` prepares them.
unfoldable pub devices_for_shutdown : DeviceManager → List ℕ
devices_for_shutdown s = s.owned_devices

-- `adds` is what the job scheduler answers to a job for a device at a time.
module _ (adds : ℕ → ℕ → Option ℕ) where
  -- One device of a delegation: the database, the owned set and the scheduler take it up.
  unfoldable pub accept_device : ℕ → DelegatedDevice → Manager (Unit {0})
  unfolding claim schedule ◌>>=◌
  accept_device node d = do
    claim node d.device_id
    schedule (D.schedule_delegated_device adds d.device_id d.schedule_time)

  unfoldable pub accept_each : ℕ → List DelegatedDevice → Manager (List ℕ)
  unfolding accept_device ◌>>=◌
  accept_each node [] = return []
  accept_each node (d ∷ ds) = do
    accept_device node d
    ids ← accept_each node ds
    return (d.device_id ∷ ids)

  unfoldable pub accept_delegation : List DelegatedDevice → Manager (List ℕ)
  unfolding accept_each
  accept_delegation devices s = accept_each s.local_node_id devices s

unfoldable pub release_devices : List ℕ → DeviceManager → DeviceManager
unfolding disown
release_devices [] s = s
release_devices (id ∷ ids) s = release_devices ids (disown id s)
