-- ===== src/DeviceManager.antt =====
-- The devices that a node owns (src/device_manager/device_manager.rs), over the scheduler and the
-- in-memory database.
pub mod Ownership
pub mod Delegate
pub mod Rebalance
pub mod Owned
pub mod InStep
pub mod Steps
pub mod Redistribute
pub mod Accepted
pub mod Settled
pub mod ByCount
pub mod Dealt
pub mod Shares
pub mod Again
mod Tests
use head_end_system_tpp.Prelude.{ℕ, Bool, Option, List, [], ◌==◌, filter, not, length}
use head_end_system_tpp.Database.{DatabaseError, Device, ScheduledConnection}
use head_end_system_tpp.Database as DbTypes
use head_end_system_tpp.Database.InMemory as Db
use head_end_system_tpp.Database.InMemory.{InnerDb}
use head_end_system_tpp.Scheduler.{SchedulerError, Scheduler, Chrono}
use head_end_system_tpp.Scheduler as S
use head_end_system_tpp.Scheduler.Devices as D

pub data DeviceManagerError : Type 0 where
  database : DatabaseError → DeviceManagerError
  scheduler : SchedulerError → DeviceManagerError
  no_nodes_available : DeviceManagerError

-- The database handles of the manager and of its scheduler are clones of one handle: the database
-- stands in the scheduler. A `HashSet` is a list that holds an item once, in its unspecified order.
pub record DeviceManager : Type 0 where
  pub local_node_id : ℕ
  pub local_bucket_count : ℕ
  pub owned_devices : List ℕ
  pub scheduler : Scheduler

-- A call returns a value or an error, or panics. What was written before an error stays written.
pub data Result (A : Type 0) : Type 0 where
  ok : A → Result A
  err : DeviceManagerError → Result A
  panic : Result A

abbrev pub Manager : Type 0 → Type 0
Manager A = DeviceManager → DeviceManager × Result A

abbrev pub continue : {A B : Type 0} → Result A → (A → Manager B) → Manager B
continue (ok a) f s = f a s
continue (err e) f s = (s, err e)
continue panic f s = (s, panic)

infixl 5 ◌>>=◌ ◌>>◌
unfoldable pub ◌>>=◌ : {A B : Type 0} → Manager A → (A → Manager B) → Manager B
◌>>=◌ m f s = let (s', r) = m s in continue r f s'

abbrev pub ◌>>◌ : {B : Type 0} → Manager (Unit {0}) → Manager B → Manager B
m >> k = m >>= λ _. k

abbrev pub return : {A : Type 0} → A → Manager A
return a s = (s, ok a)

abbrev pub fail : {A : Type 0} → DeviceManagerError → Manager A
fail e s = (s, err e)

abbrev pub with_database : InnerDb → DeviceManager → DeviceManager
with_database db s = record s { scheduler = record s.scheduler { database = db } }

abbrev pub of_database : {A : Type 0} → DbTypes.Result A → Result A
of_database (DbTypes.Result.ok a) = ok a
of_database (DbTypes.Result.err e) = err (database e)

abbrev pub of_scheduler : {A : Type 0} → S.Result A → Result A
of_scheduler (S.Result.ok a) = ok a
of_scheduler (S.Result.err e) = err (scheduler e)
of_scheduler S.Result.panic = panic

-- `self.database.f(...).await?` for an `f` that reads, and for one that writes.
unfoldable pub ask : {A : Type 0} → (InnerDb → DbTypes.Result A) → Manager A
ask f s = (s, of_database (f s.scheduler.database))

unfoldable pub store : {A : Type 0} → (InnerDb → InnerDb × DbTypes.Result A) → Manager A
store f s = let (db, r) = f s.scheduler.database in (with_database db s, of_database r)

-- `self.scheduler.f(...).await`, its errors wrapped.
unfoldable pub schedule : {A : Type 0} → (Scheduler → Scheduler × S.Result A) → Manager A
schedule f s = let (sch, r) = f s.scheduler in (record s { scheduler = sch }, of_scheduler r)

-- `self.owned_devices.insert(id)` and `remove(&id)`.
unfoldable pub own : ℕ → DeviceManager → DeviceManager
unfolding D.put
own id s = record s { owned_devices = D.put id s.owned_devices }

unfoldable pub disown : ℕ → DeviceManager → DeviceManager
disown id s = record s { owned_devices = filter (λ d. not (d == id)) s.owned_devices }

abbrev pub change : (DeviceManager → DeviceManager) → Manager (Unit {0})
change f s = (f s, ok tt)

unfoldable pub new : ℕ → ℕ → Scheduler → DeviceManager
new node count sch = record {
  local_node_id = node;
  local_bucket_count = count;
  owned_devices = [];
  scheduler = sch;
}

unfoldable pub device_count : DeviceManager → ℕ
device_count s = length s.owned_devices

unfoldable pub manager_owns_device : ℕ → DeviceManager → Bool
unfolding D.contains
manager_owns_device id s = D.contains id s.owned_devices

-- The wrappers of the scheduler.
module _ (c : Chrono) (now : ℕ) where
  unfoldable pub manager_register_device : Device → Manager ℕ
  unfolding schedule own ◌>>=◌ D.register_device
  manager_register_device device = do
    next_wake ← schedule (D.register_device c now device)
    change (own device.id)
    return next_wake

  unfoldable pub schedule_next_wakeup : (ℕ → ℕ → Option ℕ) → ℕ → Manager (Unit {0})
  unfolding schedule
  schedule_next_wakeup adds id = schedule (D.schedule_next_wakeup_job adds c now id)

unfoldable pub manager_cancel_wakeup_job : (ℕ → Bool) → ℕ → Manager Bool
unfolding schedule
manager_cancel_wakeup_job removes id = schedule (D.cancel_wakeup_job removes id)

-- `add_owned_device` of the manager, which leaves the scheduler alone.
unfoldable pub manager_add_owned_device : ℕ → DeviceManager → DeviceManager
unfolding own
manager_add_owned_device id = own id

unfoldable pub remove_scheduled_device : ℕ → DeviceManager → DeviceManager
unfolding D.remove_owned_device
remove_scheduled_device id s = record s { scheduler = D.remove_owned_device id s.scheduler }
