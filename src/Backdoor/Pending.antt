-- ===== src/Backdoor/Pending.antt =====
-- A device that asks for a registration (src/backdoor/backdoor.rs).
use head_end_system_tpp.Prelude.{ℕ, suc, ◌<◌, ◌≡◌, refl, arith, true, some, ==_refl}
use head_end_system_tpp.Prelude.Map
use head_end_system_tpp.Wire.{Bytes}
use head_end_system_tpp.Messages.{Message, MessageError, get_timestamp}
use head_end_system_tpp.Messages as Types
use head_end_system_tpp.Messages.Rlp.{Rlp}
use head_end_system_tpp.Messages.Create as New
use head_end_system_tpp.Database.{Device, RegistrationStatus, registered, pending_ack, pos}
use head_end_system_tpp.Database as DbTypes
use head_end_system_tpp.Database.InMemory as Db
use head_end_system_tpp.Database.InMemory.{InnerDb}
use head_end_system_tpp.Scheduler.{IsChrono, Scheduler, second, next_wakeup}
use head_end_system_tpp.Scheduler as S
use head_end_system_tpp.Scheduler.Devices as D
use head_end_system_tpp.Scheduler.Times.{IsSoon, next_wakeup-IsSoon}
use head_end_system_tpp.Scheduler.Register.{choose_bucket-least}
use head_end_system_tpp.Scheduler.Jobs.{contains-put}
use head_end_system_tpp.DeviceManager.{DeviceManager, own, with_database}
use head_end_system_tpp.DeviceManager as M
use head_end_system_tpp.Cluster.Address.{SocketAddr}
use head_end_system_tpp.Backdoor.{
  Backdoor, ok, World, ◌>>=◌, store, managed, send_msg, spawn_ack_timeout_task, new_device, imei_of,
  handle_backdoor_register_msg,
}

-- The manager with the device stored, and with its bucket, its owner and its registration besides.
abbrev pub stored : Device → DeviceManager → DeviceManager
stored d m = with_database (Db.add_device d m.scheduler.database).0 m

abbrev bucketed : Device → DeviceManager → DeviceManager
bucketed d m = own d.id (
    with_database
      (Db.add_device_to_bucket d.id (pos (D.choose_bucket m.scheduler)) m.scheduler.local_node_id
        m.scheduler.database).0
      m)

abbrev registered_at : ℕ → Device → DeviceManager → DeviceManager
registered_at t d m = with_database (Db.register_device d.id t m.scheduler.database).0 m

-- What the tables say of a device that waits for its acknowledgement.
pub record IsPending (n t : ℕ) (d : Device) (m : DeviceManager) : Type 0 where
  pub known : Db.get_device d.id m.scheduler.database ≡ DbTypes.Result.ok d
  pub pending : Map.get d.id m.scheduler.database.device_registration ≡ some (pending_ack, t)
  pub bucket : ℕ
  pub in_range : bucket < suc n
  pub in_bucket : Db.get_bucket_number d.id m.scheduler.database ≡ DbTypes.Result.ok (pos bucket)
  pub total : m.scheduler.bucket_number ≡ suc n
  pub owned : D.contains d.id m.owned_devices ≡ true

registered_at-IsPending :
    (n t : ℕ) (d : Device) (m : DeviceManager)
    → m.scheduler.bucket_number ≡ suc n
    → IsPending n t d (registered_at t d (bucketed d (stored d m)))
unfolding Db.add_device Db.add_device_to_bucket Db.register_device Db.get_device
    Db.get_bucket_number own Db.ok_or_missing
registered_at-IsPending n t d m total =
    let bucket = D.choose_bucket (stored d m).scheduler in
    let same = ==_refl d.id in
    record {
      known = rw (Map.get-insert d.id d.id d m.scheduler.database.devices, same) refl;
      pending =
          rw
            (
              Map.get-insert d.id d.id (pending_ack, t) m.scheduler.database.device_registration,
              same,
            )
            refl;
      bucket = bucket;
      in_range = (choose_bucket-least n 0 (stored d m).scheduler total (omega arith)).0;
      in_bucket =
          rw
            (
              Map.get-insert d.id d.id (pos bucket, m.scheduler.local_node_id)
                  m.scheduler.database.buckets,
              same,
            )
            refl;
      total = total;
      owned = rw (contains-put d.id d.id m.owned_devices, same) refl;
    }

module _ (wire : Bytes) (rlp : Rlp) (w : World) where
  registers :
      (msg : Message) (addr : SocketAddr) (s : Backdoor) (wake t sec : ℕ)
      → msg.device_id ≡ 0
      → w.clock ≡ some sec
      → get_timestamp w.from_timestamp msg ≡ Types.Result.ok t
      → let d = new_device w addr (imei_of msg.payload) in
        let m = stored d s.manager in
        next_wakeup w.chrono w.now (D.choose_bucket m.scheduler) m.scheduler ≡ S.Result.ok wake
        → ((handle_backdoor_register_msg wire rlp w msg addr s).1 ≡ ok tt)
          × ((handle_backdoor_register_msg wire rlp w msg addr s).0.manager
              ≡ registered_at t d (bucketed d m))
  unfolding handle_backdoor_register_msg ◌>>=◌ store managed send_msg spawn_ack_timeout_task
      M.manager_register_device M.schedule M.◌>>=◌ D.register_device own Db.add_device
      New.new_register_response_message New.new_message get_timestamp Db.register_device
  registers msg addr s wake t sec zero_id clock stamp soon =
      rw (zero_id, soon, D.register_device, stamp, clock) (refl, refl)

woken : (now : ℕ) (r : S.Result ℕ) → IsSoon now r → (wake : ℕ) × (r ≡ S.Result.ok wake)
woken now (S.Result.ok t) soon = (t, refl)
woken now (S.Result.err e) soon = absurd soon
woken now S.Result.panic soon = absurd soon

module _ (wire : Bytes) (rlp : Rlp) (w : World) where
  -- A request of a new device that can be registered leaves it waiting for its acknowledgement.
  pub register-IsPending :
      (n t sec : ℕ) (msg : Message) (addr : SocketAddr) (s : Backdoor)
      → IsChrono w.chrono
      → s.manager.scheduler.bucket_number ≡ suc n
      → msg.device_id ≡ 0
      → w.clock ≡ some sec
      → get_timestamp w.from_timestamp msg ≡ Types.Result.ok t
      → ((handle_backdoor_register_msg wire rlp w msg addr s).1 ≡ ok tt)
        × IsPending n t
            (new_device w addr (imei_of msg.payload))
            (handle_backdoor_register_msg wire rlp w msg addr s).0.manager
  register-IsPending n t sec msg addr s laws total zero_id clock stamp =
      let d = new_device w addr (imei_of msg.payload) in
      let m = stored d s.manager in
      let in_range = (choose_bucket-least n 0 m.scheduler total (omega arith)).0 in
      let (wake, soon) = woken w.now _ (
        next_wakeup-IsSoon w.chrono laws w.now n (D.choose_bucket m.scheduler) m.scheduler total
          in_range) in
      let (returns, left) = registers wire rlp w msg addr s wake t sec zero_id clock stamp soon in
      (returns, rw left (registered_at-IsPending n t d s.manager total))
