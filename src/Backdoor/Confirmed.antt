-- ===== src/Backdoor/Confirmed.antt =====
-- A device that acknowledges its registration (src/backdoor/backdoor.rs).
use head_end_system_tpp.Prelude.{
  ℕ, suc, ◌≡◌, refl, ap, ◌∙◌, Bool, true, false, Option, some, List, [], ◌∷◌, ==_refl, Option-cases,
  inl, inr, if◌then◌else◌,
}
use head_end_system_tpp.Prelude.Map
use head_end_system_tpp.Wire.{Bytes}
use head_end_system_tpp.Messages.{Message, MessageError, get_timestamp}
use head_end_system_tpp.Messages as Types
use head_end_system_tpp.Messages.Rlp.{Rlp}
use head_end_system_tpp.Messages.Create as New
use head_end_system_tpp.Database.{Device, RegistrationStatus, registered, pending_ack, pos}
use head_end_system_tpp.Database as DbTypes
use head_end_system_tpp.Database.InMemory as Db
use head_end_system_tpp.Database.InMemory.{InnerDb}
use head_end_system_tpp.Scheduler.{IsChrono, Scheduler, second, next_wakeup}
use head_end_system_tpp.Scheduler as S
use head_end_system_tpp.Scheduler.Devices as D
use head_end_system_tpp.Scheduler.Times.{IsSoon}
use head_end_system_tpp.Scheduler.Jobs.{IsScheduled, schedule_next_wakeup_job-IsScheduled}
use head_end_system_tpp.DeviceManager.{DeviceManager, own, with_database}
use head_end_system_tpp.DeviceManager as M
use head_end_system_tpp.Database.InMemory.Connections.{fresh}
use mathlib.Core.Option
use head_end_system_tpp.Cluster.Address.{IpAddr, SocketAddr, ip}
use head_end_system_tpp.Backdoor.{
  Backdoor, ok, err, World, ◌>>=◌, store, ask, managed, send_msg, send_if_ok, new_device, imei_of,
  same_text, same_ip, invalid_ip, handle_backdoor_register_msg, confirm, acknowledged,
  handle_backdoor_ack_msg,
}
use head_end_system_tpp.Backdoor.Pending.{IsPending, register-IsPending}

module _ (adds : ℕ → ℕ → Option ℕ) where
  schedule_at-registration :
      (id t : ℕ) (s : Scheduler)
      → (D.schedule_at adds id t s).0.database.device_registration ≡ s.database.device_registration
  unfolding D.schedule_at Db.schedule_connection
  schedule_at-registration id t s = elim (Option-cases (adds id t)) [
    | inl refused ↦ rw (refused, D.schedule_at) refl
    | inr (job, taken) ↦ rw (taken, D.schedule_at) refl
  ]

  scheduled-registration :
      (id : ℕ) (s : Scheduler) (r : S.Result ℕ)
      → (D.scheduled adds id s r).0.database.device_registration ≡ s.database.device_registration
  unfolding D.scheduled
  scheduled-registration id s (S.Result.ok t) = schedule_at-registration id t s
  scheduled-registration id s (S.Result.err e) = refl
  scheduled-registration id s S.Result.panic = refl

-- The entry is confirmed at `t`, and the device has one awaiting connection, at a time that is soon.
pub record IsConfirmed (now t id : ℕ) (adds : ℕ → ℕ → Option ℕ) (m : DeviceManager) : Type 0 where
  pub confirmed : Map.get id m.scheduler.database.device_registration ≡ some (registered, t)
  pub time : ℕ
  pub job : ℕ
  pub soon : IsSoon now (S.Result.ok time)
  pub taken : adds id time ≡ some job
  pub planned :
      Db.get_scheduled_connection id m.scheduler.database ≡ DbTypes.Result.ok (fresh id time job)

-- The write of the confirmation.
abbrev confirmed_at : ℕ → ℕ → DeviceManager → DeviceManager
confirmed_at t id m =
    with_database
      (Db.update_device_registration id (some registered) (some t) m.scheduler.database).0 m

confirmed_at_lem :
    (t u id : ℕ) (m : DeviceManager)
    → Map.get id m.scheduler.database.device_registration ≡ some (pending_ack, u)
    → ((Db.update_device_registration id (some registered) (some t) m.scheduler.database).1
        ≡ DbTypes.Result.ok tt)
      × (Map.get id (confirmed_at t id m).scheduler.database.device_registration
          ≡ some (registered, t))
      × ((confirmed_at t id m).scheduler.database.buckets ≡ m.scheduler.database.buckets)
      × ((confirmed_at t id m).scheduler.bucket_number ≡ m.scheduler.bucket_number)
unfolding Db.update_device_registration
confirmed_at_lem t u id m pending =
    rw (pending, Db.update_device_registration)
      (
        refl,
        rw
            (
              Map.get-modify id id
                  (λ (e : RegistrationStatus × ℕ).
                    (Option.get_or (some registered) e.0, Option.get_or (some t) e.1))
                  m.scheduler.database.device_registration,
              ==_refl id,
              pending,
            )
            refl,
        refl,
        refl,
      )

module _ (wire : Bytes) (rlp : Rlp) (w : World) where
  schedules :
      (msg : Message) (addr : SocketAddr) (s : Backdoor) (t u id sec : ℕ)
      (r : Scheduler × S.Result (Unit {0}))
      → w.clock ≡ some sec
      → get_timestamp w.from_timestamp msg ≡ Types.Result.ok t
      → Map.get id s.manager.scheduler.database.device_registration ≡ some (pending_ack, u)
      → D.schedule_next_wakeup_job w.adds w.chrono w.now id (confirmed_at t id s.manager).scheduler
        ≡ r
      → r.0.database.device_registration
        ≡ (confirmed_at t id s.manager).scheduler.database.device_registration
      → IsScheduled w.now id w.adds r
      → ((confirm wire rlp w msg addr id s).1 ≡ ok tt)
        × IsConfirmed w.now t id w.adds (confirm wire rlp w msg addr id s).0.manager
  unfolding confirm ◌>>=◌ store managed send_if_ok send_msg M.schedule_next_wakeup M.schedule
      New.new_ack_message New.new_message
  schedules msg addr s t u id sec (sch, S.Result.ok done) clock stamp pending job kept is =
      let (writes, entry, same, total) = confirmed_at_lem t u id s.manager pending in
      let (time, j, soon, taken, planned) = is in
      rw (stamp, writes, job, clock)
        (
          refl,
          record {
            confirmed = ap (Map.get id) kept ∙ entry;
            time = time;
            job = j;
            soon = soon;
            taken = taken;
            planned = planned;
          },
        )
  schedules msg addr s t u id sec (sch, S.Result.err e) clock stamp pending job kept is = absurd is
  schedules msg addr s t u id sec (sch, S.Result.panic) clock stamp pending job kept is = absurd is

same_text_refl : (s : List ℕ) → same_text s s ≡ true
unfolding same_text
same_text_refl [] = refl
same_text_refl (x ∷ xs) = rw (==_refl x, same_text_refl xs) refl

module _ (wire : Bytes) (rlp : Rlp) (w : World) where
  -- An acknowledgement while the device waits for it.
  acknowledges :
      (n u : ℕ) (msg : Message) (addr : SocketAddr) (d : Device) (s : Backdoor) (same : Bool)
      → msg.device_id ≡ d.id
      → IsPending n u d s.manager
      → same_ip w addr d ≡ same
      → handle_backdoor_ack_msg wire rlp w msg addr s
        ≡ (if same then confirm wire rlp w msg addr d.id s else (s, err invalid_ip))
  unfolding handle_backdoor_ack_msg ◌>>=◌ ask acknowledged Db.get_device_registration
  acknowledges n u msg addr d s true id_is p passes =
      let known : Db.get_device msg.device_id s.manager.scheduler.database ≡ DbTypes.Result.ok d =
        rw id_is p.known in
      rw (known, passes, p.pending, Db.get_device_registration) refl
  acknowledges n u msg addr d s false id_is p fails =
      let known : Db.get_device msg.device_id s.manager.scheduler.database ≡ DbTypes.Result.ok d =
        rw id_is p.known in
      rw (known, fails) refl

  confirm-IsConfirmed :
      (n t u sec : ℕ) (msg : Message) (addr : SocketAddr) (d : Device) (s : Backdoor)
      → IsChrono w.chrono
      → ((time : ℕ) → (job : ℕ) × (w.adds d.id time ≡ some job))
      → w.clock ≡ some sec
      → get_timestamp w.from_timestamp msg ≡ Types.Result.ok t
      → IsPending n u d s.manager
      → ((confirm wire rlp w msg addr d.id s).1 ≡ ok tt)
        × IsConfirmed w.now t d.id w.adds (confirm wire rlp w msg addr d.id s).0.manager
  unfolding Db.get_bucket_number D.schedule_next_wakeup_job
  confirm-IsConfirmed n t u sec msg addr d s laws takes clock stamp p =
      let sch = (confirmed_at t d.id s.manager).scheduler in
      let (writes, entry, same, total) = confirmed_at_lem t u d.id s.manager p.pending in
      let found : Db.get_bucket_number d.id sch.database ≡ DbTypes.Result.ok (pos p.bucket) =
        rw same p.in_bucket in
      schedules wire rlp w msg addr s t u d.id sec _ clock stamp p.pending refl
        (rw (found, D.schedule_next_wakeup_job) (scheduled-registration w.adds d.id sch _))
        (schedule_next_wakeup_job-IsScheduled w.chrono laws w.now w.adds n p.bucket d.id sch
          (total ∙ p.total) p.in_range found takes)

module _ (wire : Bytes) (rlp : Rlp) (w w' : World) where
  -- A new device that asks for a registration over IPv4, and acknowledges the response from the same
  -- IP: both handlers succeed, and the device is registered and has one awaiting connection, later
  -- than the acknowledgement and at most 26 hours after it, with the job that was added for that
  -- time. The clock stands after the epoch, there is a bucket, the job scheduler takes every job, and
  -- both messages have a timestamp.
  pub register-confirm :
      (n t t' sec sec' a port port' : ℕ) (request reply : Message) (s : Backdoor)
      → IsChrono w.chrono
      → IsChrono w'.chrono
      → w'.ip_text ≡ w.ip_text
      → ((time : ℕ) → (job : ℕ) × (w'.adds w.new_uuid time ≡ some job))
      → s.manager.scheduler.bucket_number ≡ suc n
      → w.clock ≡ some sec
      → w'.clock ≡ some sec'
      → request.device_id ≡ 0
      → reply.device_id ≡ w.new_uuid
      → get_timestamp w.from_timestamp request ≡ Types.Result.ok t
      → get_timestamp w'.from_timestamp reply ≡ Types.Result.ok t'
      → let (s1, first) =
          handle_backdoor_register_msg wire rlp w request (SocketAddr.v4 a port) s in
        let (s2, confirmed) =
          handle_backdoor_ack_msg wire rlp w' reply (SocketAddr.v4 a port') s1 in
        (first ≡ ok tt) × (confirmed ≡ ok tt) × IsConfirmed w'.now t' w.new_uuid w'.adds s2.manager
  unfolding new_device same_ip ip
  register-confirm n t t' sec sec' a port port' request reply s laws laws' text takes total clock
        clock' zero_id id_is stamp stamp' =
      let d = new_device w (SocketAddr.v4 a port) (imei_of request.payload) in
      let s1 = (handle_backdoor_register_msg wire rlp w request (SocketAddr.v4 a port) s).0 in
      let (returns, pending) =
        register-IsPending wire rlp w n t sec request (SocketAddr.v4 a port) s laws total zero_id
          clock stamp in
      let same : same_ip w' (SocketAddr.v4 a port') d ≡ true =
        rw text (same_text_refl (w.ip_text (IpAddr.v4 a))) in
      let step =
        acknowledges wire rlp w' n t reply (SocketAddr.v4 a port') d s1 true id_is pending same in
      let (answers, confirmed) =
        confirm-IsConfirmed wire rlp w' n t' t sec' reply (SocketAddr.v4 a port') d s1 laws' takes
          clock' stamp' pending in
      (returns, rw step answers, rw step confirmed)

  -- A new device that asks for a registration over IPv6 is registered and waits for its
  -- acknowledgement, but every acknowledgement is refused for its IP and changes nothing, from
  -- whatever address it comes. The clock stands after the epoch, there is a bucket, and the request
  -- has a timestamp.
  pub register-refused :
      (n t sec a port flow scope : ℕ) (request reply : Message) (addr : SocketAddr) (s : Backdoor)
      → IsChrono w.chrono
      → s.manager.scheduler.bucket_number ≡ suc n
      → w.clock ≡ some sec
      → request.device_id ≡ 0
      → reply.device_id ≡ w.new_uuid
      → get_timestamp w.from_timestamp request ≡ Types.Result.ok t
      → let (s1, first) =
          handle_backdoor_register_msg wire rlp w request (SocketAddr.v6 a port flow scope) s in
        (first ≡ ok tt)
        × (Map.get w.new_uuid s1.manager.scheduler.database.device_registration
            ≡ some (pending_ack, t))
        × (handle_backdoor_ack_msg wire rlp w' reply addr s1 ≡ (s1, err invalid_ip))
  unfolding new_device same_ip
  register-refused n t sec a port flow scope request reply addr s laws total clock zero_id id_is
        stamp =
      let from = SocketAddr.v6 a port flow scope in
      let d = new_device w from (imei_of request.payload) in
      let s1 = (handle_backdoor_register_msg wire rlp w request from s).0 in
      let (returns, pending) =
        register-IsPending wire rlp w n t sec request from s laws total zero_id clock stamp in
      (
        returns,
        pending.pending,
        acknowledges wire rlp w' n t reply addr d s1 false id_is pending refl,
      )
