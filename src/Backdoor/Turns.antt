-- ===== src/Backdoor/Turns.antt =====
-- The owned devices through the turns of the backdoor (src/backdoor/backdoor.rs).
use head_end_system_tpp.Prelude.{take-ne-nil}
use head_end_system_tpp.Prelude.{
  ℕ, ◌≡◌, ◌≢◌, refl, Option, none, some, List, [], ◌∷◌, take, ◌/◌, ◌==◌,
}
use head_end_system_tpp.Wire.{Bytes}
use head_end_system_tpp.Wire as W
use head_end_system_tpp.Messages.{
  Message, MsgType, MessageError, get_timestamp, nack_device_not_found, nack_internal_error,
}
use head_end_system_tpp.Messages as Types
use head_end_system_tpp.Messages.Rlp.{Rlp}
use head_end_system_tpp.Messages.Create as New
use head_end_system_tpp.Messages.Codec.{codec_decode, too_short}
use head_end_system_tpp.Messages.Complete.{codec_decode-IsSettled}
use head_end_system_tpp.Database.{Device, RegistrationStatus}
use head_end_system_tpp.Database as DbTypes
use head_end_system_tpp.Database.InMemory as Db
use head_end_system_tpp.Database.InMemory.{InnerDb}
use head_end_system_tpp.DeviceManager.{DeviceManager, Manager, with_database}
use head_end_system_tpp.Scheduler.{second}
use head_end_system_tpp.DeviceManager as M
use head_end_system_tpp.DeviceManager.Owned.{IsInStep}
use head_end_system_tpp.DeviceManager.InStep.Planned as P
use head_end_system_tpp.Cluster.Address.{SocketAddr}
use head_end_system_tpp.Backdoor.{
  Backdoor, Result, ok, err, panic, World, Handler, ◌>>=◌, ◌>>◌, lift, ask, managed, send_msg,
  send_if_ok, spawn_ack_timeout_task, nack_on_err, or_nack, next_seq, of_message, same_ip,
  invalid_ip, new_device, at_address, imei_of, handle_backdoor_register_msg, confirm, acknowledged,
  handle_backdoor_ack_msg, get_next_wake_time, handle_backdoor_ip_update_msg, handle, receive,
  udp_buffer_size,
}
use head_end_system_tpp.Backdoor.Keeps.{
  Keeps, bind-Keeps, check-Keeps, lift-Keeps, ask-Keeps, store-Keeps, managed-Keeps, either-Keeps,
  modify_device-buckets, update_registration-buckets,
}

module _ (wire : Bytes) (rlp : Rlp) (w : World) where
  send_if_ok-Keeps :
      (made : Types.Result MessageError Message) (addr : SocketAddr)
      → Keeps (send_if_ok wire rlp w made addr)
  unfolding send_if_ok send_msg
  send_if_ok-Keeps (Types.Result.ok msg) addr = record { in_step = λ s inv. inv }
  send_if_ok-Keeps (Types.Result.err e) addr = record { in_step = λ s inv. inv }

  answered :
      {A : Type 0} (code : ℕ) (msg : Message) (addr : SocketAddr) (p : Backdoor × Result A)
      → IsInStep p.0.manager
      → IsInStep (nack_on_err wire rlp w code msg addr p.1 p.0).0.manager
  unfolding nack_on_err
  answered code msg addr (s', ok a) inv = inv
  answered code msg addr (s', panic) inv = inv
  answered code msg addr (s', err e) inv = (send_if_ok-Keeps _ addr).in_step s' inv

  or_nack-Keeps :
      {A : Type 0} (code : ℕ) (msg : Message) (addr : SocketAddr) (m : Handler A)
      → Keeps m
      → Keeps (or_nack wire rlp w code msg addr m)
  unfolding or_nack
  or_nack-Keeps code msg addr m keeps = record {
    in_step = λ s inv. answered code msg addr (m s) (keeps.in_step s inv);
  }

  schedule-Keeps : (id : ℕ) → Keeps (managed (M.schedule_next_wakeup w.chrono w.now w.adds id))
  schedule-Keeps id = managed-Keeps (M.schedule_next_wakeup w.chrono w.now w.adds id) (λ m inv.
      P.SameOwners-IsInStep m _ (P.schedule_next_wakeup-same w.adds w.chrono w.now id m) inv)

  send-Keeps : (msg : Message) (addr : SocketAddr) → Keeps (send_msg wire rlp w msg addr)
  unfolding send_msg
  send-Keeps msg addr = record { in_step = λ s inv. inv }

  timer-Keeps : (id : ℕ) → Keeps (spawn_ack_timeout_task wire rlp w id)
  unfolding spawn_ack_timeout_task
  timer-Keeps id = record { in_step = λ s inv. inv }

  register-Keeps :
      (msg : Message) (addr : SocketAddr) → Keeps (handle_backdoor_register_msg wire rlp w msg addr)
  unfolding handle_backdoor_register_msg Db.add_device Db.register_device
  register-Keeps msg addr =
      let device = new_device w addr (imei_of msg.payload) in
      bind-Keeps _ _ (check-Keeps _ _) (λ u.
        bind-Keeps _ _ (store-Keeps (Db.add_device device) (λ db. refl)) (λ u1.
          bind-Keeps _ _
            (managed-Keeps (M.manager_register_device w.chrono w.now device)
              (λ m inv. P.register_device-IsInStep w.chrono w.now device m _ refl inv))
            (λ next.
              bind-Keeps _ _ (lift-Keeps (of_message (get_timestamp w.from_timestamp msg))) (λ t.
                bind-Keeps _ _ (store-Keeps (Db.register_device device.id t) (λ db. refl)) (λ u2.
                  bind-Keeps _ _
                    (lift-Keeps (
                      of_message (
                        New.new_register_response_message w.clock device.id (next_seq msg) 0
                          (next / second))))
                    (λ response.
                      bind-Keeps _ _ (send-Keeps response addr) (λ u3. timer-Keeps device.id)))))))

  confirm-Keeps :
      (msg : Message) (addr : SocketAddr) (id : ℕ) → Keeps (confirm wire rlp w msg addr id)
  unfolding confirm
  confirm-Keeps msg addr id = bind-Keeps _ _ (lift-Keeps _) (λ t.
      bind-Keeps _ _
        (store-Keeps (Db.update_device_registration id _ _) (update_registration-buckets id _ _))
        (λ u. bind-Keeps _ _ (schedule-Keeps id) (λ u1. send_if_ok-Keeps _ addr)))

  acknowledged-Keeps :
      (msg : Message) (addr : SocketAddr) (id : ℕ) (st : RegistrationStatus)
      → Keeps (acknowledged wire rlp w msg addr id st)
  unfolding acknowledged
  acknowledged-Keeps msg addr id RegistrationStatus.ack_timeout = send_if_ok-Keeps _ addr
  acknowledged-Keeps msg addr id RegistrationStatus.registered = send_if_ok-Keeps _ addr
  acknowledged-Keeps msg addr id RegistrationStatus.pending_ack = confirm-Keeps msg addr id

  ack-Keeps :
      (msg : Message) (addr : SocketAddr) → Keeps (handle_backdoor_ack_msg wire rlp w msg addr)
  unfolding handle_backdoor_ack_msg
  ack-Keeps msg addr = bind-Keeps _ _ (ask-Keeps (Db.get_device msg.device_id)) (λ device.
      bind-Keeps _ _ (check-Keeps (same_ip w addr device) invalid_ip) (λ u.
        bind-Keeps _ _ (ask-Keeps (Db.get_device_registration device.id))
          (λ registration. acknowledged-Keeps msg addr device.id registration.registration_status)))

  next_wake-Keeps : (id : ℕ) → Keeps (get_next_wake_time wire rlp w id)
  unfolding get_next_wake_time
  next_wake-Keeps id = record {
    in_step =
        λ s inv. chosen s (Db.get_scheduled_connection id s.manager.scheduler.database) refl inv;
  }
    where
      scheduled : Keeps (
          managed (M.schedule_next_wakeup w.chrono w.now w.adds id)
          >> (ask (Db.get_scheduled_connection id) >>= λ conn.
              lift (ok (conn.schedule_time / second))))
      scheduled =
          bind-Keeps _ _ (schedule-Keeps id)
            (λ u. bind-Keeps _ _ (ask-Keeps _) (λ conn. lift-Keeps _))

      chosen :
          (s : Backdoor) (r : DbTypes.Result DbTypes.ScheduledConnection)
          → Db.get_scheduled_connection id s.manager.scheduler.database ≡ r
          → IsInStep s.manager
          → IsInStep (get_next_wake_time wire rlp w id s).0.manager
      chosen s (DbTypes.Result.ok conn) e inv = rw (e, get_next_wake_time) inv
      chosen s (DbTypes.Result.err x) e inv = rw (e, get_next_wake_time) (scheduled.in_step s inv)

  ip_update-Keeps :
      (msg : Message) (addr : SocketAddr)
      → Keeps (handle_backdoor_ip_update_msg wire rlp w msg addr)
  unfolding handle_backdoor_ip_update_msg
  ip_update-Keeps msg addr =
      bind-Keeps _ _
        (or_nack-Keeps nack_device_not_found msg addr _ (ask-Keeps (Db.get_device msg.device_id)))
        (λ device.
          bind-Keeps _ _
            (or_nack-Keeps nack_internal_error msg addr _ (
              store-Keeps (Db.modify_device (at_address w addr device))
                (modify_device-buckets (at_address w addr device))))
            (λ u.
              bind-Keeps _ _
                (or_nack-Keeps nack_internal_error msg addr _ (next_wake-Keeps msg.device_id))
                (λ next.
                  send_if_ok-Keeps
                    (New.new_register_response_message w.clock msg.device_id (next_seq msg) 0 next)
                    addr)))

  of_type :
      (msg : Message) (addr : SocketAddr) (t : MsgType) (s : Backdoor)
      → msg.msg_type ≡ t
      → IsInStep s.manager
      → IsInStep (handle wire rlp w msg addr s).0.manager
  unfolding handle
  of_type msg addr MsgType.register_request s e inv =
      rw (e, handle)
        ((either-Keeps (msg.device_id == 0) (register-Keeps msg addr)
            (ip_update-Keeps msg addr)).in_step
          s inv)
  of_type msg addr MsgType.ack s e inv = rw (e, handle) ((ack-Keeps msg addr).in_step s inv)
  of_type msg addr t s e inv = rw (e, handle) inv

  -- What `receive` leaves: the task goes on, and the owned set is in step with the database.
  abbrev pub GoesOn : Option Backdoor → Type 0
  GoesOn none = ⊥
  GoesOn (some s) = IsInStep s.manager

  after_decode :
      (packet : List ℕ) (addr : SocketAddr) (s : Backdoor)
      (o : W.Outcome Types.MsgCodecError (Option Message))
      → codec_decode wire rlp (take udp_buffer_size packet) ≡ o
      → o ≢ W.panic
      → IsInStep s.manager
      → GoesOn (receive wire rlp w packet addr s)
  unfolding receive
  after_decode packet addr s (W.ok (some m) rest) e safe inv =
      rw (e, receive) (of_type m addr m.msg_type s refl inv)
  after_decode packet addr s (W.ok none rest) e safe inv = rw (e, receive) inv
  after_decode packet addr s (W.err x rest) e safe inv = rw (e, receive) inv
  after_decode packet addr s W.panic e safe inv = absurd (safe refl)

  safe_packet : (packet : List ℕ) → codec_decode wire rlp (take udp_buffer_size packet) ≢ W.panic
  unfolding codec_decode too_short
  safe_packet [] e = cc
  safe_packet (b ∷ bs) e =
      rw e at
        (codec_decode-IsSettled wire rlp (take udp_buffer_size (b ∷ bs)) (take-ne-nil 1023 b bs)).0

  -- Whatever packet arrives, from whatever address, a turn of the backdoor does not end its task, and
  -- if the devices that the node owns are those that the database gives to it, they are so afterwards.
  pub receive-GoesOn :
      (packet : List ℕ) (addr : SocketAddr) (s : Backdoor)
      → IsInStep s.manager
      → GoesOn (receive wire rlp w packet addr s)
  receive-GoesOn packet addr s inv =
      after_decode packet addr s (codec_decode wire rlp (take udp_buffer_size packet)) refl
        (safe_packet packet) inv
