-- ===== src/Backdoor.antt =====
-- The registration of devices (src/backdoor/backdoor.rs, mod.rs, and src/common/device.rs), over the
-- device manager and the in-memory database.
pub mod Keeps
pub mod Turns
pub mod Pending
pub mod Confirmed
pub mod Late
mod Tests
use head_end_system_tpp.Prelude.{
  ℕ, ◌+◌, ◌/◌, ◌%◌, ◌^◌, Bool, true, false, Option, none, some, List, [], ◌∷◌, ◌++◌, ◌==◌, ◌&&◌,
  if◌then◌else◌, take,
}
use head_end_system_tpp.Wire.{Bytes}
use head_end_system_tpp.Wire as W
use head_end_system_tpp.Messages.{
  MessageError, Message, MsgType, MessagePayload, get_timestamp, nack_device_not_found,
  nack_internal_error,
}
use head_end_system_tpp.Messages as Types
use head_end_system_tpp.Messages.Rlp.{Rlp}
use head_end_system_tpp.Messages.Create as New
use head_end_system_tpp.Messages.Codec.{codec_decode, codec_encode}
use head_end_system_tpp.Database.{
  DatabaseError, Device, RegistrationStatus, registered, pending_ack, ack_timeout,
}
use head_end_system_tpp.Database as DbTypes
use head_end_system_tpp.Database.InMemory as Db
use head_end_system_tpp.Database.InMemory.{InnerDb}
use head_end_system_tpp.Scheduler.{Chrono, second}
use head_end_system_tpp.DeviceManager.{DeviceManager, DeviceManagerError, Manager, with_database}
use head_end_system_tpp.DeviceManager as M
use head_end_system_tpp.Cluster.Address.{IpAddr, SocketAddr, ip}

abbrev pub udp_buffer_size : ℕ
udp_buffer_size = 1024

pub data BackdoorError : Type 0 where
  device_manager_error : DeviceManagerError → BackdoorError
  message_error : MessageError → BackdoorError
  database_error : DatabaseError → BackdoorError
  tcp_error register_request_invalid_id parse_error invalid_ip invalid_time_stamp : BackdoorError

pub data Result (A : Type 0) : Type 0 where
  ok : A → Result A
  err : BackdoorError → Result A
  panic : Result A

-- What a handler works on: the device manager with the database that they share, the datagrams in the
-- order in which they were given to the socket, and the devices whose acknowledgement has a timer.
pub record Backdoor : Type 0 where
  pub manager : DeviceManager
  pub sent : List (SocketAddr × List ℕ)
  pub timers : List ℕ

-- What a handler asks of the outside: the text of an IP address, the seconds of the clock (`none`
-- before the epoch), the time in nanoseconds, `from_timestamp` and the calendar of `chrono`, the
-- answers of the job scheduler, and the next random id.
pub record World : Type 0 where
  pub ip_text : IpAddr → List ℕ
  pub clock : Option ℕ
  pub now : ℕ
  pub from_timestamp : ℕ → ℕ → Option ℕ
  pub chrono : Chrono
  pub adds : ℕ → ℕ → Option ℕ
  pub new_uuid : ℕ

abbrev pub Handler : Type 0 → Type 0
Handler A = Backdoor → Backdoor × Result A

abbrev pub continue : {A B : Type 0} → Result A → (A → Handler B) → Handler B
continue (ok a) f s = f a s
continue (err e) f s = (s, err e)
continue panic f s = (s, panic)

infixl 5 ◌>>=◌ ◌>>◌
unfoldable pub ◌>>=◌ : {A B : Type 0} → Handler A → (A → Handler B) → Handler B
◌>>=◌ m f s = let (s', r) = m s in continue r f s'

abbrev pub ◌>>◌ : {B : Type 0} → Handler (Unit {0}) → Handler B → Handler B
m >> k = m >>= λ _. k

abbrev pub lift : {A : Type 0} → Result A → Handler A
lift r s = (s, r)

abbrev pub check : Bool → BackdoorError → Handler (Unit {0})
check true e s = (s, ok tt)
check false e s = (s, err e)

abbrev pub of_database : {A : Type 0} → DbTypes.Result A → Result A
of_database (DbTypes.Result.ok a) = ok a
of_database (DbTypes.Result.err e) = err (database_error e)

abbrev pub of_message : {A : Type 0} → Types.Result MessageError A → Result A
of_message (Types.Result.ok a) = ok a
of_message (Types.Result.err e) = err (message_error e)

abbrev pub of_manager : {A : Type 0} → M.Result A → Result A
of_manager (M.Result.ok a) = ok a
of_manager (M.Result.err e) = err (device_manager_error e)
of_manager M.Result.panic = panic

-- Calls of the database that read and that write, and calls of the device manager.
unfoldable pub ask : {A : Type 0} → (InnerDb → DbTypes.Result A) → Handler A
ask f s = (s, of_database (f s.manager.scheduler.database))

unfoldable pub store : {A : Type 0} → (InnerDb → InnerDb × DbTypes.Result A) → Handler A
store f s =
    let (db, r) = f s.manager.scheduler.database in
    (record s { manager = with_database db s.manager }, of_database r)

unfoldable pub managed : {A : Type 0} → Manager A → Handler A
managed f s = let (m, r) = f s.manager in (record s { manager = m }, of_manager r)

unfoldable pub same_text : List ℕ → List ℕ → Bool
same_text [] [] = true
same_text [] (y ∷ ys) = false
same_text (x ∷ xs) [] = false
same_text (x ∷ xs) (y ∷ ys) = (x == y) && same_text xs ys

-- The id that `msg.seq + 1` gives, in a build without overflow checks.
abbrev pub next_seq : Message → ℕ
next_seq msg = (msg.seq + 1) % 2 ^ 32

abbrev pub imei_of : MessagePayload → Option (List ℕ)
imei_of (MessagePayload.registry_request req) = some req.imei
imei_of payload = none

module _ (w : World) where
  abbrev pub ip_text_of : SocketAddr → List ℕ
  ip_text_of addr = w.ip_text (ip addr)

  -- A device as `Device::new` makes it.
  unfoldable pub new_device : SocketAddr → Option (List ℕ) → Device
  unfolding ip
  new_device (SocketAddr.v4 a port) imei = record {
    id = w.new_uuid;
    ipv4 = some (w.ip_text (IpAddr.v4 a));
    ipv6 = none;
    imei = imei;
  }
  new_device (SocketAddr.v6 a port flow scope) imei = record {
    id = w.new_uuid;
    ipv4 = none;
    ipv6 = some (w.ip_text (IpAddr.v6 a));
    imei = imei;
  }

  -- The device at the address that it has now.
  unfoldable pub at_address : SocketAddr → Device → Device
  at_address (SocketAddr.v4 a port) d = record d {
    ipv4 = some (w.ip_text (IpAddr.v4 a));
    ipv6 = none;
  }
  at_address (SocketAddr.v6 a port flow scope) d = record d {
    ipv4 = none;
    ipv6 = some (w.ip_text (IpAddr.v6 a));
  }

  -- `Some(socket_addr.ip().to_string()) == device.ipv4`.
  unfoldable pub same_ip : SocketAddr → Device → Bool
  unfolding ip same_text
  same_ip addr d = elim d.ipv4 [ none ↦ false | some text ↦ same_text (ip_text_of addr) text ]

module _ (wire : Bytes) (rlp : Rlp) (w : World) where
  -- An error of the socket is only logged.
  unfoldable pub send_msg : Message → SocketAddr → Handler (Unit {0})
  send_msg msg addr s =
      (record s { sent = s.sent ++ (addr, codec_encode wire rlp msg) ∷ [] }, ok tt)

  -- `if let Ok(msg) = ... { send_msg(...) }`.
  unfoldable pub send_if_ok : Types.Result MessageError Message → SocketAddr → Handler (Unit {0})
  unfolding send_msg
  send_if_ok (Types.Result.ok msg) addr s = send_msg msg addr s
  send_if_ok (Types.Result.err e) addr s = (s, ok tt)

  unfoldable pub spawn_ack_timeout_task : ℕ → Handler (Unit {0})
  spawn_ack_timeout_task id s = (record s { timers = id ∷ s.timers }, ok tt)

  -- A NACK with the code answers an error, which is returned.
  unfoldable pub nack_on_err : {A : Type 0} → ℕ → Message → SocketAddr → Result A → Handler A
  unfolding send_if_ok
  nack_on_err code msg addr (ok a) s = (s, ok a)
  nack_on_err code msg addr panic s = (s, panic)
  nack_on_err code msg addr (err e) s = (
    (send_if_ok (New.new_nack_message w.clock msg.device_id (next_seq msg) code) addr s).0,
    err e,
  )

  unfoldable pub or_nack : {A : Type 0} → ℕ → Message → SocketAddr → Handler A → Handler A
  unfolding nack_on_err
  or_nack code msg addr m s = let (s', r) = m s in nack_on_err code msg addr r s'

  unfoldable pub handle_backdoor_register_msg : Message → SocketAddr → Handler (Unit {0})
  unfolding ◌>>=◌ store managed send_msg spawn_ack_timeout_task new_device M.manager_register_device
  handle_backdoor_register_msg msg addr =
      let device = new_device w addr (imei_of msg.payload) in
      do
        check (msg.device_id == 0) register_request_invalid_id
        store (Db.add_device device)
        next_wake_up ← managed (M.manager_register_device w.chrono w.now device)
        timestamp ← lift (of_message (get_timestamp w.from_timestamp msg))
        store (Db.register_device device.id timestamp)
        response ← lift (
            of_message (
              New.new_register_response_message w.clock device.id (next_seq msg) 0
                (next_wake_up / second)))
        send_msg response addr
        spawn_ack_timeout_task device.id

  unfoldable pub confirm : Message → SocketAddr → ℕ → Handler (Unit {0})
  unfolding ◌>>=◌ store managed send_if_ok M.schedule_next_wakeup
  confirm msg addr id = do
    timestamp ← lift (of_message (get_timestamp w.from_timestamp msg))
    store (Db.update_device_registration id (some registered) (some timestamp))
    managed (M.schedule_next_wakeup w.chrono w.now w.adds id)
    send_if_ok (New.new_ack_message w.clock msg.device_id (next_seq msg)) addr

  -- What an acknowledgement does by the status of the registration.
  unfoldable pub acknowledged : Message → SocketAddr → ℕ → RegistrationStatus → Handler (Unit {0})
  unfolding send_if_ok confirm
  acknowledged msg addr id ack_timeout =
      send_if_ok (New.new_nack_message w.clock msg.device_id (next_seq msg) nack_internal_error)
        addr
  acknowledged msg addr id registered =
      send_if_ok (New.new_ack_message w.clock msg.device_id (next_seq msg)) addr
  acknowledged msg addr id pending_ack = confirm msg addr id

  unfoldable pub handle_backdoor_ack_msg : Message → SocketAddr → Handler (Unit {0})
  unfolding ◌>>=◌ ask same_ip acknowledged
  handle_backdoor_ack_msg msg addr = do
    device ← ask (Db.get_device msg.device_id)
    check (same_ip w addr device) invalid_ip
    registration ← ask (Db.get_device_registration device.id)
    acknowledged msg addr device.id registration.registration_status

  -- The seconds of the stored connection, or of one that is scheduled now.
  unfoldable pub get_next_wake_time : ℕ → Handler ℕ
  unfolding ◌>>=◌ ask managed M.schedule_next_wakeup
  get_next_wake_time id s = elim (Db.get_scheduled_connection id s.manager.scheduler.database) [
    | DbTypes.Result.ok conn ↦ (s, ok (conn.schedule_time / second))
    | DbTypes.Result.err e ↦
        (do
          managed (M.schedule_next_wakeup w.chrono w.now w.adds id)
          conn ← ask (Db.get_scheduled_connection id)
          lift (ok (conn.schedule_time / second)))
          s
  ]

  unfoldable pub handle_backdoor_ip_update_msg : Message → SocketAddr → Handler (Unit {0})
  unfolding ◌>>=◌ ask store or_nack send_if_ok at_address get_next_wake_time
  handle_backdoor_ip_update_msg msg addr = do
    device ← or_nack nack_device_not_found msg addr (ask (Db.get_device msg.device_id))
    or_nack nack_internal_error msg addr (store (Db.modify_device (at_address w addr device)))
    next_wake_time ← or_nack nack_internal_error msg addr (get_next_wake_time msg.device_id)
    send_if_ok
        (New.new_register_response_message w.clock msg.device_id (next_seq msg) 0 next_wake_time)
        addr

  -- The handler of a message by its type, in a build without debug sessions. Other types are logged.
  unfoldable pub handle : Message → SocketAddr → Handler (Unit {0})
  unfolding handle_backdoor_register_msg handle_backdoor_ip_update_msg handle_backdoor_ack_msg
  handle msg addr = elim msg.msg_type [
    | MsgType.register_request ↦
        if msg.device_id == 0
        then handle_backdoor_register_msg msg addr
        else handle_backdoor_ip_update_msg msg addr
    | MsgType.ack ↦ handle_backdoor_ack_msg msg addr
    | _ ↦ λ s. (s, ok tt)
  ]

  -- A turn of the loop, with the packet cut to the buffer, or `none` if it ends the task. A handler
  -- runs in a task of its own, and an error of it is logged.
  unfoldable pub receive : List ℕ → SocketAddr → Backdoor → Option Backdoor
  unfolding handle
  receive packet addr s = elim (codec_decode wire rlp (take udp_buffer_size packet)) [
    | W.ok (some msg) rest ↦ some (handle msg addr s).0
    | W.ok none rest ↦ some s
    | W.err e rest ↦ some s
    | W.panic ↦ none
  ]

-- What the timer of a device does when it fires.
unfoldable pub ack_timer : ℕ → ℕ → Backdoor → Backdoor
unfolding store
ack_timer now id s = (store (Db.registration_timeout id now) s).0
