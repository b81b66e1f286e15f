-- ===== src/Scheduler/WakeUp.antt =====
-- The session with a device that wakes up (src/scheduler/task/wake_up_device.rs).
pub mod Job
pub mod Session
pub mod Retries
pub mod GivenUp
mod Tests
use head_end_system_tpp.Prelude.{
  ℕ, zero, suc, ◌+◌, ◌-◌, ◌*◌, ◌/◌, ◌%◌, ◌^◌, Bool, true, false, Option, none, some, List, [], ◌∷◌,
  ◌++◌, leb, if◌then◌else◌, take, replicate,
}
use Prim.Native.String.{String}
use head_end_system_tpp.Wire.{Bytes}
use head_end_system_tpp.Wire as W
use head_end_system_tpp.Database.{DatabaseError, Device, ScheduledConnection}
use head_end_system_tpp.Database as DbTypes
use head_end_system_tpp.Database.InMemory as Db
use head_end_system_tpp.Database.InMemory.{InnerDb}
use head_end_system_tpp.Scheduler.{second, seconds_per_day}
use head_end_system_tpp.Messages.{
  MessageError, MsgCodecError, Message, MessagePayload, WriteParameter, ReadResponseMessage,
  ObisValue, msg_type_as_str,
}
use head_end_system_tpp.Messages as Types
use head_end_system_tpp.Messages.Rlp.{Rlp}
use head_end_system_tpp.Messages.Create as New
use head_end_system_tpp.Messages.Codec.{codec_decode, codec_encode}

abbrev pub max_retries : ℕ
max_retries = 5

abbrev pub battery_read_interval_days : ℕ
battery_read_interval_days = 7

-- "1.0.1", "C.6.1", "0.9.4" and "0.0.1".
abbrev pub obis_water_volume : List ℕ
obis_water_volume = 49 ∷ 46 ∷ 48 ∷ 46 ∷ 49 ∷ []

abbrev pub obis_battery : List ℕ
obis_battery = 67 ∷ 46 ∷ 54 ∷ 46 ∷ 49 ∷ []

abbrev pub obis_clock : List ℕ
obis_clock = 48 ∷ 46 ∷ 57 ∷ 46 ∷ 52 ∷ []

abbrev pub obis_next_wake : List ℕ
obis_next_wake = 48 ∷ 46 ∷ 48 ∷ 46 ∷ 49 ∷ []

-- `database_error` and so on wrap the errors of the calls; the text of an input or output error is
-- not modelled.
pub data TaskError : Type 0 where
  database_error : DatabaseError → TaskError
  device_with_no_ip io_error max_retries_exceeded : TaskError
  message_error : MessageError → TaskError
  msg_codec_error : MsgCodecError → TaskError
  unexpected_msg_type : String → String → TaskError

pub data Result (A : Type 0) : Type 0 where
  ok : A → Result A
  err : TaskError → Result A
  panic : Result A

-- What `timeout(30 s, socket.recv(...))` gives.
pub data Received : Type 0 where
  timed_out failed : Received
  datagram : List ℕ → Received

-- What one attempt meets: whether the socket is bound and connected, whether it takes the packet of
-- each message by its sequence number, what is received after it, the seconds of the clock when it
-- is made (`none` before the epoch), and the time in nanoseconds.
pub record Peer : Type 0 where
  pub binds : Bool
  pub connects : Bool
  pub takes : ℕ → Bool
  pub receives : ℕ → Received
  pub clock : ℕ → Option ℕ
  pub utc_now : ℕ

-- The packets that were sent, in their order, and the result so far.
abbrev pub Session : Type 0 → Type 0
Session A = List (List ℕ) → List (List ℕ) × Result A

abbrev pub continue : {A B : Type 0} → Result A → (A → Session B) → Session B
continue (ok a) f sent = f a sent
continue (err e) f sent = (sent, err e)
continue panic f sent = (sent, panic)

infixl 5 ◌>>=◌ ◌>>◌
unfoldable pub ◌>>=◌ : {A B : Type 0} → Session A → (A → Session B) → Session B
◌>>=◌ m f sent = let (sent', r) = m sent in continue r f sent'

abbrev pub ◌>>◌ : {B : Type 0} → Session (Unit {0}) → Session B → Session B
m >> k = m >>= λ _. k

abbrev pub check : Bool → TaskError → Session (Unit {0})
check true e sent = (sent, ok tt)
check false e sent = (sent, err e)

abbrev pub lift : {A : Type 0} → Result A → Session A
lift r sent = (sent, r)

abbrev pub of_message : Types.Result MessageError Message → Result Message
of_message (Types.Result.ok m) = ok m
of_message (Types.Result.err e) = err (message_error e)

-- The answer to a message, or the error for a message of another type.
unfoldable pub expect_handshake_response : Message → Result (Unit {0})
expect_handshake_response m = elim m.payload [
  | MessagePayload.handshake_response r ↦ ok tt
  | _ ↦ err (unexpected_msg_type "handshake_response" (msg_type_as_str m.msg_type))
]

unfoldable pub expect_read_response : Message → Result (List ObisValue)
expect_read_response m = elim m.payload [
  | MessagePayload.read_response r ↦ ok r.values
  | _ ↦ err (unexpected_msg_type "read_response" (msg_type_as_str m.msg_type))
]

unfoldable pub expect_write_response : Message → Result (Unit {0})
expect_write_response m = elim m.payload [
  | MessagePayload.write_response r ↦ ok tt
  | _ ↦ err (unexpected_msg_type "write_response" (msg_type_as_str m.msg_type))
]

-- Whether the battery was never read, or not for seven days.
unfoldable pub needs_battery : ℕ → ℕ → InnerDb → Bool
needs_battery now id db = elim (Db.get_scheduled_connection id db) [
  | DbTypes.Result.err e ↦ true
  | DbTypes.Result.ok conn ↦ elim conn.last_battery_read [
    | none ↦ true
    | some last ↦ leb battery_read_interval_days ((now - last) / (seconds_per_day * second))
  ]
]

unfoldable pub obis_codes : Bool → List (List ℕ)
obis_codes battery = obis_water_volume ∷ obis_clock ∷ (if battery then obis_battery ∷ [] else [])

-- The nonce of the handshake.
abbrev pub nonce : List ℕ
nonce = replicate 32 0

module _ (wire : Bytes) (rlp : Rlp) (peer : Peer) where
  unfoldable pub send_msg : ℕ → Types.Result MessageError Message → Session (Unit {0})
  unfolding ◌>>=◌
  send_msg seq made = do
    msg ← lift (of_message made)
    λ sent.
        if peer.takes seq
        then (sent ++ codec_encode wire rlp msg ∷ [], ok tt)
        else (sent, err io_error)

  -- The packet that was received, cut to the 4096 bytes of the buffer.
  unfoldable pub decode_received : List ℕ → Result Message
  decode_received packet = elim (codec_decode wire rlp (take 4096 packet)) [
    | W.ok (some msg) rest ↦ ok msg
    | W.ok none rest ↦ err io_error
    | W.err e rest ↦ err (msg_codec_error e)
    | W.panic ↦ panic
  ]

  unfoldable pub recv_msg : Received → Result Message
  unfolding decode_received
  recv_msg timed_out = err io_error
  recv_msg failed = err io_error
  recv_msg (datagram packet) = decode_received packet

  -- A day from now in seconds, as eight bytes.
  unfoldable pub write_parameters : List WriteParameter
  write_parameters =
      record {
        code = obis_next_wake;
        value = wire.put_uint 8 ((peer.utc_now + seconds_per_day * second) / second);
      }
      ∷ []

  -- What a session exchanges with the device of an id.
  unfoldable pub exchange : ℕ → Bool → Session (List ObisValue)
  unfolding send_msg recv_msg write_parameters expect_handshake_response expect_read_response
      expect_write_response obis_codes ◌>>=◌
  exchange id battery = do
    check peer.binds io_error
    check peer.connects io_error
    send_msg 0 (New.new_handshake_message (peer.clock 0) id 0 nonce)
    r0 ← lift (recv_msg (peer.receives 0))
    lift (expect_handshake_response r0)
    send_msg 1 (New.new_read_request_message (peer.clock 1) id 1 (obis_codes battery))
    r1 ← lift (recv_msg (peer.receives 1))
    values ← lift (expect_read_response r1)
    send_msg 2 (New.new_write_request_message (peer.clock 2) id 2 write_parameters)
    r2 ← lift (recv_msg (peer.receives 2))
    lift (expect_write_response r2)
    send_msg 3 (New.new_ack_message (peer.clock 3) id 3)
    lift (ok values)

  -- The time of the battery read is stored after a session that read it. An error of that is only
  -- logged. The values that were read are not stored.
  unfoldable pub finish : ℕ → Bool → InnerDb → Result (List ObisValue) → InnerDb × Result (Unit {0})
  finish id battery db (ok values) =
      (if battery then (Db.update_last_battery_read id peer.utc_now db).0 else db, ok tt)
  finish id battery db (err e) = (db, err e)
  finish id battery db panic = (db, panic)

  unfoldable pub run_session : ℕ → InnerDb → InnerDb × List (List ℕ) × Result (Unit {0})
  unfolding needs_battery exchange finish
  run_session id db =
      let battery = needs_battery peer.utc_now id db in
      let (sent, result) = exchange id battery [] in
      let (db', done) = finish id battery db result in (db', sent, done)
