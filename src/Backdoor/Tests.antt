-- ===== src/Backdoor/Tests.antt =====
-- The backdoor (src/backdoor/backdoor.rs) with one device over IPv4 and one over IPv6.
use head_end_system_tpp.Prelude.{
  ℕ, ◌+◌, ◌*◌, ◌≡◌, refl, arith, false, none, some, List, [], ◌∷◌, ◌++◌,
}
use head_end_system_tpp.Prelude.Map
use head_end_system_tpp.Wire.BigEndian.{big_endian}
use head_end_system_tpp.Messages.{
  Message, MsgType, MessagePayload, get_timestamp, nack_internal_error,
}
use head_end_system_tpp.Messages as Types
use head_end_system_tpp.Messages.Rlp.Framed.{framed}
use head_end_system_tpp.Messages.Create as New
use head_end_system_tpp.Messages.Codec.{codec_encode}
use head_end_system_tpp.Database.{Device, pending_ack, ack_timeout, pos}
use head_end_system_tpp.Database.InMemory as Db
use head_end_system_tpp.Database.InMemory.{InnerDb}
use head_end_system_tpp.Scheduler.Sample.{days, days-IsChrono}
use head_end_system_tpp.Scheduler.Devices as D
use head_end_system_tpp.DeviceManager.Owned.{IsInStep}
use head_end_system_tpp.Cluster.Address.{SocketAddr}
use head_end_system_tpp.Backdoor.{
  Backdoor, World, ok, err, invalid_ip, next_seq, same_ip, same_text, receive, ack_timer,
  handle_backdoor_register_msg, handle_backdoor_ack_msg,
}
use head_end_system_tpp.Backdoor.Turns.{GoesOn, receive-GoesOn}
use head_end_system_tpp.Backdoor.Pending.{IsPending}
use head_end_system_tpp.Backdoor.Confirmed.{IsConfirmed, register-confirm, register-refused}
use head_end_system_tpp.Backdoor.Late.{late_ack_lem}

abbrev world : ℕ → World
world sec = record {
  ip_text = λ ip. 49 ∷ [];
  clock = some sec;
  now = sec * 1000000000;
  from_timestamp = λ s n. some (s * 1000000000 + n);
  chrono = days;
  adds = λ id t. some id;
  new_uuid = 7;
}

-- Device 7 waits for its acknowledgement, device 8 is this node's as well.
abbrev meter : Device
meter = record { id = 7; ipv4 = some (49 ∷ []); ipv6 = none; imei = none }

abbrev tables : InnerDb
tables = record {
  devices = (7, meter) ∷ [];
  device_registration = (7, (pending_ack, 5)) ∷ [];
  buckets = (7, (pos 2, 100)) ∷ (8, (pos 0, 100)) ∷ [];
  scheduled_connections = [];
}

abbrev with_tables : InnerDb → List ℕ → Backdoor
with_tables db owned = record {
  manager = record {
    local_node_id = 100;
    local_bucket_count = 24;
    owned_devices = owned;
    scheduler = record {
      bucket_number = 24;
      database = db;
      owned_devices = none;
      local_node_id = 100;
      test_mode = false;
      active_tasks = [];
      jobs = [];
    };
  };
  sent = [];
  timers = [];
}

abbrev waiting : Backdoor
waiting = with_tables tables (7 ∷ 8 ∷ [])

abbrev empty : Backdoor
empty =
    with_tables
      (record { devices = []; device_registration = []; buckets = []; scheduled_connections = [] })
      []

abbrev request : Message
request = record {
  version = 1;
  msg_type = MsgType.register_request;
  device_id = 0;
  seq = 0;
  timestamp = 1000;
  payload = MessagePayload.registry_request (record { imei = 56 ∷ []; ipv6 = [] });
  mac = 0;
}

abbrev reply : Message
reply = record {
  version = 1;
  msg_type = MsgType.ack;
  device_id = 7;
  seq = 1;
  timestamp = 2000;
  payload = MessagePayload.ack;
  mac = 0;
}

abbrev address : ℕ → SocketAddr
address port = SocketAddr.v4 0x7f000001 port

waiting-IsInStep : IsInStep waiting.manager
unfolding D.contains Map.get
waiting-IsInStep = record {
  agree = λ j. ground arith;
  same_node = refl;
  distinct = (refl, (refl, tt));
}

receive-GoesOn_example : GoesOn big_endian framed (world 2) (
    receive big_endian framed
      (world 2)
      (codec_encode big_endian framed reply)
      (address 6060)
      waiting)
receive-GoesOn_example =
    receive-GoesOn big_endian framed (world 2) (codec_encode big_endian framed reply) (address 6060)
      waiting waiting-IsInStep

register-confirm_example :
    let (s1, first) =
      handle_backdoor_register_msg big_endian framed (world 1) request (address 6060) empty in
    let (s2, confirmed) =
      handle_backdoor_ack_msg big_endian framed (world 2) reply (address 6061) s1 in
    (first ≡ ok tt)
    × (confirmed ≡ ok tt)
    × IsConfirmed 2000000000 2000000000 7 (λ id t. some id) s2.manager
unfolding get_timestamp
register-confirm_example =
    register-confirm big_endian framed (world 1) (world 2) 23 1000000000 2000000000 1 2 0x7f000001
      6060 6061 request reply empty days-IsChrono days-IsChrono refl (λ time. (7, refl)) refl refl
      refl refl refl refl refl

register-refused_example :
    let (s1, first) =
      handle_backdoor_register_msg big_endian framed
        (world 1)
        request
        (SocketAddr.v6 1 6060 0 0)
        empty in
    (first ≡ ok tt)
    × (Map.get 7 s1.manager.scheduler.database.device_registration ≡ some (pending_ack, 1000000000))
    × (handle_backdoor_ack_msg big_endian framed (world 2) reply (SocketAddr.v6 1 6060 0 0) s1
        ≡ (s1, err invalid_ip))
unfolding get_timestamp
register-refused_example =
    register-refused big_endian framed (world 1) (world 2) 23 1000000000 1 1 6060 0 0 request reply
      (SocketAddr.v6 1 6060 0 0) empty days-IsChrono refl refl refl refl refl

waiting-IsPending : IsPending 23 5 meter waiting.manager
unfolding Map.get Db.get_device Db.get_bucket_number D.contains
waiting-IsPending = record {
  known = refl;
  pending = refl;
  bucket = 2;
  in_range = omega arith;
  in_bucket = refl;
  total = refl;
  owned = refl;
}

late_ack_lem_example :
    let (s', result) =
      handle_backdoor_ack_msg big_endian framed
        (world 2)
        reply
        (address 6060)
        (ack_timer 9 7 waiting) in
    (result ≡ ok tt)
    × (Map.get 7 s'.manager.scheduler.database.device_registration ≡ some (ack_timeout, 9))
    × (nack : Message) × (New.new_nack_message (some 2) 7 (next_seq reply) nack_internal_error
        ≡ Types.Result.ok nack)
    × (s'.sent ≡ [] ++ (address 6060, codec_encode big_endian framed nack) ∷ [])
unfolding same_ip same_text
late_ack_lem_example =
    late_ack_lem big_endian framed (world 2) 23 5 2 9 reply (address 6060) meter waiting refl refl
      refl waiting-IsPending
