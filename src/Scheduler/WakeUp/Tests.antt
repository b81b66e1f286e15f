-- ===== src/Scheduler/WakeUp/Tests.antt =====
-- A wake-up job (src/scheduler/task/wake_up_device.rs) for a water meter that reports 77 litres.
use head_end_system_tpp.Prelude.{
  ℕ, zero, suc, ◌≡◌, ◌≤◌, ◌<◌, refl, arith, true, false, none, some, List, [], ◌∷◌,
}
use head_end_system_tpp.Prelude.Map
use head_end_system_tpp.Wire.BigEndian.{big_endian, digits, read_digits, split, value}
use head_end_system_tpp.Wire.{Outcome, read, copy, write, each}
use head_end_system_tpp.Wire as W
use head_end_system_tpp.Wire.Utf8.{is_utf8}
use head_end_system_tpp.Database.{ScheduledConnection, awaiting, lost}
use head_end_system_tpp.Database.InMemory as Db
use head_end_system_tpp.Scheduler.{Scheduler}
use head_end_system_tpp.Database.InMemory.{InnerDb}
use head_end_system_tpp.Messages.{
  Message, MsgType, MessagePayload, ObisValue, msg_type_from_code, msg_type_code,
}
use head_end_system_tpp.Messages as Types
use head_end_system_tpp.Messages.Rlp.Framed.{
  framed, leaves, contents, content, nth_item, head, as_content, as_number, count_items,
}
use head_end_system_tpp.Messages.Create as New
use head_end_system_tpp.Messages.Codec as C
use head_end_system_tpp.Messages.Payload as P
use head_end_system_tpp.Scheduler.WakeUp.{
  Peer, ok, err, Received, timed_out, datagram, exchange, recv_msg, decode_received, send_msg,
  finish, run_session, expect_handshake_response, expect_read_response, expect_write_response,
  obis_codes, write_parameters, needs_battery, max_retries_exceeded, io_error,
}
use head_end_system_tpp.Scheduler.WakeUp.Job.{run_wake_up, ip_of, finished, wake_up_job}
use head_end_system_tpp.Scheduler.WakeUp.Session.{Succeeds, exchange-Succeeds}
use head_end_system_tpp.Scheduler.WakeUp.Retries.{Fails, woken_at, run_wake_up-stops}
use head_end_system_tpp.Scheduler.WakeUp.GivenUp.{wake_up_job-gives_up}

abbrev values : List ObisValue
values = record { code = 49 ∷ 46 ∷ 48 ∷ 46 ∷ 49 ∷ []; value = 77 ∷ [] } ∷ []

abbrev answer : MsgType → MessagePayload → Received
answer t p = datagram (
    C.codec_encode big_endian framed (record {
      version = 1;
      msg_type = t;
      device_id = 42;
      seq = 1;
      timestamp = 1700000000;
      payload = p;
      mac = 0;
    }))

receives : ℕ → Received
receives zero =
    answer MsgType.handshake_response (MessagePayload.handshake_response (record { status = 1 }))
receives (suc zero) =
    answer MsgType.read_response (MessagePayload.read_response (record { values = values }))
receives (suc (suc n)) =
    answer MsgType.write_response
      (MessagePayload.write_response (record { success = true; written_codes = [] }))

abbrev silent : Peer
silent = record {
  binds = true;
  connects = true;
  takes = λ seq. true;
  receives = λ seq. timed_out;
  clock = λ k. some 1700000000;
  utc_now = 0;
}

abbrev answering : Peer
answering = record silent { receives = receives }

abbrev packets : List (List ℕ)
packets = (exchange big_endian framed answering 42 false []).0

reads : exchange big_endian framed answering 42 false [] ≡ (packets, ok values)
unfolding receives exchange send_msg recv_msg decode_received expect_handshake_response
    expect_read_response expect_write_response obis_codes write_parameters digits read_digits split
    value is_utf8 W.◌>>=◌ read copy write W.each W.ensure msg_type_from_code msg_type_code
    Types.◌>>=◌ leaves contents content nth_item head as_content as_number count_items
    New.calculate_mac New.new_message New.new_handshake_message New.new_read_request_message
    New.new_write_request_message New.new_ack_message C.clear_on_err C.encode_message_payload
    C.decode_message_payload C.payload_len C.decode_fields C.too_short C.codec_decode C.codec_encode
    P.from_utf8 P.for_each P.as_u8 P.at P.bytes_at P.uint_at P.item_count P.code_at
    P.encode_handshake_response P.decode_handshake_response P.encode_read_response P.obis_value_at
    P.decode_read_response P.encode_write_response P.decode_write_response
reads = refl

exchange-Succeeds_example : Succeeds big_endian framed answering 42 false packets values
exchange-Succeeds_example =
    exchange-Succeeds big_endian framed answering 42 false packets values reads

-- Only the third attempt finds the device awake.
peers : ℕ → Peer
peers (suc (suc (suc n))) = answering
peers j = silent

abbrev tables : InnerDb
tables = record {
  devices = (42, record { id = 42; ipv4 = some (10 ∷ []); ipv6 = none; imei = none }) ∷ [];
  device_registration = [];
  buckets = [];
  scheduled_connections = [];
}

abbrev IsBad : (ℕ → Peer) → ℕ → Type 0
IsBad peers = Fails big_endian framed peers 42 tables

silent_fails : (run_session big_endian framed silent 42 tables).2 ≡ err io_error
unfolding run_session finish needs_battery Db.get_scheduled_connection Map.get exchange send_msg
    recv_msg W.◌>>=◌ Types.◌>>=◌ New.calculate_mac New.new_message New.new_handshake_message
silent_fails = refl

answering_completes : (run_session big_endian framed answering 42 tables).2 ≡ ok tt
unfolding run_session finish needs_battery Db.get_scheduled_connection Map.get receives exchange
    send_msg recv_msg decode_received expect_handshake_response expect_read_response
    expect_write_response obis_codes write_parameters digits read_digits split value is_utf8 W.◌>>=◌
    read copy write W.each W.ensure msg_type_from_code msg_type_code Types.◌>>=◌ leaves contents
    content nth_item head as_content as_number count_items New.calculate_mac New.new_message
    New.new_handshake_message New.new_read_request_message New.new_write_request_message
    New.new_ack_message C.clear_on_err C.encode_message_payload C.decode_message_payload
    C.payload_len C.decode_fields C.too_short C.codec_decode C.codec_encode P.from_utf8 P.for_each
    P.as_u8 P.at P.bytes_at P.uint_at P.item_count P.code_at P.encode_handshake_response
    P.decode_handshake_response P.encode_read_response P.obis_value_at P.decode_read_response
    P.encode_write_response P.decode_write_response
answering_completes = refl

run_wake_up-stops_example :
    run_wake_up big_endian framed peers true 42 tables
    ≡ woken_at big_endian framed peers 42 tables true 3
unfolding peers Db.get_device Map.get ip_of
run_wake_up-stops_example =
    run_wake_up-stops big_endian framed peers 42 tables true
      (record { id = 42; ipv4 = some (10 ∷ []); ipv6 = none; imei = none }) (10 ∷ []) 3 refl refl
      (omega arith) (omega arith) bad answering_completes
  where
    bad : (j : ℕ) → 1 ≤ j → j < 3 → IsBad peers j
    bad zero low high = (io_error, silent_fails)
    bad (suc zero) low high = (io_error, silent_fails)
    bad (suc (suc zero)) low high = (io_error, silent_fails)
    bad (suc (suc (suc j))) low high = absurd (omega arith)

-- The connection of the device, with the job 7.
abbrev planned : ScheduledConnection
planned = record {
  fk_device = 42;
  status = awaiting;
  schedule_time = 60;
  renewable = true;
  job_id = some 7;
  connection_time = none;
  last_battery_read = none;
}

abbrev scheduler : Scheduler
scheduler = record {
  bucket_number = 24;
  database = record tables { scheduled_connections = (42, planned) ∷ [] };
  owned_devices = none;
  local_node_id = 1;
  test_mode = false;
  active_tasks = [];
  jobs = (7, (42, 60)) ∷ [];
}

abbrev silent_job : Scheduler
silent_job =
    wake_up_job (λ db. finished (run_wake_up big_endian framed (λ j. silent) true 42 db)) 42 3
      scheduler

still_fails : (run_session big_endian framed silent 42 scheduler.database).2 ≡ err io_error
unfolding run_session finish needs_battery Db.get_scheduled_connection Map.get exchange send_msg
    recv_msg W.◌>>=◌ Types.◌>>=◌ New.calculate_mac New.new_message New.new_handshake_message
still_fails = refl

wake_up_job-gives_up_example :
    (run_wake_up big_endian framed (λ j. silent) true 42 scheduler.database ≡ record {
      database = scheduler.database;
      rescheduled = [];
      attempts = 5;
      pauses = 4;
      result = err max_retries_exceeded;
    })
    × (Map.get 42 silent_job.database.scheduled_connections
        ≡ some (record planned { status = lost; renewable = false; job_id = none }))
    × (Map.get 42 silent_job.active_tasks ≡ none)
    × (record silent_job {
      database = record (silent_job.database) {
        scheduled_connections = scheduler.database.scheduled_connections;
      };
      active_tasks = [];
    }
        ≡ scheduler)
unfolding Db.get_device Db.get_scheduled_connection Db.ok_or_missing Map.get ip_of
wake_up_job-gives_up_example =
    wake_up_job-gives_up big_endian framed (λ j. silent) true 42 42 3 scheduler
      (record { id = 42; ipv4 = some (10 ∷ []); ipv6 = none; imei = none }) (10 ∷ []) planned refl
      refl refl refl (λ k low high. (io_error, still_fails))
