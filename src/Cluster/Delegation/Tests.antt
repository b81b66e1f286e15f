-- ===== src/Cluster/Delegation/Tests.antt =====
-- Two nodes (src/cluster/delegation.rs) that hand devices over, and a node that shuts down.
use head_end_system_tpp.Prelude.{
  ℕ, ◌+◌, ◌-◌, ◌/◌, ◌≡◌, ◌≤◌, refl, arith, true, false, Option, none, some, List, [], ◌∷◌, map,
  length,
}
use head_end_system_tpp.Prelude.Map
use head_end_system_tpp.Wire.BigEndian.{big_endian}
use head_end_system_tpp.Database.{pos, Device}
use head_end_system_tpp.Database.InMemory as Db
use head_end_system_tpp.Database.InMemory.{InnerDb}
use head_end_system_tpp.Scheduler.Devices as D
use head_end_system_tpp.DeviceManager.{DeviceManager}
use head_end_system_tpp.DeviceManager.Delegate.{
  DelegatedDevice, devices_for_shutdown, time_or_tomorrow,
}
use head_end_system_tpp.DeviceManager.Owned.{IsInStep}
use head_end_system_tpp.DeviceManager.Accepted.{TakesJobs, ids_of}
use head_end_system_tpp.Cluster.Address.{AddrText}
use head_end_system_tpp.Cluster.Node.{NodeInfo, active, is_available}
use head_end_system_tpp.Cluster.Sample.{whole, seconds, loopback, node, members}
use head_end_system_tpp.Cluster.Membership as M
use head_end_system_tpp.Cluster.Protocol.{DelegationReason}
use head_end_system_tpp.Cluster.Protocol.Message
use head_end_system_tpp.Cluster.Protocol.Codec.{encode}
use head_end_system_tpp.Cluster.Server.{World, millis}
use head_end_system_tpp.Cluster.Delegation.{
  Node, ok, to_payload, can_accept, handle_delegation_request, handle_delegation_accept,
}
use head_end_system_tpp.Cluster.Delegation.Shutdown.{prepare_each, prepare, shutdown_delegation}
use head_end_system_tpp.Cluster.Delegation.Shutdown.Partition.{AreAsked}
use head_end_system_tpp.Cluster.Delegation.Shutdown.Ordered.{IsByDevices, shutdown_delegation_lem}
use head_end_system_tpp.Cluster.Delegation.Shutdown.Chunks.{concat, AreChunks}
use mathlib.Core.List.{Perm}
use head_end_system_tpp.Cluster.Delegation.Replies.{sees, handover-IsInStep}

abbrev text : AddrText
text = record { to_string = λ a. []; parse = λ s. some loopback }

abbrev world : World
world = record {
  now = seconds 99;
  takes = λ a p. true;
  refusal = λ k v. none;
  local_bucket_count = 24;
  device_count = 2;
  uuid_text = λ id. [];
}

abbrev tables : InnerDb
tables = record {
  devices = [];
  device_registration = [];
  buckets = (10, (pos 0, 1)) ∷ (11, (pos 1, 2)) ∷ (12, (pos 2, 1)) ∷ [];
  scheduled_connections = [];
}

abbrev manager : ℕ → List ℕ → DeviceManager
manager id owned = record {
  local_node_id = id;
  local_bucket_count = 24;
  owned_devices = owned;
  scheduler = record {
    bucket_number = 24;
    database = tables;
    owned_devices = some owned;
    local_node_id = id;
    test_mode = false;
    active_tasks = [];
    jobs = [];
  };
}

abbrev sender : Node ℕ
sender = record { membership = members; manager = manager 1 (10 ∷ 12 ∷ []) }

abbrev receiver : Node ℕ
receiver = record {
  membership = record members { local_node = node 2 active 0 };
  manager = manager 2 (11 ∷ []);
}

sender-IsInStep : IsInStep sender.manager
unfolding D.contains Map.get
sender-IsInStep = record {
  agree = λ j. ground arith;
  same_node = refl;
  distinct = (refl, (refl, (refl, tt)));
}

receiver-IsInStep : IsInStep receiver.manager
unfolding D.contains Map.get
receiver-IsInStep = record {
  agree = λ j. ground arith;
  same_node = refl;
  distinct = (refl, (refl, (refl, tt)));
}

abbrev handed : List DelegatedDevice
handed =
    record { device_id = 12; ipv4 = none; ipv6 = none; schedule_time = seconds 60 }
    ∷ record { device_id = 10; ipv4 = none; ipv6 = none; schedule_time = seconds 70 }
    ∷ []

abbrev adds : ℕ → ℕ → Option ℕ
adds id t = some id

adds-TakesJobs : TakesJobs adds
adds-TakesJobs id t = (id, refl)

abbrev from_timestamp : ℕ → Option ℕ
from_timestamp s = some (seconds s)

handover-IsInStep_example :
    let (receiver', log, result) =
      handle_delegation_request big_endian text whole world adds from_timestamp loopback
        (record { devices = map to_payload handed; reason = DelegationReason.shutdown })
        receiver in
    (result ≡ ok tt)
    × (log.datagrams
        ≡ (
          loopback,
          encode big_endian text (
              Message.delegate_accept
                (millis big_endian text whole world)
                receiver'.manager.local_node_id
                (M.next_seq receiver.membership).1
                (record { accepted_device_ids = ids_of handed })),
        )
          ∷ [])
    × IsInStep receiver'.manager
    × IsInStep
        (handle_delegation_accept
          (record { accepted_device_ids = ids_of handed })
          (sees receiver' sender)).0.manager
unfolding can_accept is_available Map.get
handover-IsInStep_example =
    handover-IsInStep big_endian text whole world adds from_timestamp loopback handed
      DelegationReason.shutdown sender receiver refl (λ target packet. refl) adds-TakesJobs
      (λ e. cc) refl ((1, refl), ((1, refl), tt)) sender-IsInStep receiver-IsInStep

abbrev meter : ℕ → Device
meter id = record { id = id; ipv4 = none; ipv6 = none; imei = none }

-- The sender with its two devices in the database.
abbrev stopping : Node ℕ
stopping = record sender {
  manager = record (manager 1 (10 ∷ 12 ∷ [])) {
    scheduler = record ((manager 1 (10 ∷ 12 ∷ [])).scheduler) {
      database = record tables { devices = (10, meter 10) ∷ (12, meter 12) ∷ [] };
    };
  };
}

abbrev prepared : List DelegatedDevice
prepared =
    record { device_id = 10; ipv4 = none; ipv6 = none; schedule_time = seconds 99 + seconds 86400 }
    ∷ record {
      device_id = 12;
      ipv4 = none;
      ipv6 = none;
      schedule_time = seconds 99 + seconds 86400;
    }
    ∷ []

shutdown_delegation_lem_example :
    (targets : List (NodeInfo ℕ)) × (cs : List (List DelegatedDevice)) × IsByDevices targets
    × Perm targets (node 2 active 80 ∷ [])
    × AreAsked big_endian text whole world targets cs stopping
        (shutdown_delegation big_endian text whole world stopping)
    × AreChunks ((2 + length targets - 1) / length targets) cs
    × (concat cs ≡ prepared)
    × (length cs ≤ length targets)
unfolding M.get_node Map.get Map.values prepare_each prepare devices_for_shutdown Db.get_device
    Db.get_scheduled_connection time_or_tomorrow Db.ok_or_missing
shutdown_delegation_lem_example =
    shutdown_delegation_lem big_endian text whole world prepared stopping refl (omega arith)
      (omega arith) (λ target packet. refl) (refl, tt)
