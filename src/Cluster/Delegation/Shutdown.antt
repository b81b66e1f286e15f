-- ===== src/Cluster/Delegation/Shutdown.antt =====
-- The delegation of all devices of a node that shuts down (src/cluster/delegation.rs).
pub mod Chunks
pub mod Partition
pub mod Ordered
use head_end_system_tpp.Prelude.{
  ℕ, zero, suc, ◌+◌, ◌-◌, ◌*◌, ◌/◌, ◌%◌, ◌≤◌, ◌<◌, ◌≡◌, refl, ap, ◌∙◌, arith, Option, none, some,
  List, [], ◌∷◌, ◌++◌, map, leb, if◌then◌else◌, length, get_elem?, take, drop, All, length-drop,
  length-take,
}
use head_end_system_tpp.Wire.{Bytes}
use head_end_system_tpp.Cluster.Address.{SocketAddr, AddrText}
use head_end_system_tpp.Cluster.Node.{NodeInfo, Float32}
use head_end_system_tpp.Cluster.Membership as M
use head_end_system_tpp.Cluster.Protocol.{DelegationReason}
use head_end_system_tpp.Cluster.Server.{World}
use head_end_system_tpp.Database as DbTypes
use head_end_system_tpp.Database.InMemory as Db
use head_end_system_tpp.Database.InMemory.{InnerDb}
use head_end_system_tpp.DeviceManager.Delegate.{
  DelegatedDevice, time_or_tomorrow, devices_for_shutdown,
}
use head_end_system_tpp.DeviceManager.Rebalance.{div_ceil}
use head_end_system_tpp.Cluster.Delegation.{
  Node, Log, silent, Handled, Result, ok, err, panic, no_nodes_available, database_error,
  request_delegation,
}

-- A device with its scheduled time, or a day from now where none is stored.
unfoldable pub prepare : ℕ → InnerDb → ℕ → Result DelegatedDevice
unfolding time_or_tomorrow
prepare now db id = elim (Db.get_device id db) [
  | DbTypes.Result.err e ↦ err (database_error e)
  | DbTypes.Result.ok device ↦ ok (record {
    device_id = device.id;
    ipv4 = device.ipv4;
    ipv6 = device.ipv6;
    schedule_time = time_or_tomorrow now (Db.get_scheduled_connection id db);
  })
]

infixl 5 ◌>>=◌
abbrev ◌>>=◌ : {A B : Type 0} → Result A → (A → Result B) → Result B
ok a >>= f = f a
err e >>= f = err e
panic >>= f = panic

unfoldable pub prepare_each : ℕ → InnerDb → List ℕ → Result (List DelegatedDevice)
unfolding prepare
prepare_each now db [] = ok []
prepare_each now db (id ∷ ids) = do d ← prepare now db id; ds ← prepare_each now db ids; ok (d ∷ ds)

-- `sort_by_key` by the count of devices.
unfoldable pub insert_by_devices : {F : Type 0} → NodeInfo F → List (NodeInfo F) → List (NodeInfo F)
insert_by_devices n [] = n ∷ []
insert_by_devices n (m ∷ ms) =
    if leb n.device_count m.device_count then n ∷ m ∷ ms else m ∷ insert_by_devices n ms

unfoldable pub sort_by_devices : {F : Type 0} → List (NodeInfo F) → List (NodeInfo F)
unfolding insert_by_devices
sort_by_devices [] = []
sort_by_devices (n ∷ ns) = insert_by_devices n (sort_by_devices ns)

-- `chunks(k)` with fuel for each device. A size of zero panics, which no caller asks for.
unfoldable pub chunks : {A : Type 0} → ℕ → ℕ → List A → List (List A)
chunks zero k xs = []
chunks (suc fuel) k [] = []
chunks (suc fuel) k (x ∷ xs) = take k (x ∷ xs) ∷ chunks fuel k (drop k (x ∷ xs))

module _ (bytes : Bytes) (text : AddrText) (f : Float32) (w : World) where
  -- The first request that fails ends the loop.
  unfoldable pub after_request :
      (Node f.F → Handled f.F (Unit {0})) → Handled f.F (List ℕ) → Handled f.F (Unit {0})
  after_request rest (node, log, err e) = (node, log, err e)
  after_request rest (node, log, panic) = (node, log, panic)
  after_request rest (node, log, ok ids) =
      let (node', log', result) = rest node in
      (
        node',
        record {
          datagrams = log.datagrams ++ log'.datagrams;
          delegations = log.delegations + log'.delegations;
        },
        result,
      )

  unfoldable pub request_each :
      List (NodeInfo f.F) → ℕ → List (List DelegatedDevice) → Node f.F → Handled f.F (Unit {0})
  unfolding after_request
  request_each targets i [] node = (node, silent, ok tt)
  request_each targets i (c ∷ cs) node = elim (get_elem? targets (i % length targets)) [
    | none ↦ (node, silent, panic)
    | some target ↦
        after_request (request_each targets (suc i) cs)
          (request_delegation bytes text f w c DelegationReason.shutdown (some target.node_id) node)
  ]

  unfoldable pub distribute :
      List DelegatedDevice → List (NodeInfo f.F) → Node f.F → Handled f.F (Unit {0})
  unfolding chunks request_each div_ceil
  distribute devices [] node = (node, silent, err no_nodes_available)
  distribute devices (t ∷ ts) node =
      request_each (t ∷ ts) 0
        (chunks (length devices) (div_ceil (length devices) (length (t ∷ ts))) devices) node

  unfoldable pub delegate_prepared :
      Result (List DelegatedDevice) → Node f.F → Handled f.F (Unit {0})
  unfolding distribute sort_by_devices
  delegate_prepared (err e) node = (node, silent, err e)
  delegate_prepared panic node = (node, silent, panic)
  delegate_prepared (ok devices) node =
      distribute devices (sort_by_devices (M.active_nodes node.membership)) node

  unfoldable pub shutdown_delegation : Node f.F → Handled f.F (Unit {0})
  unfolding prepare_each delegate_prepared devices_for_shutdown
  shutdown_delegation node = elim (devices_for_shutdown node.manager) [
    | [] ↦ (node, silent, ok tt)
    | id ∷ ids ↦
        delegate_prepared (prepare_each w.now node.manager.scheduler.database (id ∷ ids)) node
  ]
