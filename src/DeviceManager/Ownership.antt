-- ===== src/DeviceManager/Ownership.antt =====
-- How a node comes to own devices (src/device_manager/device_manager.rs): loading and claiming, and
-- taking over those of a node that failed.
use head_end_system_tpp.Prelude.{
  ℕ, suc, ◌%◌, none, some, List, [], ◌∷◌, ◌++◌, ◌==◌, leb, if◌then◌else◌, length, get_elem?,
}
use head_end_system_tpp.Database.InMemory as Db
use head_end_system_tpp.DeviceManager.{
  DeviceManager, Manager, ok, panic, ◌>>=◌, ◌>>◌, return, fail, no_nodes_available, ask, store, own,
  change,
}

-- `owned_devices.clear()`, and inserting what was found.
unfoldable pub own_each : List ℕ → DeviceManager → DeviceManager
unfolding own
own_each [] s = s
own_each (d ∷ ds) s = own_each ds (own d s)

unfoldable pub load_from_database : Manager (Unit {0})
unfolding ask own_each ◌>>=◌
load_from_database s =
    (ask (Db.get_devices_by_owner s.local_node_id) >>= λ devices.
    change (λ t. own_each devices (record t { owned_devices = [] })))
      s

-- The database and the owned set take up a device.
unfoldable pub claim : ℕ → ℕ → Manager (Unit {0})
unfolding store own ◌>>=◌
claim node d = do store (Db.set_device_owner d node); change (own d)

unfoldable pub claim_each : ℕ → List ℕ → Manager (Unit {0})
unfolding claim ◌>>=◌
claim_each node [] = return tt
claim_each node (d ∷ ds) = claim node d >> claim_each node ds

-- `Uuid::nil()` owns what no node does. An empty list is returned as it is.
unfoldable pub claim_unassigned_devices : Manager (List ℕ)
unfolding ask claim_each ◌>>=◌
claim_unassigned_devices s =
    (ask (Db.get_devices_by_owner 0) >>= λ all_devices.
    claim_each s.local_node_id all_devices >> return all_devices)
      s

unfoldable pub claim_all_devices : Manager (List ℕ)
unfolding ask claim_each ◌>>=◌
claim_all_devices s =
    (ask Db.get_all_device_ids >>= λ all_devices.
    claim_each s.local_node_id all_devices >> return all_devices)
      s

-- `sort_by_key` by the count of devices, which keeps the order of equal counts.
unfoldable pub insert_by_count : ℕ × ℕ → List (ℕ × ℕ) → List (ℕ × ℕ)
insert_by_count node [] = node ∷ []
insert_by_count node (n ∷ ns) =
    if leb node.1 n.1 then node ∷ n ∷ ns else n ∷ insert_by_count node ns

unfoldable pub sort_by_count : List (ℕ × ℕ) → List (ℕ × ℕ)
unfolding insert_by_count
sort_by_count [] = []
sort_by_count (n ∷ ns) = insert_by_count n (sort_by_count ns)

-- `all_nodes`: the other active nodes and this one, the least loaded first.
unfoldable pub all_nodes : List (ℕ × ℕ) → DeviceManager → List (ℕ × ℕ)
unfolding sort_by_count
all_nodes others s = sort_by_count (others ++ (s.local_node_id, length s.owned_devices) ∷ [])

-- A device goes to a node, and into the owned set if that is this node.
unfoldable pub give_orphan : ℕ → ℕ → ℕ → Manager (Unit {0})
unfolding store own ◌>>=◌
give_orphan node target d = do
  store (Db.set_device_owner d target)
  change (λ t. if target == node then own d t else t)

-- The loop over the orphans, at the index `i`.
unfoldable pub redistribute_each : ℕ → List (ℕ × ℕ) → ℕ → List ℕ → Manager (Unit {0})
unfolding give_orphan ◌>>=◌
redistribute_each node nodes i [] = return tt
redistribute_each node nodes i (d ∷ ds) = elim (get_elem? nodes (i % length nodes)) [
  | none ↦ λ s. (s, panic)
  | some (target, count) ↦ give_orphan node target d >> redistribute_each node nodes (suc i) ds
]

unfoldable pub redistribute_over : List ℕ → List (ℕ × ℕ) → Manager (Unit {0})
unfolding redistribute_each
redistribute_over orphaned [] s = fail no_nodes_available s
redistribute_over orphaned (n ∷ ns) s = redistribute_each s.local_node_id (n ∷ ns) 0 orphaned s

-- What follows the search for the orphans.
unfoldable pub after_search : List (ℕ × ℕ) → List ℕ → Manager (Unit {0})
unfolding all_nodes redistribute_over
after_search others [] s = (s, ok tt)
after_search others (d ∷ ds) s = redistribute_over (d ∷ ds) (all_nodes others s) s

unfoldable pub redistribute_from_failed : ℕ → List (ℕ × ℕ) → Manager (Unit {0})
unfolding ask after_search ◌>>=◌
redistribute_from_failed failed others = do
  orphaned ← ask (Db.get_devices_by_owner failed)
  after_search others orphaned
