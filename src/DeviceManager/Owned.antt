-- ===== src/DeviceManager/Owned.antt =====
-- What the owned set and the database say of a device (src/device_manager/device_manager.rs), after
-- the writes that the operations share.
use head_end_system_tpp.Prelude.{
  ℕ, ◌≡◌, ◌≢◌, arith, Bool, false, Option, none, some, ◌==◌, ==_iff, if◌then◌else◌, Option-cases,
  inl, inr,
}
use head_end_system_tpp.Prelude.Map
use head_end_system_tpp.Prelude.Map.{Map, IsDistinct, modify-IsDistinct}
use head_end_system_tpp.Database.{ℤ}
use head_end_system_tpp.Database.InMemory as Db
use head_end_system_tpp.Database.InMemory.{InnerDb}
use head_end_system_tpp.Scheduler.Devices as D
use head_end_system_tpp.Scheduler.Jobs.{contains-put, contains-filter}
use head_end_system_tpp.DeviceManager.{DeviceManager, own, disown, with_database}
use mathlib.Core.Option

-- The owner of a device that has a bucket.
abbrev pub owner_of : ℕ → InnerDb → Option ℕ
owner_of j db = Option.map (λ (e : ℤ × ℕ). e.1) (Map.get j db.buckets)

abbrev pub is_node : ℕ → Option ℕ → Bool
is_node node none = false
is_node node (some owner) = owner == node

abbrev pub db_owns : ℕ → ℕ → InnerDb → Bool
db_owns node j db = is_node node (owner_of j db)

abbrev pub HasBucket : ℕ → InnerDb → Type 0
HasBucket j db = (owner : ℕ) × (owner_of j db ≡ some owner)

-- The write of an owner.
abbrev pub moved : ℕ → ℕ → DeviceManager → DeviceManager
moved d node s = with_database (Db.set_device_owner d node s.scheduler.database).0 s

pub owner_of-set_device_owner :
    (j d node : ℕ) (db : InnerDb)
    → owner_of j (Db.set_device_owner d node db).0
      ≡ (if d == j then Option.map (λ o. node) (owner_of j db) else owner_of j db)
unfolding Db.set_device_owner
owner_of-set_device_owner j d node db = elim (Option-cases (Map.get j db.buckets)) [
  | inl missing ↦
      ground (arith, missing, Map.get-modify j d (λ (e : ℤ × ℕ). (e.0, node)) db.buckets)
  | inr (e, known) ↦
      ground (arith, known, Map.get-modify j d (λ (e : ℤ × ℕ). (e.0, node)) db.buckets)
]

-- The owned set holds the devices whose owner in the database is this node, and no others. The
-- scheduler stands for the same node, and no device has two buckets.
pub record IsInStep (s : DeviceManager) : Type 0 where
  pub agree :
      (j : ℕ) → D.contains j s.owned_devices ≡ db_owns s.local_node_id j s.scheduler.database
  pub same_node : s.scheduler.local_node_id ≡ s.local_node_id
  pub distinct : IsDistinct s.scheduler.database.buckets

moved-IsDistinct :
    (d node : ℕ) (s : DeviceManager)
    → IsDistinct s.scheduler.database.buckets
    → IsDistinct (moved d node s).scheduler.database.buckets
unfolding Db.set_device_owner
moved-IsDistinct d node s = modify-IsDistinct d (λ e. (e.0, node)) s.scheduler.database.buckets

-- A device with a bucket that becomes this node's in the database and in the set.
pub own-moved-IsInStep :
    (d : ℕ) (s : DeviceManager)
    → HasBucket d s.scheduler.database
    → IsInStep s
    → IsInStep (own d (moved d s.local_node_id s))
unfolding own
own-moved-IsInStep d s (o, bucket) inv = record {
  same_node = inv.same_node;
  distinct = moved-IsDistinct _ _ s inv.distinct;
  agree = λ j. ground (
    arith,
    bucket,
    inv.agree j,
    contains-put j d s.owned_devices,
    owner_of-set_device_owner j d s.local_node_id s.scheduler.database,
    ==_iff d j,
  );
}

-- A device that another node gets, and that is not in the set.
pub moved-IsInStep :
    (d node : ℕ) (s : DeviceManager)
    → node ≢ s.local_node_id
    → D.contains d s.owned_devices ≡ false
    → IsInStep s
    → IsInStep (moved d node s)
moved-IsInStep d node s other absent inv = record {
  same_node = inv.same_node;
  distinct = moved-IsDistinct _ _ s inv.distinct;
  agree = λ j. elim (Option-cases (owner_of j s.scheduler.database)) [
    | inl missing ↦ ground (
      arith,
      missing,
      inv.agree j,
      owner_of-set_device_owner j d node s.scheduler.database,
      ==_iff d j,
    )
    | inr (o, known) ↦ ground (
      arith,
      known,
      inv.agree j,
      owner_of-set_device_owner j d node s.scheduler.database,
      ==_iff d j,
    )
  ];
}

-- A device that another node gets, and that leaves the set.
pub disown-moved-IsInStep :
    (d node : ℕ) (s : DeviceManager)
    → node ≢ s.local_node_id
    → IsInStep s
    → IsInStep (disown d (moved d node s))
unfolding disown
disown-moved-IsInStep d node s other inv = record {
  same_node = inv.same_node;
  distinct = moved-IsDistinct _ _ s inv.distinct;
  agree = λ j. elim (Option-cases (owner_of j s.scheduler.database)) [
    | inl missing ↦ ground (
      arith,
      missing,
      inv.agree j,
      contains-filter j d s.owned_devices,
      owner_of-set_device_owner j d node s.scheduler.database,
      ==_iff d j,
    )
    | inr (o, known) ↦ ground (
      arith,
      known,
      inv.agree j,
      contains-filter j d s.owned_devices,
      owner_of-set_device_owner j d node s.scheduler.database,
      ==_iff d j,
    )
  ];
}

-- A bucket stays when its owner changes.
pub moved-HasBucket :
    (j d node : ℕ) (s : DeviceManager)
    → HasBucket j s.scheduler.database
    → HasBucket j (moved d node s).scheduler.database
moved-HasBucket j d node s (o, bucket) = (
  if d == j then node else o,
  ground (arith, bucket, owner_of-set_device_owner j d node s.scheduler.database),
)
