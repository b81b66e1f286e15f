-- ===== src/DeviceManager/Dealt.antt =====
-- Which node gets which device of a node that failed
-- (src/device_manager/device_manager.rs).
use head_end_system_tpp.Prelude.{
  ℕ, zero, suc, ◌+◌, ◌%◌, ◌<◌, ◌≡◌, refl, ap, ◌∙◌, arith, false, Option, some, List, [], ◌∷◌, ◌++◌,
  ◌==◌, if◌then◌else◌, length, length-append, get_elem?, All,
}
use head_end_system_tpp.Prelude.Map.{IsDistinct}
use head_end_system_tpp.Database.InMemory as Db
use head_end_system_tpp.Database.InMemory.{InnerDb, owned_by}
use head_end_system_tpp.Scheduler.Devices as D
use head_end_system_tpp.DeviceManager.{DeviceManager, Result, ok, ◌>>=◌}
use head_end_system_tpp.DeviceManager as M
use head_end_system_tpp.DeviceManager.Ownership as O
use head_end_system_tpp.DeviceManager.ByCount.{IsByCount, all_nodes_lem}
use head_end_system_tpp.DeviceManager.Owned.{owner_of, owner_of-set_device_owner}
use head_end_system_tpp.DeviceManager.Redistribute.{
  Distinct, owned_by-Distinct, owned_by-All, others-moved, given, given-same,
  redistribute_each_step,
}
use mathlib.Core.List.{Perm}
use mathlib.Core.Option

found_below :
    {A : Type 0} (xs : List A) (i : ℕ) → i < length xs → (x : A) × (get_elem? xs i ≡ some x)
found_below [] i h = absurd (omega arith)
found_below (x ∷ xs) zero h = (x, refl)
found_below (x ∷ xs) (suc i) h = found_below xs i (omega arith)

pub mod_below : (i n : ℕ) → 0 < n → i % n < n
mod_below i n h = grind arith

abbrev pub id_of : ℕ × ℕ → ℕ
id_of node = node.0

-- The node whose turn it is at an index.
abbrev pub turn_of : List (ℕ × ℕ) → ℕ → Option ℕ
turn_of nodes i = Option.map id_of (get_elem? nodes (i % length nodes))

given-owner_of :
    (j node target d : ℕ) (s : DeviceManager)
    → owner_of j (given node target d s).scheduler.database ≡ (
        if d == j
        then Option.map (λ o. target) (owner_of j s.scheduler.database)
        else owner_of j s.scheduler.database)
given-owner_of j node target d s =
    rw (given-same node target d s).1 (owner_of-set_device_owner j d target s.scheduler.database)

-- What the loop over the orphans promises from the index `i` on.
abbrev IsDealt : List (ℕ × ℕ) → ℕ → List ℕ → InnerDb → DeviceManager × Result (Unit {0}) → Type 0
IsDealt nodes i ds db (t, r) =
    (r ≡ ok tt)
    × ((k d : ℕ)
        → get_elem? ds k ≡ some d
        → owner_of d t.scheduler.database ≡ turn_of nodes (i + k))
    × ((j : ℕ) → D.contains j ds ≡ false → owner_of j t.scheduler.database ≡ owner_of j db)

dealt_cons :
    (owner : ℕ → Option ℕ) (nodes : List (ℕ × ℕ)) (i d : ℕ) (ds : List ℕ)
    → owner d ≡ turn_of nodes i
    → ((k e : ℕ) → get_elem? ds k ≡ some e → owner e ≡ turn_of nodes (suc i + k))
    → (k e : ℕ) → get_elem? (d ∷ ds) k ≡ some e
    → owner e ≡ turn_of nodes (i + k)
dealt_cons owner nodes i d ds first rest zero e h =
    let start : i + 0 ≡ i = omega arith in
    let same : d ≡ e = ground (arith, h) in rw (start, ← same) first
dealt_cons owner nodes i d ds first rest (suc k) e h =
    let shift : i + suc k ≡ suc i + k = omega arith in rw shift (rest k e h)

redistribute_each_lem :
    (nodes : List (ℕ × ℕ)) (failed node i : ℕ) (ds : List ℕ) (s : DeviceManager)
    → 0 < length nodes
    → Distinct ds
    → All (λ d. owner_of d s.scheduler.database ≡ some failed) ds
    → IsDealt nodes i ds s.scheduler.database (O.redistribute_each node nodes i ds s)
unfolding D.contains
redistribute_each_lem nodes failed node i [] s some_nodes distinct have =
    unfold O.redistribute_each in (refl, λ k d h. cc, λ j h. refl)
redistribute_each_lem nodes failed node i (d ∷ ds) s some_nodes distinct have =
    let ((target, count), found) =
      found_below nodes (i % length nodes) (mod_below i (length nodes) some_nodes) in
    let t = given node target d s in
    let (returns, dealt, kept) =
      redistribute_each_lem nodes failed node (suc i) ds t some_nodes distinct.1 (
        rw (given-same node target d s).1
          (others-moved d target (some failed) s ds distinct.0 have.1)) in
    rw (redistribute_each_step node target count i d nodes ds s found) (
      returns,
      dealt_cons
          (λ e. owner_of e (O.redistribute_each node nodes (suc i) ds t).0.scheduler.database) nodes
          i d ds (kept d distinct.0 ∙ first_owner found) dealt,
      λ j absent. kept j (later j absent) ∙ unmoved target j absent,
    )
  where
    first_owner :
        {target count : ℕ}
        → get_elem? nodes (i % length nodes) ≡ some (target, count)
        → owner_of d (given node target d s).scheduler.database ≡ turn_of nodes i
    first_owner {target} found = rw found (ground (arith, given-owner_of d node target d s, have.0))

    later : (j : ℕ) → D.contains j (d ∷ ds) ≡ false → D.contains j ds ≡ false
    later j absent = ground (arith, absent)

    unmoved :
        (target j : ℕ)
        → D.contains j (d ∷ ds) ≡ false
        → owner_of j (given node target d s).scheduler.database ≡ owner_of j s.scheduler.database
    unmoved target j absent = ground (arith, absent, given-owner_of j node target d s)

insert-some : (n : ℕ × ℕ) (ns : List (ℕ × ℕ)) → 0 < length (O.insert_by_count n ns)
unfolding O.insert_by_count
insert-some n [] = omega arith
insert-some n (m ∷ ms) = ground arith

sort-some : (ns : List (ℕ × ℕ)) → 0 < length ns → 0 < length (O.sort_by_count ns)
unfolding O.sort_by_count
sort-some [] h = h
sort-some (n ∷ ns) h = insert-some n (O.sort_by_count ns)

pub all_nodes-some : (others : List (ℕ × ℕ)) (s : DeviceManager) → 0 < length (O.all_nodes others s)
unfolding O.all_nodes
all_nodes-some others s =
    sort-some (others ++ (s.local_node_id, length s.owned_devices) ∷ [])
      (omega (arith, length-append others ((s.local_node_id, length s.owned_devices) ∷ [])))

redistribute_over_lem :
    (nodes : List (ℕ × ℕ)) (failed : ℕ) (ds : List ℕ) (s : DeviceManager)
    → 0 < length nodes
    → Distinct ds
    → All (λ d. owner_of d s.scheduler.database ≡ some failed) ds
    → IsDealt nodes 0 ds s.scheduler.database (O.redistribute_over ds nodes s)
unfolding O.redistribute_over
redistribute_over_lem [] failed ds s h distinct have = absurd (omega arith)
redistribute_over_lem (n ∷ ns) failed ds s h distinct have =
    redistribute_each_lem (n ∷ ns) failed s.local_node_id 0 ds s h distinct have

-- The devices of a node, in the order in which the database lists them.
abbrev pub orphans : ℕ → DeviceManager → List ℕ
orphans failed s = owned_by failed s.scheduler.database.buckets

abbrev pub after_failure : ℕ → List (ℕ × ℕ) → DeviceManager → InnerDb
after_failure failed others s = (O.redistribute_from_failed failed others s).0.scheduler.database

pub dealt_by_all_nodes :
    (failed : ℕ) (others : List (ℕ × ℕ)) (s : DeviceManager)
    → IsDistinct s.scheduler.database.buckets
    → ((O.redistribute_from_failed failed others s).1 ≡ ok tt)
      × ((k d : ℕ)
          → get_elem? (orphans failed s) k ≡ some d
          → owner_of d (after_failure failed others s) ≡ turn_of (O.all_nodes others s) k)
      × ((j : ℕ)
          → D.contains j (orphans failed s) ≡ false
          → owner_of j (after_failure failed others s) ≡ owner_of j s.scheduler.database)
unfolding O.redistribute_from_failed M.ask ◌>>=◌ Db.get_devices_by_owner
dealt_by_all_nodes failed others s distinct =
    let (returns, dealt, kept) =
      search (orphans failed s) (owned_by-Distinct failed s.scheduler.database.buckets distinct)
        (owned_by-All failed s.scheduler.database distinct) in
    (returns, λ k d h. dealt k d h ∙ ap (turn_of (O.all_nodes others s)) (omega arith), kept)
  where
    search :
        (ds : List ℕ)
        → Distinct ds
        → All (λ d. owner_of d s.scheduler.database ≡ some failed) ds
        → IsDealt (O.all_nodes others s) 0 ds s.scheduler.database (O.after_search others ds s)
    search [] once have = (refl, λ k d h. cc, λ j h. refl)
    search (d ∷ ds) once have =
        redistribute_over_lem (O.all_nodes others s) failed (d ∷ ds) s (all_nodes-some others s)
          once have

-- When a node fails, its devices are dealt out in turn to the other active nodes and this one, in an
-- order in which no node owns more devices than a later one: the call succeeds, the device at place
-- `k` belongs to the node at place `k` modulo the number of nodes afterwards, and the owner of every
-- other device is as it was. No device stands twice in the table of the buckets.
pub redistribute_from_failed_lem :
    (failed : ℕ) (others : List (ℕ × ℕ)) (s : DeviceManager)
    → IsDistinct s.scheduler.database.buckets
    → (nodes : List (ℕ × ℕ)) × IsByCount nodes
      × Perm nodes (others ++ (s.local_node_id, length s.owned_devices) ∷ [])
      × ((O.redistribute_from_failed failed others s).1 ≡ ok tt)
      × ((k d : ℕ)
          → get_elem? (orphans failed s) k ≡ some d
          → owner_of d (after_failure failed others s)
            ≡ Option.map (λ (n : ℕ × ℕ). n.0) (get_elem? nodes (k % length nodes)))
      × ((j : ℕ)
          → D.contains j (orphans failed s) ≡ false
          → owner_of j (after_failure failed others s) ≡ owner_of j s.scheduler.database)
redistribute_from_failed_lem failed others s distinct =
    let (sorted, same) = all_nodes_lem others s in
    let (returns, dealt, kept) = dealt_by_all_nodes failed others s distinct in
    (O.all_nodes others s, sorted, same, returns, dealt, kept)
