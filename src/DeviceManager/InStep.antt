-- ===== src/DeviceManager/InStep.antt =====
-- That the owned set and the database agree, whatever the manager does
-- (src/device_manager/device_manager.rs).
pub mod Planned
pub mod Shed
use head_end_system_tpp.Prelude.{
  ℕ, zero, suc, ◌%◌, ◌≡◌, ◌≢◌, refl, sym, ◌∙◌, ap, arith, Bool, true, false, Option, none, some,
  List, [], ◌∷◌, ◌==◌, ==_iff, if◌then◌else◌, length, get_elem?, All, map-All, all_of_Memᴰ, ◌⊎◌,
  Bool-cases, Option-cases, inl, inr, leb, take, filter,
}
use head_end_system_tpp.Prelude.Map
use head_end_system_tpp.Prelude.Map.{Map, IsDistinct, insert-IsDistinct}
use head_end_system_tpp.Database.{ℤ, Device}
use head_end_system_tpp.Database.InMemory as Db
use head_end_system_tpp.Database.InMemory.{InnerDb, owned_by}
use head_end_system_tpp.Database.InMemory.Ownership.{owned_by→}
use head_end_system_tpp.Database as DbTypes
use head_end_system_tpp.Scheduler as S
use head_end_system_tpp.Scheduler.{Scheduler, Chrono, next_wakeup}
use head_end_system_tpp.Scheduler.Devices as D
use head_end_system_tpp.Scheduler.Jobs.{contains-put}
use mathlib.Core.Option
use head_end_system_tpp.DeviceManager.{
  DeviceManager, Result, ok, Manager, own, disown, return, ◌>>=◌,
}
use head_end_system_tpp.DeviceManager as M
use head_end_system_tpp.DeviceManager.Ownership as O
use head_end_system_tpp.DeviceManager.Delegate as G
use head_end_system_tpp.DeviceManager.Rebalance as R
use head_end_system_tpp.DeviceManager.Owned.{
  owner_of, is_node, db_owns, HasBucket, moved, owner_of-set_device_owner, IsInStep,
  own-moved-IsInStep, moved-IsInStep, disown-moved-IsInStep, moved-HasBucket,
}
use head_end_system_tpp.DeviceManager.Redistribute.{
  Distinct, owned_by-Distinct, owned_by-All, others-moved, given, given-same,
  redistribute_each_step, stuck,
}

-- The rest starts with what the first part establishes; an error of the first part leaves that.
module _ {A B : Type 0} (P Q : DeviceManager → Type 0) (f : A → Manager B) where
  pub continue_then :
      (r : Result A) (s : DeviceManager)
      → P s
      → ((t : DeviceManager) → P t → Q t)
      → ((a : A) (t : DeviceManager) → P t → Q (f a t).0)
      → Q (M.continue r f s).0
  continue_then (ok a) s p weaker rest = rest a s p
  continue_then (Result.err e) s p weaker rest = weaker s p
  continue_then Result.panic s p weaker rest = weaker s p

  pub bind_then :
      (m : Manager A) (s : DeviceManager)
      → P (m s).0
      → ((t : DeviceManager) → P t → Q t)
      → ((a : A) (t : DeviceManager) → P t → Q (f a t).0)
      → Q ((m >>= f) s).0
  unfolding ◌>>=◌
  bind_then m s p weaker rest = continue_then (m s).1 (m s).0 p weaker rest

pub bind_keeps :
    {A B : Type 0} (P : DeviceManager → Type 0) (f : A → Manager B) (m : Manager A)
    (s : DeviceManager)
    → P (m s).0
    → ((a : A) (t : DeviceManager) → P t → P (f a t).0)
    → P ((m >>= f) s).0
bind_keeps P f m s p keeps = bind_then P P f m s p (λ t q. q) keeps

pub claim_lem :
    (node d : ℕ) (s : DeviceManager) → O.claim node d s ≡ (own d (moved d node s), ok tt)
unfolding O.claim Db.set_device_owner
claim_lem node d s = refl

pub claim_each-IsInStep :
    (ds : List ℕ) (s : DeviceManager)
    → All (λ d. HasBucket d s.scheduler.database) ds
    → IsInStep s
    → IsInStep (O.claim_each s.local_node_id ds s).0
unfolding O.claim_each ◌>>=◌
claim_each-IsInStep [] s have inv = inv
claim_each-IsInStep (d ∷ ds) s have inv = rw (claim_lem s.local_node_id d s) (
    claim_each-IsInStep ds (own d (moved d s.local_node_id s))
      (map-All _ _ (λ a h. moved-HasBucket a d s.local_node_id s h) ds have.1)
      (own-moved-IsInStep d s have.0 inv))

given-IsInStep :
    (target d failed : ℕ) (s : DeviceManager)
    → failed ≢ s.local_node_id
    → owner_of d s.scheduler.database ≡ some failed
    → IsInStep s
    → IsInStep (given s.local_node_id target d s)
given-IsInStep target d failed s other orphan inv = elim (Bool-cases (target == s.local_node_id)) [
  | inl mine ↦
      rw (mine, (==_iff target s.local_node_id).0 mine)
        (own-moved-IsInStep d s (failed, orphan) inv)
  | inr others ↦
      rw others (moved-IsInStep d target s (ground arith) (ground (arith, inv.agree d, orphan)) inv)
]

redistribute_each-IsInStep :
    (nodes : List (ℕ × ℕ)) (i failed node : ℕ) (ds : List ℕ) (s : DeviceManager)
    → node ≡ s.local_node_id
    → failed ≢ node
    → Distinct ds
    → All (λ d. owner_of d s.scheduler.database ≡ some failed) ds
    → IsInStep s
    → IsInStep (O.redistribute_each node nodes i ds s).0
redistribute_each-IsInStep nodes i failed node [] s here other distinct orphans inv =
    unfold O.redistribute_each in inv
redistribute_each-IsInStep nodes i failed node (d ∷ ds) s here other distinct orphans inv =
    elim (Option-cases (get_elem? nodes (i % length nodes))) [
      | inl none_left ↦ rw (stuck node i d nodes ds s none_left) inv
      | inr ((target, count), found) ↦
          let same = given-same node target d s in
          rw (redistribute_each_step node target count i d nodes ds s found) (
            redistribute_each-IsInStep nodes (suc i) failed node ds (given node target d s)
              (here ∙ sym same.0) other distinct.1
              (rw same.1 (others-moved d target (some failed) s ds distinct.0 orphans.1))
              (rw here (given-IsInStep target d failed s (rw here at other) orphans.0 inv)))
    ]

redistribute_over-IsInStep :
    (failed : ℕ) (ds : List ℕ) (nodes : List (ℕ × ℕ)) (s : DeviceManager)
    → failed ≢ s.local_node_id
    → Distinct ds
    → All (λ d. owner_of d s.scheduler.database ≡ some failed) ds
    → IsInStep s
    → IsInStep (O.redistribute_over ds nodes s).0
unfolding O.redistribute_over
redistribute_over-IsInStep failed ds [] s other distinct orphans inv = inv
redistribute_over-IsInStep failed ds (n ∷ ns) s other distinct orphans inv =
    redistribute_each-IsInStep (n ∷ ns) 0 failed s.local_node_id ds s refl other distinct orphans
      inv

pub redistribute_from_failed-IsInStep :
    (failed : ℕ) (others : List (ℕ × ℕ)) (s : DeviceManager)
    → failed ≢ s.local_node_id
    → IsInStep s
    → IsInStep (O.redistribute_from_failed failed others s).0
unfolding O.redistribute_from_failed M.ask ◌>>=◌ Db.get_devices_by_owner
redistribute_from_failed-IsInStep failed others s other inv =
    found (owned_by failed s.scheduler.database.buckets)
      (owned_by-Distinct failed s.scheduler.database.buckets inv.distinct)
      (owned_by-All failed s.scheduler.database inv.distinct)
  where
    found :
        (ds : List ℕ)
        → Distinct ds
        → All (λ d. owner_of d s.scheduler.database ≡ some failed) ds
        → IsInStep (O.after_search others ds s).0
    found [] distinct orphans = inv
    found (d ∷ ds) distinct orphans =
        redistribute_over-IsInStep failed (d ∷ ds) (O.all_nodes others s) s other distinct orphans
          inv

contains-owned_by :
    (node j : ℕ) (m : Map (ℤ × ℕ))
    → IsDistinct m
    → D.contains j (owned_by node m) ≡ is_node node (Option.map (λ (e : ℤ × ℕ). e.1) (Map.get j m))
unfolding owned_by Map.get D.contains
contains-owned_by node j [] d = refl
contains-owned_by node j ((k, (b, owner)) ∷ m) d =
    ground (arith, contains-owned_by node j m d.1, ==_iff k j, d.0)

contains-own_each :
    (j : ℕ) (ds : List ℕ) (s : DeviceManager)
    → D.contains j (O.own_each ds s).owned_devices
      ≡ (if D.contains j ds then true else D.contains j s.owned_devices)
unfolding O.own_each own D.contains
contains-own_each j [] s = refl
contains-own_each j (d ∷ ds) s =
    ground (arith, contains-own_each j ds (own d s), contains-put j d s.owned_devices)

own_each-same :
    (ds : List ℕ) (s : DeviceManager)
    → ((O.own_each ds s).scheduler ≡ s.scheduler)
      × ((O.own_each ds s).local_node_id ≡ s.local_node_id)
unfolding O.own_each own
own_each-same [] s = (refl, refl)
own_each-same (d ∷ ds) s = own_each-same ds (own d s)

pub load_from_database-IsInStep :
    (s : DeviceManager)
    → s.scheduler.local_node_id ≡ s.local_node_id
    → IsDistinct s.scheduler.database.buckets
    → IsInStep (O.load_from_database s).0
unfolding O.load_from_database M.ask ◌>>=◌ Db.get_devices_by_owner
load_from_database-IsInStep s same distinct =
    let ds = owned_by s.local_node_id s.scheduler.database.buckets in
    let cleared = record s { owned_devices = [] } in
    let kept = own_each-same ds cleared in
    record {
      agree = λ j.
          rw (contains-own_each j ds cleared, kept.0, kept.1)
            (rw (contains-owned_by s.local_node_id j s.scheduler.database.buckets distinct)
              (unfold D.contains in ground arith));
      same_node = rw (kept.0, kept.1) same;
      distinct = rw kept.0 distinct;
    }

pub claim_unassigned_devices-IsInStep :
    (s : DeviceManager) → IsInStep s → IsInStep (O.claim_unassigned_devices s).0
unfolding O.claim_unassigned_devices M.ask ◌>>=◌ Db.get_devices_by_owner
claim_unassigned_devices-IsInStep s inv =
    bind_keeps IsInStep (λ (done : Unit {0}). return (owned_by 0 s.scheduler.database.buckets))
      (O.claim_each s.local_node_id (owned_by 0 s.scheduler.database.buckets)) s
      (claim_each-IsInStep (owned_by 0 s.scheduler.database.buckets) s
        (map-All _ _ (λ a h. (0, h)) _ (owned_by-All 0 s.scheduler.database inv.distinct)) inv)
      (λ a t p. p)

pub claim_all_devices-IsInStep :
    (s : DeviceManager)
    → All (λ d. HasBucket d s.scheduler.database) (Map.keys s.scheduler.database.devices)
    → IsInStep s
    → IsInStep (O.claim_all_devices s).0
unfolding O.claim_all_devices M.ask ◌>>=◌ Db.get_all_device_ids
claim_all_devices-IsInStep s have inv =
    bind_keeps IsInStep (λ (done : Unit {0}). return (Map.keys s.scheduler.database.devices))
      (O.claim_each s.local_node_id (Map.keys s.scheduler.database.devices)) s
      (claim_each-IsInStep (Map.keys s.scheduler.database.devices) s have inv) (λ a t p. p)
