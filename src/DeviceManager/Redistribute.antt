-- ===== src/DeviceManager/Redistribute.antt =====
-- The devices of a node that failed, one by one (src/device_manager/device_manager.rs).
use head_end_system_tpp.Prelude.{
  ℕ, suc, ◌%◌, ◌≡◌, refl, arith, false, Option, none, some, List, [], ◌∷◌, ◌==◌, ==_iff,
  if◌then◌else◌, length, get_elem?, All, all_of_Memᴰ, Bool-cases, inl, inr,
}
use head_end_system_tpp.Prelude.Map
use head_end_system_tpp.Prelude.Map.{Map, IsDistinct}
use head_end_system_tpp.Database.{ℤ}
use head_end_system_tpp.Database.InMemory as Db
use head_end_system_tpp.Database.InMemory.{InnerDb, owned_by}
use head_end_system_tpp.Database.InMemory.Ownership.{owned_by→}
use head_end_system_tpp.Scheduler.Devices as D
use head_end_system_tpp.DeviceManager.{DeviceManager, ok, own, ◌>>=◌}
use head_end_system_tpp.DeviceManager.Ownership as O
use head_end_system_tpp.DeviceManager.Owned.{owner_of, moved, owner_of-set_device_owner}

-- The devices are those of a list, each once.
abbrev pub Distinct : List ℕ → Type 0
Distinct [] = Unit {0}
Distinct (d ∷ ds) = (D.contains d ds ≡ false) × Distinct ds

absent-owned_by :
    (node j : ℕ) (m : Map (ℤ × ℕ)) → Map.get j m ≡ none → D.contains j (owned_by node m) ≡ false
unfolding owned_by Map.get D.contains
absent-owned_by node j [] h = refl
absent-owned_by node j ((k, (b, owner)) ∷ m) h = elim (Bool-cases (k == j)) [
  | inl same ↦ absurd (ground (arith, h, same))
  | inr other ↦
      let ih = absent-owned_by node j m (rw other at h) in
      elim (Bool-cases (owner == node)) [
        | inl mine ↦ rw mine (rw other ih)
        | inr not_mine ↦ rw not_mine ih
      ]
]

pub owned_by-Distinct : (node : ℕ) (m : Map (ℤ × ℕ)) → IsDistinct m → Distinct (owned_by node m)
unfolding owned_by
owned_by-Distinct node [] d = tt
owned_by-Distinct node ((k, (b, owner)) ∷ m) d = elim (Bool-cases (owner == node)) [
  | inl mine ↦ rw mine (absent-owned_by node k m d.0, owned_by-Distinct node m d.1)
  | inr not_mine ↦ rw not_mine (owned_by-Distinct node m d.1)
]

pub owned_by-All :
    (node : ℕ) (db : InnerDb)
    → IsDistinct db.buckets
    → All (λ d. owner_of d db ≡ some node) (owned_by node db.buckets)
owned_by-All node db d =
    all_of_Memᴰ _ (owned_by node db.buckets) (λ a h. owned_by→ a node db.buckets d h)

-- What holds of the owners of other devices stays when one device moves.
pub others-moved :
    (d node : ℕ) (o : Option ℕ) (s : DeviceManager) (ds : List ℕ)
    → D.contains d ds ≡ false
    → All (λ e. owner_of e s.scheduler.database ≡ o) ds
    → All (λ e. owner_of e (moved d node s).scheduler.database ≡ o) ds
unfolding D.contains
others-moved d node o s [] absent h = tt
others-moved d node o s (e ∷ ds) absent h = elim (Bool-cases (e == d)) [
  | inl same ↦ absurd (cc (rw same at absent))
  | inr other ↦ (
    ground (
      arith,
      h.0,
      ==_iff d e,
      ==_iff e d,
      owner_of-set_device_owner e d node s.scheduler.database,
    ),
    others-moved d node o s ds (rw other at absent) h.1,
  )
]

-- The state after one orphan, as `give_orphan` leaves it.
abbrev pub given : ℕ → ℕ → ℕ → DeviceManager → DeviceManager
given node target d s = if target == node then own d (moved d target s) else moved d target s

pub give_orphan_lem :
    (node target d : ℕ) (s : DeviceManager)
    → O.give_orphan node target d s ≡ (given node target d s, ok tt)
unfolding O.give_orphan Db.set_device_owner
give_orphan_lem node target d s = refl

pub given-same :
    (node target d : ℕ) (s : DeviceManager)
    → ((given node target d s).local_node_id ≡ s.local_node_id)
      × ((given node target d s).scheduler ≡ (moved d target s).scheduler)
unfolding own
given-same node target d s = elim (Bool-cases (target == node)) [
  | inl mine ↦ rw mine (refl, refl)
  | inr others ↦ rw others (refl, refl)
]

pub redistribute_each_step :
    (node target count i d : ℕ) (nodes : List (ℕ × ℕ)) (ds : List ℕ) (s : DeviceManager)
    → get_elem? nodes (i % length nodes) ≡ some (target, count)
    → O.redistribute_each node nodes i (d ∷ ds) s
      ≡ O.redistribute_each node nodes (suc i) ds (given node target d s)
unfolding O.redistribute_each ◌>>=◌
redistribute_each_step node target count i d nodes ds s found =
    rw (found, O.redistribute_each, give_orphan_lem node target d s) refl

pub stuck :
    (node i d : ℕ) (nodes : List (ℕ × ℕ)) (ds : List ℕ) (s : DeviceManager)
    → get_elem? nodes (i % length nodes) ≡ none
    → (O.redistribute_each node nodes i (d ∷ ds) s).0 ≡ s
unfolding O.redistribute_each
stuck node i d nodes ds s none_left = rw (none_left, O.redistribute_each) refl
