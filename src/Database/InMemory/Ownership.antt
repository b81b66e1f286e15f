-- ===== src/Database/InMemory/Ownership.antt =====
-- Which node owns a device, and the bucket the device is in (src/common/database/in_memory.rs).
use head_end_system_tpp.Prelude.{ℕ, ◌≡◌, ◌↔◌, arith, some, List, [], ◌∷◌}
use head_end_system_tpp.Prelude.{
  ◌==◌, if◌then◌else◌, Bool-cases, Option-cases, inl, inr, ==_iff, ==_refl,
}
use head_end_system_tpp.Prelude.Map
use head_end_system_tpp.Prelude.Map.{Map, IsDistinct}
use head_end_system_tpp.Database.{Result, ok, err, ℤ}
use head_end_system_tpp.Database.InMemory as Db
use head_end_system_tpp.Database.InMemory.{InnerDb, owned_by}
use mathlib.Core.Option
use mathlib.Core.List.{Memᴰ}

-- The id is one of those that a call returns.
abbrev pub IsAmong : ℕ → Result (List ℕ) → Type 0
IsAmong id (err e) = ⊥
IsAmong id (ok ids) = Memᴰ id ids

pub owned_by→ :
    (id node : ℕ) (m : Map (ℤ × ℕ))
    → IsDistinct m
    → Memᴰ id (owned_by node m)
    → Option.map (λ (e : ℤ × ℕ). e.1) (Map.get id m) ≡ some node
unfolding owned_by Map.get
owned_by→ id node [] d h = elim h [ ]
owned_by→ id node ((j, (b, owner)) ∷ m) d h = elim (Bool-cases (owner == node)) [
  | inl same ↦ elim (rw same at h) [
    | Memᴰ.head e ↦ ground (arith, e, ==_iff owner node, same)
    | Memᴰ.tail e ↦ ground (arith, owned_by→ id node m d.1 e, d.0)
  ]
  | inr other ↦ ground (arith, owned_by→ id node m d.1 (rw other at h), d.0)
]

→owned_by :
    (id node : ℕ) (m : Map (ℤ × ℕ))
    → Option.map (λ (e : ℤ × ℕ). e.1) (Map.get id m) ≡ some node
    → Memᴰ id (owned_by node m)
unfolding owned_by Map.get
→owned_by id node [] h = cc
→owned_by id node ((j, (b, owner)) ∷ m) h = elim (Bool-cases (j == id)) [
  | inl here ↦
      let mine : owner ≡ node = ground (arith, h, here) in
      rw (mine, ==_refl node) (Memᴰ.head (ground arith))
  | inr there ↦
      let ih = →owned_by id node m (rw there at h) in
      elim (Bool-cases (owner == node)) [
        | inl same ↦ rw same (Memᴰ.tail ih)
        | inr other ↦ rw other ih
      ]
]

moved→ :
    (id node j owner : ℕ) (m : Map (ℤ × ℕ))
    → Option.map (λ (e : ℤ × ℕ). e.1) (Map.get j (Map.modify id (λ e. (e.0, node)) m)) ≡ some owner
    → (e : ℤ × ℕ) × (Map.get j m ≡ some e) × ((if id == j then node else e.1) ≡ owner)
moved→ id node j owner m h = elim (Option-cases (Map.get j m)) [
  | inl missing ↦
      absurd (ground (arith, h, missing, Map.get-modify j id (λ (e : ℤ × ℕ). (e.0, node)) m))
  | inr (e, known) ↦
      (e, known, ground (arith, h, known, Map.get-modify j id (λ (e : ℤ × ℕ). (e.0, node)) m))
]

→moved :
    (id node j owner : ℕ) (m : Map (ℤ × ℕ)) (e : ℤ × ℕ)
    → Map.get j m ≡ some e
    → (if id == j then node else e.1) ≡ owner
    → Option.map (λ (e : ℤ × ℕ). e.1) (Map.get j (Map.modify id (λ e. (e.0, node)) m)) ≡ some owner
→moved id node j owner m e known h =
    ground (arith, known, h, Map.get-modify j id (λ (e : ℤ × ℕ). (e.0, node)) m)

-- After `set_device_owner id node` a device `j` is among the devices of a node `owner` exactly when
-- it has a bucket and `owner` is the new owner, if `j` is that device, or else its owner before.
pub set_device_owner_iff :
    (id node j owner : ℕ) (db : InnerDb)
    → IsDistinct db.buckets
    → IsAmong j (Db.get_devices_by_owner owner (Db.set_device_owner id node db).0)
      ↔ (e : ℤ × ℕ) × (Map.get j db.buckets ≡ some e) × ((if id == j then node else e.1) ≡ owner)
unfolding Db.get_devices_by_owner Db.set_device_owner
set_device_owner_iff id node j owner db d =
    let moved = Map.modify id (λ (e : ℤ × ℕ). (e.0, node)) db.buckets in
    (
      λ h. moved→ id node j owner db.buckets (
          owned_by→ j owner moved
            (Map.modify-IsDistinct id (λ (e : ℤ × ℕ). (e.0, node)) db.buckets d) h),
      λ (e, known, h). →owned_by j owner moved (→moved id node j owner db.buckets e known h),
    )
