-- ===== src/DeviceManager/Again.antt =====
-- What the other nodes find when one has redistributed the devices of a failed node
-- (src/device_manager/device_manager.rs).
use head_end_system_tpp.Prelude.{
  ℕ, zero, suc, ◌≡◌, ◌≢◌, refl, sym, ap, ◌∙◌, arith, true, some, List, [], ◌∷◌, ◌==◌, ==_iff,
  get_elem?, length, All, ◌%◌, Bool-cases, inl, inr,
}
use head_end_system_tpp.Prelude.Map
use head_end_system_tpp.Prelude.Map.{Map}
use head_end_system_tpp.Database.{ℤ}
use head_end_system_tpp.Database.InMemory as Db
use head_end_system_tpp.Database.InMemory.{InnerDb, owned_by}
use head_end_system_tpp.Scheduler.Devices as D
use head_end_system_tpp.DeviceManager.{DeviceManager, ok, with_database, ◌>>=◌}
use head_end_system_tpp.DeviceManager as M
use head_end_system_tpp.DeviceManager.Ownership as O
use head_end_system_tpp.DeviceManager.Owned.{owner_of, IsInStep}
use head_end_system_tpp.DeviceManager.InStep as I
use head_end_system_tpp.DeviceManager.Redistribute.{owned_by-All}
use head_end_system_tpp.DeviceManager.Dealt.{id_of, orphans, after_failure, dealt_by_all_nodes}
use mathlib.Core.Option

found_at : (j : ℕ) (xs : List ℕ) → D.contains j xs ≡ true → (k : ℕ) × (get_elem? xs k ≡ some j)
unfolding D.contains
found_at j [] h = absurd cc
found_at j (x ∷ xs) h = elim (Bool-cases (x == j)) [
  | inl same ↦ (0, ap some ((==_iff x j).0 same))
  | inr other ↦ let (k, there) = found_at j xs (rw other at h) in (suc k, there)
]

no_turn :
    (failed : ℕ) (nodes : List (ℕ × ℕ)) (i : ℕ)
    → All (λ (n : ℕ × ℕ). n.0 ≢ failed) nodes
    → Option.map id_of (get_elem? nodes i) ≢ some failed
no_turn failed [] i active h = cc
no_turn failed (n ∷ ns) zero active h = active.0 (ground (arith, h))
no_turn failed (n ∷ ns) (suc i) active h = no_turn failed ns i active.1 h

owner-owned_by :
    (failed j : ℕ) (m : Map (ℤ × ℕ))
    → Option.map (λ (e : ℤ × ℕ). e.1) (Map.get j m) ≡ some failed
    → D.contains j (owned_by failed m) ≡ true
unfolding owned_by D.contains Map.get
owner-owned_by failed j [] h = absurd cc
owner-owned_by failed j ((id, (b, owner)) ∷ rest) h = elim (Bool-cases (id == j)) [
  | inl same ↦
      let is : owner ≡ failed = ground (arith, same, h) in
      ground (arith, same, is, ==_iff owner failed)
  | inr other ↦ ground (arith, other, h, owner-owned_by failed j rest)
]

no_orphans :
    (failed : ℕ) (db : InnerDb)
    → Map.IsDistinct db.buckets
    → ((j : ℕ) → owner_of j db ≢ some failed)
    → owned_by failed db.buckets ≡ []
no_orphans failed db distinct none_left =
    empty (owned_by failed db.buckets) (owned_by-All failed db distinct)
  where
    empty : (ds : List ℕ) → All (λ d. owner_of d db ≡ some failed) ds → ds ≡ []
    empty [] all = refl
    empty (d ∷ ds) all = absurd (none_left d all.0)

-- Nothing of a failed node is left once a node has redistributed its devices.
none_left :
    (failed : ℕ) (others : List (ℕ × ℕ)) (s : DeviceManager)
    → Map.IsDistinct s.scheduler.database.buckets
    → All (λ (n : ℕ × ℕ). n.0 ≢ failed) (O.all_nodes others s)
    → (j : ℕ) → owner_of j (after_failure failed others s) ≢ some failed
none_left failed others s distinct active j h =
    let (returns, dealt, kept) = dealt_by_all_nodes failed others s distinct in
    elim (Bool-cases (D.contains j (orphans failed s))) [
      | inl orphan ↦
          let (k, there) = found_at j (orphans failed s) orphan in
          no_turn failed (O.all_nodes others s) (k % length (O.all_nodes others s)) active
            (sym (dealt k j there) ∙ h)
      | inr another ↦
          let was =
            owner-owned_by failed j s.scheduler.database.buckets (sym (kept j another) ∙ h) in
          cc
    ]

-- When a node has redistributed the devices of a failed node, and its owned set agreed with the
-- database, any other node that handles the same failure over the shared database finds nothing to
-- do, if the failed node is not among the active ones: its owned set stays as it was, without the
-- devices that the first node has given to it, and the owners stay as the first node wrote them.
pub redistribute_from_failed-again :
    (failed : ℕ) (others others' : List (ℕ × ℕ)) (s t : DeviceManager)
    → failed ≢ s.local_node_id
    → All (λ (n : ℕ × ℕ). n.0 ≢ failed) (O.all_nodes others s)
    → IsInStep s
    → let t' = with_database (after_failure failed others s) t in
      O.redistribute_from_failed failed others' t' ≡ (t', ok tt)
unfolding O.redistribute_from_failed M.ask ◌>>=◌ Db.get_devices_by_owner O.after_search
redistribute_from_failed-again failed others others' s t other active inv =
    let after = I.redistribute_from_failed-IsInStep failed others s other inv in
    rw
      (no_orphans failed (after_failure failed others s) after.distinct
        (none_left failed others s inv.distinct active))
      refl
