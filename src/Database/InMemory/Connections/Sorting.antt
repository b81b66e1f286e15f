-- ===== src/Database/InMemory/Connections/Sorting.antt =====
-- The sorting of scheduled connections (`sort_by` in src/common/database/in_memory.rs).
use head_end_system_tpp.Database.InMemory.Listing.{sort_by, sort_in}
use head_end_system_tpp.Prelude.{ℕ, zero, suc, ◌≡◌, refl, ◌↔◌, arith, Bool, true, false}
use head_end_system_tpp.Prelude.{
  List, [], ◌∷◌, Bool-cases, inl, inr, length, take, drop, All, take-All, cons_Memᴰ, swap_Memᴰ,
}
use head_end_system_tpp.Database.{ScheduledConnection}
use mathlib.Core.List.{Memᴰ}

-- Every item stands before all that follow it.
abbrev pub IsOrdered :
    (ScheduledConnection → ScheduledConnection → Bool) → List ScheduledConnection → Type 0
IsOrdered before [] = Unit {0}
IsOrdered before (c ∷ cs) = All (λ d. before c d ≡ true) cs × IsOrdered before cs

module _ (before : ScheduledConnection → ScheduledConnection → Bool) where
  pub take-IsOrdered :
      (n : ℕ) (cs : List ScheduledConnection) → IsOrdered before cs → IsOrdered before (take n cs)
  take-IsOrdered zero cs h = tt
  take-IsOrdered (suc n) [] h = tt
  take-IsOrdered (suc n) (c ∷ cs) h =
      (take-All (λ d. before c d ≡ true) n cs h.0, take-IsOrdered n cs h.1)

  pub drop-IsOrdered :
      (n : ℕ) (cs : List ScheduledConnection) → IsOrdered before cs → IsOrdered before (drop n cs)
  drop-IsOrdered zero cs h = h
  drop-IsOrdered (suc n) [] h = tt
  drop-IsOrdered (suc n) (c ∷ cs) h = drop-IsOrdered n cs h.1

  pub sort_in-All :
      (P : ScheduledConnection → Type 0) (c : ScheduledConnection) (cs : List ScheduledConnection)
      → P c
      → All P cs
      → All P (sort_in before c cs)
  unfolding sort_in
  sort_in-All P c [] p h = (p, tt)
  sort_in-All P c (d ∷ ds) p h = elim (Bool-cases (before c d)) [
    | inl first ↦ rw first (p, h)
    | inr second ↦ rw second (h.0, sort_in-All P c ds p h.1)
  ]

  pub sort_by-All :
      (P : ScheduledConnection → Type 0) (cs : List ScheduledConnection)
      → All P cs
      → All P (sort_by before cs)
  unfolding sort_by
  sort_by-All P [] h = tt
  sort_by-All P (c ∷ cs) h = sort_in-All P c (sort_by before cs) h.0 (sort_by-All P cs h.1)

  length-sort_in :
      (c : ScheduledConnection) (cs : List ScheduledConnection)
      → length (sort_in before c cs) ≡ suc (length cs)
  unfolding sort_in
  length-sort_in c [] = refl
  length-sort_in c (d ∷ ds) = ground (arith, length-sort_in c ds)

  pub length-sort_by : (cs : List ScheduledConnection) → length (sort_by before cs) ≡ length cs
  unfolding sort_by
  length-sort_by [] = refl
  length-sort_by (c ∷ cs) = omega (arith, length-sort_in c (sort_by before cs), length-sort_by cs)

  sort_in-Memᴰ :
      (a c : ScheduledConnection) (cs : List ScheduledConnection)
      → Memᴰ a (sort_in before c cs) ↔ Memᴰ a (c ∷ cs)
  unfolding sort_in
  sort_in-Memᴰ a c [] = (λ h. h, λ h. h)
  sort_in-Memᴰ a c (d ∷ ds) = elim (Bool-cases (before c d)) [
    | inl first ↦ rw first (λ h. h, λ h. h)
    | inr second ↦ rw second (
      λ h.
          swap_Memᴰ d c a ds
            (cons_Memᴰ d a (sort_in before c ds) (c ∷ ds) (sort_in-Memᴰ a c ds).0 h),
      λ h.
          cons_Memᴰ d a (c ∷ ds) (sort_in before c ds) (sort_in-Memᴰ a c ds).1
            (swap_Memᴰ c d a ds h),
    )
  ]

  pub sort_by-Memᴰ :
      (a : ScheduledConnection) (cs : List ScheduledConnection)
      → Memᴰ a (sort_by before cs) ↔ Memᴰ a cs
  unfolding sort_by
  sort_by-Memᴰ a [] = (λ h. h, λ h. h)
  sort_by-Memᴰ a (c ∷ cs) = (
    λ h.
        cons_Memᴰ c a (sort_by before cs) cs (sort_by-Memᴰ a cs).0
          ((sort_in-Memᴰ a c (sort_by before cs)).0 h),
    λ h.
        (sort_in-Memᴰ a c (sort_by before cs)).1
          (cons_Memᴰ c a cs (sort_by before cs) (sort_by-Memᴰ a cs).1 h),
  )

module _ (before : ScheduledConnection → ScheduledConnection → Bool)
    (total : (c d : ScheduledConnection) → before c d ≡ false → before d c ≡ true)
    (trans : (c d e : ScheduledConnection)
      → before c d ≡ true
      → before d e ≡ true
      → before c e ≡ true) where
  all_after :
      (c d : ScheduledConnection) (cs : List ScheduledConnection)
      → before c d ≡ true
      → All (λ e. before d e ≡ true) cs
      → All (λ e. before c e ≡ true) cs
  all_after c d [] h a = tt
  all_after c d (e ∷ es) h a = (trans c d e h a.0, all_after c d es h a.1)

  sort_in-IsOrdered :
      (c : ScheduledConnection) (cs : List ScheduledConnection)
      → IsOrdered before cs
      → IsOrdered before (sort_in before c cs)
  unfolding sort_in
  sort_in-IsOrdered c [] h = (tt, tt)
  sort_in-IsOrdered c (d ∷ ds) h = elim (Bool-cases (before c d)) [
    | inl first ↦ rw first ((first, all_after c d ds first h.0), h)
    | inr second ↦ rw second (
      sort_in-All before (λ e. before d e ≡ true) c ds (total c d second) h.0,
      sort_in-IsOrdered c ds h.1,
    )
  ]

  pub sort_by-IsOrdered : (cs : List ScheduledConnection) → IsOrdered before (sort_by before cs)
  unfolding sort_by
  sort_by-IsOrdered [] = tt
  sort_by-IsOrdered (c ∷ cs) = sort_in-IsOrdered c (sort_by before cs) (sort_by-IsOrdered cs)
