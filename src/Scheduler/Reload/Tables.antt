-- ===== src/Scheduler/Reload/Tables.antt =====
-- Tables of connections before and after one connection is taken up
-- (`reload_active_connections` of src/scheduler/scheduler.rs).
use head_end_system_tpp.Prelude.{
  ℕ, ◌≡◌, refl, ap, ◌∙◌, arith, none, some, Option, Bool-cases, inl, inr, ◌∷◌, ◌==◌, ==_iff,
  if◌then◌else◌,
}
use head_end_system_tpp.Prelude.Map
use head_end_system_tpp.Prelude.Map.{Map, IsDistinct}
use head_end_system_tpp.Database.{ScheduledConnection}
use mathlib.Core.Option

abbrev pub or_else :
    Option ScheduledConnection → Option ScheduledConnection → Option ScheduledConnection
or_else none o = o
or_else (some c) o = some c

module _ (t : ScheduledConnection → ScheduledConnection) (i : ℕ) (c : ScheduledConnection)
    (m : Map ScheduledConnection) where
  -- One connection more: `old` is the table before it, `new` behind it.
  pub one_more :
      (j : ℕ) (old new after : Map ScheduledConnection)
      → Map.get i m ≡ none
      → (Map.get j new ≡ (if i == j then some (t c) else Map.get j old))
      → Map.get j after ≡ or_else (Option.map t (Map.get j m)) (Map.get j new)
      → Map.get j after ≡ or_else (Option.map t (Map.get j ((i, c) ∷ m))) (Map.get j old)
  unfolding Map.get
  one_more j old new after absent step rest = elim (Bool-cases (i == j)) [
    | inl same ↦
        let e : i ≡ j = (==_iff i j).0 same in
        let gone : Map.get j m ≡ none = rw e at absent in
        rw same (rest ∙ (rw gone (step ∙ (rw same refl))))
    | inr other ↦
        rw other (rest ∙ ap (or_else (Option.map t (Map.get j m))) (step ∙ (rw other refl)))
  ]

  -- The connections that are still to come are untouched.
  pub still_there :
      (j : ℕ) (v : ScheduledConnection) (old new : Map ScheduledConnection)
      → Map.get i m ≡ none
      → (Map.get j new ≡ (if i == j then some (t c) else Map.get j old))
      → (Map.get j ((i, c) ∷ m) ≡ some v → Map.get j old ≡ some v)
      → Map.get j m ≡ some v
      → Map.get j new ≡ some v
  unfolding Map.get
  still_there j v old new absent step here e = elim (Bool-cases (i == j)) [
    | inl same ↦ absurd (ground (arith, (==_iff i j).0 same, absent, e))
    | inr other ↦ step ∙ (rw other (here (rw other e)))
  ]
