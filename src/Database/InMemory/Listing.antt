-- ===== src/Database/InMemory/Listing.antt =====
-- The pages of scheduled connections (src/common/database/in_memory.rs): those to come, and those that
-- are past.
use head_end_system_tpp.Prelude.{
  ℕ, Bool, true, false, Option, none, some, List, [], ◌∷◌, leb, ◌==◌, if◌then◌else◌, filter, take,
  drop,
}
use head_end_system_tpp.Prelude.Map
use head_end_system_tpp.Database.{
  Result, ok, ScheduledStatus, awaiting, lost, done, ScheduledConnection,
}
use head_end_system_tpp.Database.InMemory.{InnerDb}

unfoldable pub is_awaiting : ScheduledStatus → Bool
is_awaiting awaiting = true
is_awaiting s = false

unfoldable pub is_past : ScheduledStatus → Bool
is_past lost = true
is_past done = true
is_past s = false

-- `device_id.is_none_or(|did| c.fk_device == did)`.
unfoldable pub is_for : Option ℕ → ScheduledConnection → Bool
is_for none c = true
is_for (some id) c = c.fk_device == id

-- The library's stable sort: an item goes in front of the first that must not stand before it.
unfoldable pub sort_in :
    (ScheduledConnection → ScheduledConnection → Bool)
    → ScheduledConnection
    → List ScheduledConnection
    → List ScheduledConnection
sort_in before c [] = c ∷ []
sort_in before c (d ∷ ds) = if before c d then c ∷ d ∷ ds else d ∷ sort_in before c ds

unfoldable pub sort_by :
    (ScheduledConnection → ScheduledConnection → Bool)
    → List ScheduledConnection
    → List ScheduledConnection
unfolding sort_in
sort_by before [] = []
sort_by before (c ∷ cs) = sort_in before c (sort_by before cs)

abbrev pub sooner : ScheduledConnection → ScheduledConnection → Bool
sooner c d = leb c.schedule_time d.schedule_time

abbrev pub later : ScheduledConnection → ScheduledConnection → Bool
later c d = leb d.schedule_time c.schedule_time

-- The limit and the offset are the `usize` numbers that the casts make of the `i64` arguments.
unfoldable pub get_upcoming_connections :
    ℕ → ℕ → Option ℕ → InnerDb → Result (List ScheduledConnection)
unfolding sort_by is_awaiting is_for
get_upcoming_connections limit offset device db = ok (
    take limit (
      drop offset (
        sort_by sooner (
          filter (is_for device)
            (filter (λ c. is_awaiting c.status) (Map.values db.scheduled_connections))))))

unfoldable pub get_connection_history :
    ℕ → ℕ → Option ℕ → InnerDb → Result (List ScheduledConnection)
unfolding sort_by is_past is_for
get_connection_history limit offset device db = ok (
    take limit (
      drop offset (
        sort_by later (
          filter (is_for device)
            (filter (λ c. is_past c.status) (Map.values db.scheduled_connections))))))
