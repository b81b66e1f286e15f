-- ===== src/Scheduler/Reload/TakenUp.antt =====
-- What reloading makes of every stored connection (`reload_active_connections` of
-- src/scheduler/scheduler.rs).
use head_end_system_tpp.Prelude.{
  ℕ, suc, ◌≡◌, refl, sym, ◌∙◌, none, some, Option, Bool, true, false, Bool-cases, inl, inr, [], ◌∷◌,
  ◌==◌, ==_iff, ==_refl, if◌then◌else◌, ltb, ◌+◌,
}
use head_end_system_tpp.Scheduler.Reload.Tables.{or_else, one_more, still_there}
use head_end_system_tpp.Prelude.Map
use head_end_system_tpp.Prelude.Map.{Map, IsDistinct}
use head_end_system_tpp.Database.{ScheduledConnection, lost}
use head_end_system_tpp.Database.InMemory as Db
use head_end_system_tpp.Database.InMemory.{InnerDb}
use head_end_system_tpp.Scheduler.{Scheduler, Result, ok}
use head_end_system_tpp.Scheduler.Devices.{owns_device}
use mathlib.Core.Option
use head_end_system_tpp.Scheduler.Reload.{
  expired, with_job, store, is_overdue, reload_from, reload_active_connections,
}

-- Every connection stands under its own device.
abbrev pub IsKeyed : Map ScheduledConnection → Type 0
IsKeyed [] = Unit {0}
IsKeyed ((k, c) ∷ m) = (c.fk_device ≡ k) × IsKeyed m

-- The call returns a count.
abbrev pub IsOk : Result ℕ → Type 0
IsOk (ok n) = Unit {0}
IsOk r = ⊥

owns-store :
    (d : ℕ) (c : ScheduledConnection) (jobs : Map (ℕ × ℕ)) (s : Scheduler)
    → owns_device d (store c (record s { jobs = jobs })) ≡ owns_device d s
unfolding owns_device store
owns-store d c jobs s = refl

get-store :
    (x : ℕ) (c : ScheduledConnection) (jobs : Map (ℕ × ℕ)) (s : Scheduler)
    → Map.get x (store c (record s { jobs = jobs })).database.scheduled_connections
      ≡ (if c.fk_device == x then some c else Map.get x s.database.scheduled_connections)
unfolding store Db.update_scheduled_connection
get-store x c jobs s = Map.get-insert x c.fk_device c s.database.scheduled_connections

-- A job scheduler that takes every job.
module _ (job_of : ℕ → ℕ → ℕ) (now : ℕ → ℕ) where
  abbrev pub takes : ℕ → ℕ → Option ℕ
  takes id t = some (job_of id t)

  -- What becomes of a connection.
  abbrev pub taken_up : (ℕ → Bool) → ScheduledConnection → ScheduledConnection
  taken_up owns c =
      if owns c.fk_device
      then if ltb c.schedule_time (now c.fk_device + 300000000000)
        then record c { status = lost; renewable = false; job_id = none }
        else record c { job_id = some (job_of c.fk_device c.schedule_time) }
      else c

  abbrev IsReloaded : (ℕ → Bool) → Map ScheduledConnection → ℕ → ℕ → Scheduler → Type 0
  IsReloaded owns m n j s =
      (Map.get j (reload_from takes now (Map.values m) n s).0.database.scheduled_connections
        ≡ or_else (Option.map (taken_up owns) (Map.get j m))
            (Map.get j s.database.scheduled_connections))
      × IsOk (reload_from takes now (Map.values m) n s).1

  Untouched : Map ScheduledConnection → Scheduler → Type 0
  Untouched m s =
      (x : ℕ) (v : ScheduledConnection)
      → Map.get x m ≡ some v
      → Map.get x s.database.scheduled_connections ≡ some v

  -- The loop goes on with the list `s'`, in which the first connection is taken up.
  module _ (owns : ℕ → Bool) (i : ℕ) (c : ScheduledConnection) (m : Map ScheduledConnection)
      (s s' : Scheduler) (absent : Map.get i m ≡ none)
      (step : (x : ℕ)
        → Map.get x s'.database.scheduled_connections ≡ (
            if i == x
            then some (taken_up owns c)
            else Map.get x s.database.scheduled_connections)) where
    goes_on :
        (n n' j : ℕ)
        → (reload_from takes now (c ∷ Map.values m) n s
            ≡ reload_from takes now (Map.values m) n' s')
        → IsReloaded owns m n' j s'
        → IsReloaded owns ((i, c) ∷ m) n j s
    unfolding Map.values
    goes_on n n' j e (found, fine) = rw e (
      one_more (taken_up owns) i c m j s.database.scheduled_connections
          s'.database.scheduled_connections _ absent (step j) found,
      fine,
    )

    stays-Untouched : Untouched ((i, c) ∷ m) s → Untouched m s'
    unfolding Untouched
    stays-Untouched here x v e =
        still_there (taken_up owns) i c m x v s.database.scheduled_connections
          s'.database.scheduled_connections absent (step x) (here x v) e

  module _ (owns : ℕ → Bool) (i : ℕ) (c : ScheduledConnection) (s : Scheduler)
      (same : owns_device c.fk_device s ≡ owns c.fk_device) (keyed : c.fk_device ≡ i) where
    step_overdue :
        (x : ℕ)
        → owns_device c.fk_device s ≡ true
        → is_overdue takes now c ≡ true
        → Map.get x (store (expired c) s).database.scheduled_connections
          ≡ (if i == x then some (taken_up owns c) else Map.get x s.database.scheduled_connections)
    unfolding expired is_overdue
    step_overdue x mine overdue =
        get-store x (expired c) s.jobs s ∙ (rw (sym same ∙ mine, overdue) (rw keyed refl))

    step_later :
        (x : ℕ) (jobs : Map (ℕ × ℕ))
        → owns_device c.fk_device s ≡ true
        → is_overdue takes now c ≡ false
        → Map.get x
            (store
              (with_job (job_of c.fk_device c.schedule_time) c)
              (record s { jobs = jobs })).database.scheduled_connections
          ≡ (if i == x then some (taken_up owns c) else Map.get x s.database.scheduled_connections)
    unfolding with_job is_overdue
    step_later x jobs mine later =
        get-store x (with_job (job_of c.fk_device c.schedule_time) c) jobs s
        ∙ (rw (sym same ∙ mine, later) (rw keyed refl))

    step_other :
        (x : ℕ)
        → owns_device c.fk_device s ≡ false
        → Map.get i s.database.scheduled_connections ≡ some c
        → Map.get x s.database.scheduled_connections
          ≡ (if i == x then some (taken_up owns c) else Map.get x s.database.scheduled_connections)
    step_other x other here = elim (Bool-cases (i == x)) [
      | inl self ↦ rw (self, sym same ∙ other) (rw (sym ((==_iff i x).0 self)) here)
      | inr apart ↦ rw apart refl
    ]

  reload_from_lem :
      (owns : ℕ → Bool) (m : Map ScheduledConnection) (n j : ℕ) (s : Scheduler)
      → IsKeyed m
      → IsDistinct m
      → ((d : ℕ) → owns_device d s ≡ owns d)
      → Untouched m s
      → IsReloaded owns m n j s
  unfolding reload_from Map.values Map.get Untouched
  reload_from_lem owns [] n j s k d same here = (refl, tt)
  reload_from_lem owns ((i, c) ∷ m) n j s k d same here =
      elim (Bool-cases (owns_device c.fk_device s)) [
        | inl mine ↦ elim (Bool-cases (is_overdue takes now c)) [
          | inl overdue ↦
              let s' = store (expired c) s in
              let step = λ (x : ℕ). step_overdue owns i c s (same c.fk_device) k.0 x mine overdue in
              goes_on owns i c m s s' d.0 step n (suc n) j
                (rw (mine, reload_from) (rw (overdue, reload_from) refl))
                (reload_from_lem owns m (suc n) j s' k.1 d.1
                  (λ x. owns-store x (expired c) s.jobs s ∙ same x)
                  (stays-Untouched owns i c m s s' d.0 step here))
          | inr later ↦
              let jobs =
                Map.insert (job_of c.fk_device c.schedule_time) (c.fk_device, c.schedule_time)
                  s.jobs in
              let s' =
                store (with_job (job_of c.fk_device c.schedule_time) c)
                  (record s { jobs = jobs }) in
              let step =
                λ (x : ℕ). step_later owns i c s (same c.fk_device) k.0 x jobs mine later in
              goes_on owns i c m s s' d.0 step n n j
                (rw (mine, reload_from) (rw (later, reload_from) refl))
                (reload_from_lem owns m n j s' k.1 d.1
                  (λ x.
                    owns-store x (with_job (job_of c.fk_device c.schedule_time) c) jobs s ∙ same x)
                  (stays-Untouched owns i c m s s' d.0 step here))
        ]
        | inr other ↦
            let step = λ (x : ℕ).
              step_other owns i c s (same c.fk_device) k.0 x other
                (here i c (rw (==_refl i) refl)) in
            goes_on owns i c m s s d.0 step n n j (rw (other, reload_from) refl) (
              reload_from_lem owns m n j s k.1 d.1 same
                (stays-Untouched owns i c m s s d.0 step here))
      ]

  -- If every stored connection stands under its own device and once, and the job scheduler takes
  -- every job, reloading succeeds, and then a connection of a device that this node owns is lost,
  -- without a job and not renewed if it is due within five minutes or past, and has the job that
  -- was added for its time if it is due later. A connection of a device that another node owns is
  -- as it was.
  pub reload_active_connections_lem :
      (j : ℕ) (s : Scheduler)
      → IsKeyed s.database.scheduled_connections
      → IsDistinct s.database.scheduled_connections
      → (Map.get j (reload_active_connections takes now s).0.database.scheduled_connections
          ≡ Option.map
              (taken_up (λ d. owns_device d s))
              (Map.get j s.database.scheduled_connections))
        × IsOk (reload_active_connections takes now s).1
  unfolding reload_active_connections Untouched
  reload_active_connections_lem j s k d =
      let (found, fine) =
        reload_from_lem (λ d. owns_device d s) s.database.scheduled_connections 0 j s k d
          (λ d. refl) (λ x v e. e) in
      (found ∙ same (Map.get j s.database.scheduled_connections), fine)
    where
      same :
          (o : Option ScheduledConnection)
          → or_else (Option.map (taken_up (λ d. owns_device d s)) o) o
            ≡ Option.map (taken_up (λ d. owns_device d s)) o
      same none = refl
      same (some c) = refl
