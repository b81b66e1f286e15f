-- ===== src/Database/InMemory/Registration.antt =====
-- The registration of a device (src/common/database/in_memory.rs): what a lookup finds after each
-- change, and a registration that runs out of time.
use head_end_system_tpp.Prelude.{ℕ, ◌≡◌, refl, arith, Bool, true, false, Option, none, some}
use head_end_system_tpp.Prelude.{◌==◌, if◌then◌else◌, Option-cases, inl, inr}
use head_end_system_tpp.Prelude.Map
use head_end_system_tpp.Prelude.Map.{Map}
use head_end_system_tpp.Database.{no_data_found, Result, ok, err}
use head_end_system_tpp.Database.{RegistrationStatus, registered, pending_ack, ack_timeout}
use head_end_system_tpp.Database.InMemory as Db
use head_end_system_tpp.Database.InMemory.{InnerDb}

-- The entry of a registration that runs out of time at `now`.
abbrev pub timed_out : ℕ → Option (RegistrationStatus × ℕ) → Option (RegistrationStatus × ℕ)
timed_out now none = none
timed_out now (some (pending_ack, t)) = some (ack_timeout, now)
timed_out now (some (registered, t)) = some (registered, t)
timed_out now (some (ack_timeout, t)) = some (ack_timeout, t)

-- The answer: whether a registration was pending, and an error if there is none.
abbrev pub timeout_result : Option (RegistrationStatus × ℕ) → Result Bool
timeout_result none = err no_data_found
timeout_result (some (pending_ack, t)) = ok true
timeout_result (some (registered, t)) = ok false
timeout_result (some (ack_timeout, t)) = ok false

-- `registration_timeout` answers whether the registration was pending, and then it stands as timed
-- out at that time. A confirmed one, one that timed out before and every other device's is as it was.
pub registration_timeout_lem :
    (id now j : ℕ) (db : InnerDb)
    → ((Db.registration_timeout id now db).1 ≡ timeout_result (Map.get id db.device_registration))
      × (Map.get j (Db.registration_timeout id now db).0.device_registration ≡ (
          if id == j
          then timed_out now (Map.get id db.device_registration)
          else Map.get j db.device_registration))
unfolding Db.registration_timeout
registration_timeout_lem id now j db = elim (Option-cases (Map.get id db.device_registration)) [
  | inl missing ↦ rw (missing, Db.registration_timeout) (refl, ground (arith, missing))
  | inr ((pending_ack, t), known) ↦
      rw (known, Db.registration_timeout)
        (
          refl,
          ground (
            arith,
            known,
            Map.get-modify j id (λ (e : RegistrationStatus × ℕ). (ack_timeout, now))
                db.device_registration,
          ),
        )
  | inr ((registered, t), known) ↦ rw (known, Db.registration_timeout) (refl, ground (arith, known))
  | inr ((ack_timeout, t), known) ↦
      rw (known, Db.registration_timeout) (refl, ground (arith, known))
]
