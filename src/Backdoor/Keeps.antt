-- ===== src/Backdoor/Keeps.antt =====
-- Steps that keep the owned devices in step with the database (src/backdoor/backdoor.rs).
use head_end_system_tpp.Prelude.{
  ℕ, ◌≡◌, refl, Bool, true, false, Option, Option-cases, inl, inr, if◌then◌else◌,
}
use head_end_system_tpp.Prelude.Map
use head_end_system_tpp.Database.{Device, RegistrationStatus}
use head_end_system_tpp.Database as DbTypes
use head_end_system_tpp.Database.InMemory as Db
use head_end_system_tpp.Database.InMemory.{InnerDb}
use head_end_system_tpp.DeviceManager.{DeviceManager, Manager, with_database}
use head_end_system_tpp.DeviceManager.Owned.{IsInStep}
use head_end_system_tpp.DeviceManager.InStep.Planned as P
use head_end_system_tpp.Backdoor.{
  Backdoor, BackdoorError, Result, ok, err, panic, Handler, continue, ◌>>=◌, lift, check, ask,
  store, managed, ack_timer,
}

-- A handler leaves the owned set in step with the database.
pub record Keeps {A : Type 0} (m : Handler A) : Type 0 where
  pub in_step : (s : Backdoor) → IsInStep s.manager → IsInStep (m s).0.manager

module _ {A B : Type 0} where
  continued :
      (f : A → Handler B) (p : Backdoor × Result A)
      → ((a : A) → Keeps (f a))
      → IsInStep p.0.manager
      → IsInStep (continue p.1 f p.0).0.manager
  continued f (s', ok a) rest inv = (rest a).in_step s' inv
  continued f (s', err e) rest inv = inv
  continued f (s', panic) rest inv = inv

  pub bind-Keeps :
      (m : Handler A) (f : A → Handler B) → Keeps m → ((a : A) → Keeps (f a)) → Keeps (m >>= f)
  unfolding ◌>>=◌
  bind-Keeps m f first rest = record {
    in_step = λ s inv. continued f (m s) rest (first.in_step s inv);
  }

pub check-Keeps : (b : Bool) (e : BackdoorError) → Keeps (check b e)
check-Keeps true e = record { in_step = λ s inv. inv }
check-Keeps false e = record { in_step = λ s inv. inv }

pub lift-Keeps : {A : Type 0} (r : Result A) → Keeps (lift r)
lift-Keeps r = record { in_step = λ s inv. inv }

pub ask-Keeps : {A : Type 0} (f : InnerDb → DbTypes.Result A) → Keeps (ask f)
unfolding ask
ask-Keeps f = record { in_step = λ s inv. inv }

-- A write that leaves the buckets alone.
pub store-Keeps :
    {A : Type 0} (f : InnerDb → InnerDb × DbTypes.Result A)
    → ((db : InnerDb) → (f db).0.buckets ≡ db.buckets)
    → Keeps (store f)
unfolding store
store-Keeps f same = record {
  in_step = λ s inv.
      P.SameOwners-IsInStep s.manager (with_database (f s.manager.scheduler.database).0 s.manager)
        (refl, refl, (refl, same s.manager.scheduler.database)) inv;
}

pub managed-Keeps :
    {A : Type 0} (f : Manager A)
    → ((m : DeviceManager) → IsInStep m → IsInStep (f m).0)
    → Keeps (managed f)
unfolding managed
managed-Keeps f keeps = record { in_step = λ s inv. keeps s.manager inv }

pub either-Keeps :
    {A : Type 0} {m n : Handler A} (b : Bool) → Keeps m → Keeps n → Keeps (if b then m else n)
either-Keeps true yes_keeps no_keeps = yes_keeps
either-Keeps false yes_keeps no_keeps = no_keeps

pub modify_device-buckets :
    (d : Device) (db : InnerDb) → (Db.modify_device d db).0.buckets ≡ db.buckets
unfolding Db.modify_device
modify_device-buckets d db = elim (Option-cases (Map.get d.id db.devices)) [
  | inl missing ↦ rw (missing, Db.modify_device) refl
  | inr (old, known) ↦ rw (known, Db.modify_device) refl
]

pub update_registration-buckets :
    (id : ℕ) (st : Option RegistrationStatus) (t : Option ℕ) (db : InnerDb)
    → (Db.update_device_registration id st t db).0.buckets ≡ db.buckets
unfolding Db.update_device_registration
update_registration-buckets id st t db = elim (Option-cases (Map.get id db.device_registration)) [
  | inl missing ↦ rw (missing, Db.update_device_registration) refl
  | inr (old, known) ↦ rw (known, Db.update_device_registration) refl
]

registration_timeout-buckets :
    (id now : ℕ) (db : InnerDb) → (Db.registration_timeout id now db).0.buckets ≡ db.buckets
unfolding Db.registration_timeout
registration_timeout-buckets id now db = elim (Option-cases (Map.get id db.device_registration)) [
  | inl missing ↦ rw (missing, Db.registration_timeout) refl
  | inr ((RegistrationStatus.pending_ack, t), known) ↦ rw (known, Db.registration_timeout) refl
  | inr ((RegistrationStatus.registered, t), known) ↦ rw (known, Db.registration_timeout) refl
  | inr ((RegistrationStatus.ack_timeout, t), known) ↦ rw (known, Db.registration_timeout) refl
]

-- A timer that fires leaves the owned set in step with the database too.
ack_timer-IsInStep :
    (now id : ℕ) (s : Backdoor) → IsInStep s.manager → IsInStep (ack_timer now id s).manager
unfolding ack_timer
ack_timer-IsInStep now id s inv =
    (store-Keeps (Db.registration_timeout id now) (registration_timeout-buckets id now)).in_step s
      inv
