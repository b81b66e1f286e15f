-- ===== src/Scheduler/WakeUp/Retries.antt =====
-- Which attempt of a wake-up job counts (src/scheduler/task/wake_up_device.rs).
use head_end_system_tpp.Prelude.{
  ℕ, zero, suc, ◌+◌, ◌-◌, ◌≡◌, ◌≤◌, ◌<◌, refl, ap, sym, ◌∙◌, arith, Bool, true, some, List, [], ◌∷◌,
  ltb, if◌then◌else◌,
}
use head_end_system_tpp.Wire.{Bytes}
use head_end_system_tpp.Database.{Device, ScheduledConnection, lost}
use head_end_system_tpp.Database as DbTypes
use head_end_system_tpp.Database.InMemory as Db
use head_end_system_tpp.Database.InMemory.{InnerDb}
use head_end_system_tpp.Messages.{ObisValue}
use head_end_system_tpp.Messages.Rlp.{Rlp}
use head_end_system_tpp.Scheduler.WakeUp.{
  TaskError, max_retries_exceeded, Result, ok, err, panic, Peer, finish, run_session, max_retries,
  exchange, needs_battery,
}
use head_end_system_tpp.Scheduler.WakeUp.Job as J
use head_end_system_tpp.Scheduler.WakeUp.Job.{
  Woken, Joined, finished, attempted, attempt_from, run_wake_up, ip_of,
}

module _ (wire : Bytes) (rlp : Rlp) (peers : ℕ → Peer) (id : ℕ) (db : InnerDb) where
  abbrev session : ℕ → InnerDb × List (List ℕ) × Result (Unit {0})
  session j = run_session wire rlp (peers j) id db

  abbrev pub Fails : ℕ → Type 0
  Fails j = (e : TaskError) × ((session j).2 ≡ err e)

  abbrev pub Completes : ℕ → Type 0
  Completes j = (session j).2 ≡ ok tt

  finish-same :
      (peer : Peer) (battery : Bool) (r : Result (List ObisValue)) (e : TaskError)
      → (finish wire rlp peer id battery db r).1 ≡ err e
      → (finish wire rlp peer id battery db r).0 ≡ db
  unfolding finish
  finish-same peer battery (ok vs) e h = absurd cc
  finish-same peer battery (err x) e h = refl
  finish-same peer battery panic e h = refl

  failed_session : (j : ℕ) (e : TaskError) → (session j).2 ≡ err e → (session j).0 ≡ db
  unfolding run_session
  failed_session j e h =
      let battery = needs_battery (peers j).utc_now id db in
      finish-same (peers j) battery (exchange wire rlp (peers j) id battery []).1 e h

  module _ (reschedules : Bool) where
    abbrev pub woken_at : ℕ → Woken
    woken_at k = record {
      database = (session k).0;
      rescheduled = if reschedules then id ∷ [] else [];
      attempts = k;
      pauses = k - 1;
      result = ok tt;
    }

    abbrev pub gave_up : ℕ → ℕ → Woken
    gave_up attempts pauses = record {
      database = db;
      rescheduled = [];
      attempts = attempts;
      pauses = pauses;
      result = err max_retries_exceeded;
    }

    -- What is left to do when the attempt `k` is the `n`-th from now and completes.
    abbrev done_at : ℕ → ℕ → Woken
    done_at k n = record (woken_at k) { attempts = n; pauses = n - 1 }

    after_success :
        (rest : InnerDb → Woken) (attempt : ℕ) (s : InnerDb × List (List ℕ) × Result (Unit {0}))
        → s.2 ≡ ok tt
        → attempted wire rlp peers rest reschedules id attempt s ≡ record {
          database = s.0;
          rescheduled = if reschedules then id ∷ [] else [];
          attempts = 1;
          pauses = 0;
          result = ok tt;
        }
    unfolding attempted
    after_success rest attempt (db', sent, ok done) h = refl
    after_success rest attempt (db', sent, err e) h = absurd cc
    after_success rest attempt (db', sent, panic) h = absurd cc

    after_failure :
        (rest : InnerDb → Woken) (k : ℕ) (s : InnerDb × List (List ℕ) × Result (Unit {0}))
        (e : TaskError)
        → s.2 ≡ err e
        → attempted wire rlp peers rest reschedules id k s
          ≡ J.failed_attempt wire rlp peers k (rest s.0)
    unfolding attempted
    after_failure rest k (db', sent, ok done) e h = absurd cc
    after_failure rest k (db', sent, err x) e h = refl
    after_failure rest k (db', sent, panic) e h = absurd cc

    abbrev from : ℕ → ℕ → Woken
    from left attempt = attempt_from wire rlp peers reschedules id left attempt db

    bad_attempt :
        (left attempt : ℕ)
        → Fails attempt
        → from (suc left) attempt
          ≡ J.failed_attempt wire rlp peers attempt (from left (suc attempt))
    unfolding attempt_from
    bad_attempt left attempt (e, h) =
        after_failure (attempt_from wire rlp peers reschedules id left (suc attempt)) attempt
          (session attempt) e h
        ∙ ap
            (λ d.
              J.failed_attempt wire rlp peers attempt
                (attempt_from wire rlp peers reschedules id left (suc attempt) d))
            (failed_session attempt e h)

    good_attempt :
        (left attempt : ℕ) → Completes attempt → from (suc left) attempt ≡ done_at attempt 1
    unfolding attempt_from
    good_attempt left attempt h =
        after_success (attempt_from wire rlp peers reschedules id left (suc attempt)) attempt
          (session attempt) h

    one_more_done :
        (k n attempt : ℕ)
        → attempt < 5
        → J.failed_attempt wire rlp peers attempt (done_at k (suc n)) ≡ done_at k (suc (suc n))
    unfolding J.failed_attempt
    one_more_done k n attempt low =
        let guard : ltb attempt 5 ≡ true = ground (arith, low) in
        let count : suc n + 1 ≡ suc (suc n) = omega arith in
        let pauses : suc n - 1 + 1 ≡ suc (suc n) - 1 = omega arith in rw (guard, count, pauses) refl

    first_good :
        (left attempt n : ℕ)
        → n < left
        → attempt + n ≤ 5
        → ((j : ℕ) → attempt ≤ j → j < attempt + n → Fails j)
        → Completes (attempt + n)
        → from left attempt ≡ done_at (attempt + n) (suc n)
    first_good zero attempt n high low failed good = absurd (omega arith)
    first_good (suc left) attempt zero high low failed good =
        let here : attempt + 0 ≡ attempt = omega arith in
        rw here (good_attempt left attempt (rw here at good))
    first_good (suc left) attempt (suc n) high low failed good =
        let there : attempt + suc n ≡ suc attempt + n = omega arith in
        bad_attempt left attempt (failed attempt (omega arith) (omega arith))
        ∙ ap (J.failed_attempt wire rlp peers attempt) (
            first_good left (suc attempt) n (omega arith) (omega arith)
              (λ j above below. failed j (omega arith) (omega arith)) (rw there at good))
        ∙ one_more_done (suc attempt + n) n attempt (omega arith)
        ∙ ap (λ k. done_at k (suc (suc n))) (sym there)

    one_more_lost :
        (attempt left : ℕ)
        → attempt + suc left ≡ 6
        → J.failed_attempt wire rlp peers attempt (gave_up left (left - 1))
          ≡ gave_up (suc left) left
    unfolding J.failed_attempt
    one_more_lost attempt zero whole = let here : attempt ≡ 5 = omega arith in rw here refl
    one_more_lost attempt (suc n) whole =
        let guard : ltb attempt 5 ≡ true = ground (arith, whole) in
        let count : suc n + 1 ≡ suc (suc n) = omega arith in
        let pauses : suc n - 1 + 1 ≡ suc n = omega arith in rw (guard, count, pauses) refl

    all_bad :
        (left attempt : ℕ)
        → attempt + left ≡ 6
        → ((j : ℕ) → attempt ≤ j → j < attempt + left → Fails j)
        → from left attempt ≡ gave_up left (left - 1)
    unfolding attempt_from
    all_bad zero attempt whole failed = refl
    all_bad (suc left) attempt whole failed =
        let last : suc left - 1 ≡ left = omega arith in
        bad_attempt left attempt (failed attempt (omega arith) (omega arith))
        ∙ ap (J.failed_attempt wire rlp peers attempt) (
            all_bad left (suc attempt) (omega arith)
              (λ j above below. failed j (omega arith) (omega arith)))
        ∙ one_more_lost attempt left whole
        ∙ ap (gave_up (suc left)) (sym last)

    begins :
        (device : Device) (ip : List ℕ)
        → Db.get_device id db ≡ DbTypes.Result.ok device
        → ip_of device ≡ some ip
        → run_wake_up wire rlp peers reschedules id db ≡ from max_retries 1
    unfolding run_wake_up attempt_from
    begins device ip known has_ip = rw (known, has_ip, run_wake_up) refl

    -- A job for a device with an IP stops at its first attempt that succeeds, if that is one of the
    -- first five: it has made a pause for each attempt before, leaves the database as that attempt
    -- left it when it began with the database of the start, and hands the device back to the
    -- scheduler if it has a channel to it.
    pub run_wake_up-stops :
        (device : Device) (ip : List ℕ) (k : ℕ)
        → Db.get_device id db ≡ DbTypes.Result.ok device
        → ip_of device ≡ some ip
        → 1 ≤ k
        → k ≤ max_retries
        → ((j : ℕ) → 1 ≤ j → j < k → Fails j)
        → Completes k
        → run_wake_up wire rlp peers reschedules id db ≡ woken_at k
    run_wake_up-stops device ip k known has_ip low high failed good =
        let n = k - 1 in
        let there : 1 + n ≡ k = omega arith in
        let count : suc n ≡ k = omega arith in
        begins device ip known has_ip
        ∙ first_good max_retries 1 n (omega arith) (omega arith)
            (λ j above below. failed j above (omega arith)) (rw there good)
        ∙ ap (λ i. done_at i (suc n)) there
        ∙ ap (done_at k) count

    pub run_wake_up-gives_up :
        (device : Device) (ip : List ℕ)
        → Db.get_device id db ≡ DbTypes.Result.ok device
        → ip_of device ≡ some ip
        → ((j : ℕ) → 1 ≤ j → j ≤ 5 → Fails j)
        → run_wake_up wire rlp peers reschedules id db ≡ gave_up 5 4
    run_wake_up-gives_up device ip known has_ip failed =
        begins device ip known has_ip
        ∙ all_bad max_retries 1 refl (λ j above below. failed j above (omega arith))
