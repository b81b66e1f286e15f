-- ===== src/Cluster/FailureDetector/Interleaved.antt =====
-- The handlers of the failure detector (src/cluster/failure_detector.rs) with whatever other tasks do
-- to the list between their sections.
use head_end_system_tpp.Prelude.{
  ℕ, ◌≡◌, refl, arith, Bool, true, false, Bool-cases, Option, none, some, Option-cases, inl, inr,
  List, [], length, get_elem?, ◌%◌, ◌-◌, ◌*◌, ◌/◌, ◌≤◌, ◌<◌, ◌≢◌, ◌∙◌, leb, ltb, ◌==◌, ==_iff,
  ==_refl, if◌then◌else◌,
}
use head_end_system_tpp.Wire.{Bytes}
use head_end_system_tpp.Cluster.Address.{SocketAddr, AddrText}
use head_end_system_tpp.Cluster.Node.{
  NodeInfo, Float32, touch, time_since_heartbeat, active, suspect, is_status, status_code,
}
use head_end_system_tpp.Cluster.Membership as M
use head_end_system_tpp.Cluster.Membership.{MembershipList, get_node}
use head_end_system_tpp.Cluster.Membership.Valid.{IsValid}
use head_end_system_tpp.Cluster.Membership.Steps
use head_end_system_tpp.Cluster.Membership.Steps.{Reach, run-IsValid}
use head_end_system_tpp.Cluster.Membership.Lookup.{get_node-remove_node, get_node-mark_suspect}
use head_end_system_tpp.Cluster.FailureDetector as D
use head_end_system_tpp.Cluster.FailureDetector.{
  Outside, Action, handle_suspect_node, handle_dead_node,
}

module _ (bytes : Bytes) (text : AddrText) (f : Float32) (o : Outside f.F) where
  -- The other tasks keep the list valid.
  abbrev pub IsKeeping : Type 0
  IsKeeping = (k : ℕ) (m : MembershipList f.F) → IsValid m → IsValid (o.meanwhile k m)

  stepped : {m m' : MembershipList f.F} → Steps.Step f m m' → IsValid m → IsValid m'
  stepped s v = run-IsValid f (Reach.next Reach.here s) v

  probe_through-IsValid :
      (id : ℕ) (target : SocketAddr) (m : MembershipList f.F)
      → IsKeeping
      → IsValid m
      → IsValid (D.probe_through bytes text f o id target m).0
  unfolding D.probe_through
  probe_through-IsValid id target m keep v =
      elim (Bool-cases (o.takes target (D.probe_packet bytes text f o id m))) [
        | inl sent ↦ rw (sent, D.probe_through) (keep 4 (M.next_seq m).0 (stepped Steps.seq v))
        | inr lost ↦ rw (lost, D.probe_through) (stepped Steps.seq v)
      ]

  indirect_probe-IsValid :
      (id : ℕ) (m : MembershipList f.F)
      → IsKeeping
      → IsValid m
      → IsValid (D.indirect_probe bytes text f o id m).0
  unfolding D.indirect_probe
  indirect_probe-IsValid id m keep v =
      elim (Option-cases (
        get_elem? (D.probe_helpers bytes text f o id m)
          (o.random % length (D.probe_helpers bytes text f o id m)))) [
            | inl nobody ↦ rw (nobody, D.indirect_probe) v
            | inr (n, helper) ↦
                rw (helper, D.indirect_probe)
                  (probe_through-IsValid id n.cluster_addr (o.meanwhile 3 m) keep (keep 3 m v))
          ]

  probed-IsValid :
      (id : ℕ) (m : MembershipList f.F) (actions : List Action) (alive : Bool)
      → IsKeeping
      → IsValid m
      → IsValid (D.probed bytes text f o id (m, actions, alive)).0
  unfolding D.probed D.revive touch
  probed-IsValid id m actions true keep v =
      stepped (Steps.write id (D.revive bytes text f o) (λ n. refl)) (keep 5 m v)
  probed-IsValid id m actions false keep v = v

  suspected-IsValid :
      (id : ℕ) (m : MembershipList f.F)
      → IsKeeping
      → IsValid m
      → IsValid (D.suspected bytes text f o id m).0
  unfolding D.suspected
  suspected-IsValid id m keep v =
      let announced = o.meanwhile 1 (M.next_seq (o.meanwhile 0 m)).0 in
      let (probe, actions, alive) = D.indirect_probe bytes text f o id (o.meanwhile 2 announced) in
      probed-IsValid id probe actions alive keep (
        indirect_probe-IsValid id (o.meanwhile 2 announced) keep (
          keep 2 announced
            (keep 1 (M.next_seq (o.meanwhile 0 m)).0 (stepped Steps.seq (keep 0 m v)))))

  -- The list that the first section leaves, if the handler goes on.
  IsLeft : Option (MembershipList f.F) → Type 0
  IsLeft none = Unit {0}
  IsLeft (some m) = IsValid m

  suspect_section-IsLeft :
      (id : ℕ) (m : MembershipList f.F) → IsValid m → IsLeft (D.suspect_section bytes text f o id m)
  unfolding D.suspect_section IsLeft
  suspect_section-IsLeft id m v = elim (Option-cases (get_node id m)) [
    | inl unknown ↦ rw (unknown, D.suspect_section) tt
    | inr (n, known) ↦
        rw (known, D.suspect_section)
          (elim (Bool-cases (leb (time_since_heartbeat (o.now 0) n) o.config.suspect_timeout)) [
            | inl heard ↦ rw heard tt
            | inr overdue ↦ rw overdue (stepped (Steps.suspect id) v)
          ])
  ]

  pub handle_suspect_node-IsValid :
      (id : ℕ) (m : MembershipList f.F)
      → ((k : ℕ) (m : MembershipList f.F) → IsValid m → IsValid (o.meanwhile k m))
      → IsValid m
      → IsValid (handle_suspect_node bytes text f o id m).0
  unfolding handle_suspect_node IsLeft
  handle_suspect_node-IsValid id m keep v =
      goes_on (D.suspect_section bytes text f o id m) (suspect_section-IsLeft id m v)
    where
      goes_on :
          (r : Option (MembershipList f.F))
          → IsLeft r
          → IsValid
              (elim r as (λ r. MembershipList f.F × List Action) [
                | none ↦ (m, [])
                | some m' ↦ D.suspected bytes text f o id m'
              ]).0
      goes_on none left = v
      goes_on (some m') left = suspected-IsValid id m' keep left

  -- What the other tasks do does not concern the node `id`.
  abbrev IsQuiet : ℕ → Type 0
  IsQuiet id = (k : ℕ) (m : MembershipList f.F) → get_node id (o.meanwhile k m) ≡ get_node id m

  later_still :
      (n : NodeInfo f.F)
      → o.now 0 ≤ o.now 4
      → o.config.suspect_timeout < (o.now 0 - n.last_heartbeat) / 1000000 * 1000000
      → ltb (time_since_heartbeat (o.now 4) n) o.config.suspect_timeout ≡ false
  unfolding time_since_heartbeat
  later_still n clock overdue = ground (arith, clock, overdue)

  probe_through-unheard :
      (id : ℕ) (target : SocketAddr) (n : NodeInfo f.F) (m : MembershipList f.F)
      → IsQuiet id
      → get_node id m ≡ some n
      → ltb (time_since_heartbeat (o.now 4) n) o.config.suspect_timeout ≡ false
      → (get_node id (D.probe_through bytes text f o id target m).0 ≡ some n)
        × ((D.probe_through bytes text f o id target m).2 ≡ false)
  unfolding D.probe_through D.was_heard M.next_seq get_node
  probe_through-unheard id target n m quiet known silent =
      let after : get_node id (o.meanwhile 4 (M.next_seq m).0) ≡ some n =
        quiet 4 (M.next_seq m).0 ∙ known in
      elim (Bool-cases (o.takes target (D.probe_packet bytes text f o id m))) [
        | inl sent ↦ rw (sent, D.probe_through) (after, rw (after, D.was_heard) silent)
        | inr lost ↦ rw (lost, D.probe_through) (known, refl)
      ]

  indirect_probe-unheard :
      (id : ℕ) (n : NodeInfo f.F) (m : MembershipList f.F)
      → IsQuiet id
      → get_node id m ≡ some n
      → ltb (time_since_heartbeat (o.now 4) n) o.config.suspect_timeout ≡ false
      → (get_node id (D.indirect_probe bytes text f o id m).0 ≡ some n)
        × ((D.indirect_probe bytes text f o id m).2 ≡ false)
  unfolding D.indirect_probe
  indirect_probe-unheard id n m quiet known silent =
      elim (Option-cases (
        get_elem? (D.probe_helpers bytes text f o id m)
          (o.random % length (D.probe_helpers bytes text f o id m)))) [
            | inl nobody ↦ rw (nobody, D.indirect_probe) (known, refl)
            | inr (helper, found) ↦
                rw (found, D.indirect_probe)
                  (probe_through-unheard id helper.cluster_addr n (o.meanwhile 3 m) quiet
                    (quiet 3 m ∙ known) silent)
          ]

  probed-unheard :
      (id : ℕ) (n : NodeInfo f.F) (r : MembershipList f.F × List Action × Bool)
      → (get_node id r.0 ≡ some n) × (r.2 ≡ false)
      → get_node id (D.probed bytes text f o id r).0 ≡ some n
  unfolding D.probed
  probed-unheard id n (m, actions, true) (known, silent) = absurd (cc silent)
  probed-unheard id n (m, actions, false) (known, silent) = known

  suspected-unheard :
      (id : ℕ) (n : NodeInfo f.F) (m : MembershipList f.F)
      → IsQuiet id
      → get_node id m ≡ some n
      → ltb (time_since_heartbeat (o.now 4) n) o.config.suspect_timeout ≡ false
      → get_node id (D.suspected bytes text f o id m).0 ≡ some n
  unfolding D.suspected
  suspected-unheard id n m quiet known silent =
      let m1 = (M.next_seq (o.meanwhile 0 m)).0 in
      let counted : get_node id m1 ≡ some n = unfold M.next_seq get_node in quiet 0 m ∙ known in
      let m2 = o.meanwhile 2 (o.meanwhile 1 m1) in
      probed-unheard id n (D.indirect_probe bytes text f o id m2) (
        indirect_probe-unheard id n m2 quiet (quiet 2 (o.meanwhile 1 m1) ∙ quiet 1 m1 ∙ counted)
          silent)

  marked :
      (id : ℕ) (n : NodeInfo f.F) (m : MembershipList f.F)
      → get_node id m ≡ some n
      → id ≢ m.local_node.node_id
      → n.status ≡ active
      → get_node id (M.mark_suspect id m) ≡ some (record n { status = suspect })
  unfolding get_node is_status status_code
  marked id n m known other up = ground (
    arith,
    known,
    other,
    up,
    ==_iff id m.local_node.node_id,
    ==_refl id,
    get_node-mark_suspect id id m,
  )

  section :
      (id : ℕ) (n : NodeInfo f.F) (m : MembershipList f.F)
      → get_node id m ≡ some n
      → D.suspect_section bytes text f o id m ≡ (
          if leb ((o.now 0 - n.last_heartbeat) / 1000000 * 1000000) o.config.suspect_timeout
          then none
          else some (M.mark_suspect id m))
  unfolding D.suspect_section time_since_heartbeat
  section id n m known = rw (known, D.suspect_section) refl

  -- If no other task changes what is found for an active node that is not this one, and the clock does
  -- not go back until the probe is over, then after `handle_suspect_node` the node is found as it was
  -- if its last heartbeat was not longer ago than the suspect timeout of the detector, counted in
  -- whole milliseconds, and otherwise as suspect.
  pub handle_suspect_node_lem :
      (id : ℕ) (n : NodeInfo f.F) (m : MembershipList f.F)
      → ((k : ℕ) (l : MembershipList f.F) → get_node id (o.meanwhile k l) ≡ get_node id l)
      → o.now 0 ≤ o.now 4
      → get_node id m ≡ some n
      → id ≢ m.local_node.node_id
      → n.status ≡ active
      → get_node id (handle_suspect_node bytes text f o id m).0
        ≡ some (
            if leb ((o.now 0 - n.last_heartbeat) / 1000000 * 1000000) o.config.suspect_timeout
            then n
            else record n { status = suspect })
  unfolding handle_suspect_node
  handle_suspect_node_lem id n m quiet clock known other up =
      elim (Bool-cases
        (leb ((o.now 0 - n.last_heartbeat) / 1000000 * 1000000) o.config.suspect_timeout)) [
          | inl heard ↦ rw (section id n m known, heard, handle_suspect_node) known
          | inr overdue ↦
              rw (section id n m known, overdue, handle_suspect_node)
                ((suspected-unheard id (record n { status = suspect }) (M.mark_suspect id m) quiet
                  (marked id n m known other up)
                  (later_still (record n { status = suspect }) clock (ground (arith, overdue)))))
        ]

  -- A node that was found is not found after `handle_dead_node`, unless it is this node, whatever the
  -- other tasks did meanwhile, hearing from the node included.
  pub handle_dead_node_lem :
      (id : ℕ) (n : NodeInfo f.F) (m : MembershipList f.F)
      → get_node id m ≡ some n
      → get_node id (handle_dead_node bytes text f o id m).0 ≡ (
          if id == (handle_dead_node bytes text f o id m).0.local_node.node_id
          then some (handle_dead_node bytes text f o id m).0.local_node
          else none)
  unfolding handle_dead_node D.confirmed_dead M.remove_node
  handle_dead_node_lem id n m known =
      rw (known, handle_dead_node)
        (removed (
          o.meanwhile 4
            (D.redistributed bytes text f o (D.announced_dead bytes text f o (M.mark_dead id m)))))
    where
      removed :
          (left : MembershipList f.F)
          → get_node id (M.remove_node id left).0
            ≡ (if id == left.local_node.node_id then some left.local_node else none)
      removed left = ground (arith, ==_refl id, (get_node-remove_node id id left).1)
