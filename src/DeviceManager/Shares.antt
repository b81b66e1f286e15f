-- ===== src/DeviceManager/Shares.antt =====
-- How many of the devices of a node that failed each node gets (src/device_manager/device_manager.rs).
use head_end_system_tpp.Prelude.{
  ℕ, zero, suc, ◌+◌, ◌-◌, ◌%◌, ◌≤◌, ◌<◌, ◌≡◌, refl, sym, ap, ◌∙◌, arith, true, false, some, List,
  [], ◌∷◌, ◌==◌, ==_iff, leb, if◌then◌else◌, length, get_elem?, map, Bool-cases, inl, inr,
}
use head_end_system_tpp.Prelude.Map.{IsDistinct}
use head_end_system_tpp.Database.InMemory.{InnerDb}
use head_end_system_tpp.Scheduler.Devices as D
use head_end_system_tpp.DeviceManager.{DeviceManager}
use head_end_system_tpp.DeviceManager.Ownership as O
use head_end_system_tpp.DeviceManager.Owned.{owner_of}
use head_end_system_tpp.DeviceManager.Redistribute.{Distinct}
use head_end_system_tpp.DeviceManager.Owned.{is_node}
use head_end_system_tpp.DeviceManager.Dealt.{
  mod_below, id_of, turn_of, orphans, after_failure, dealt_by_all_nodes,
}
use mathlib.Core.Option
use native.Mathlib.Nat.{mod-add-mod, mod-eq_of_lt, mod_self}

mod_next : (i n : ℕ) → 0 < n → suc i % n ≡ (if suc (i % n) == n then 0 else suc (i % n))
mod_next i n h =
    let below = mod_below i n h in
    let as_sum : suc i ≡ i + 1 = omega arith in
    let as_sum' : suc (i % n) ≡ i % n + 1 = omega arith in
    let both : suc i % n ≡ suc (i % n) % n = rw (as_sum, as_sum') (sym (mod-add-mod i n 1)) in
    elim (Bool-cases (suc (i % n) == n)) [
      | inl last ↦ rw (last, both) (rw ((==_iff (suc (i % n)) n).0 last) (mod_self n))
      | inr inner ↦ rw (inner, both) (mod-eq_of_lt (ground arith))
    ]

-- How many of the indices from `i` on, `m` of them, fall to the node at place `p` of `n`.
abbrev pub share : ℕ → ℕ → ℕ → ℕ → ℕ
share n p i zero = 0
share n p i (suc m) = (if i % n == p then 1 else 0) + share n p (suc i) m

-- How far the place `p` is ahead of the place `r` in a round of `n`.
abbrev ahead : ℕ → ℕ → ℕ → ℕ
ahead n r p = if leb r p then p - r else p + n - r

-- Of two places, the one whose turn comes first has as many as the other or one more.
share_first :
    (n p q m i : ℕ)
    → p < n
    → q < n
    → ahead n (i % n) p < ahead n (i % n) q
    → (share n q i m ≤ share n p i m) × (share n p i m ≤ share n q i m + 1)
share_first n p q zero i hp hq first = (omega arith, omega arith)
share_first n p q (suc m) i hp hq first =
    let below = mod_below i n (omega arith) in
    let turn = mod_next i n (omega arith) in
    elim (Bool-cases (i % n == p)) [
      | inl hit ↦
          let rest = share_first n q p m (suc i) hq hp (ground (arith, hit, turn)) in
          ground (arith, hit, rest)
      | inr miss ↦
          let rest = share_first n p q m (suc i) hp hq (ground (arith, miss, turn)) in
          ground (arith, miss, rest)
    ]

share_even : (n p q m : ℕ) → p < n → q < n → share n p 0 m ≤ share n q 0 m + 1
share_even n p q m hp hq =
    let start : 0 % n ≡ 0 = mod-eq_of_lt (omega arith) in
    elim (Bool-cases (leb q p)) [
      | inl after ↦ elim (Bool-cases (p == q)) [
        | inl same ↦ rw ((==_iff p q).0 same) (omega arith)
        | inr other ↦
            ground (arith, (share_first n q p m 0 hq hp (ground (arith, start, after, other))).0)
      ]
      | inr before ↦ (share_first n p q m 0 hp hq (ground (arith, start, before))).1
    ]

-- How many devices of a list a node owns.
abbrev pub count_owned : ℕ → List ℕ → InnerDb → ℕ
count_owned t [] db = 0
count_owned t (d ∷ ds) db = (if is_node t (owner_of d db) then 1 else 0) + count_owned t ds db

absent_id :
    (nodes : List (ℕ × ℕ)) (r t : ℕ)
    → D.contains t (map id_of nodes) ≡ false
    → is_node t (Option.map id_of (get_elem? nodes r)) ≡ false
unfolding D.contains
absent_id [] r t absent = refl
absent_id (n ∷ ns) zero t absent = ground (arith, absent)
absent_id (n ∷ ns) (suc r) t absent = absent_id ns r t (ground (arith, absent))

present_id :
    (nodes : List (ℕ × ℕ)) (p t : ℕ)
    → Option.map id_of (get_elem? nodes p) ≡ some t
    → D.contains t (map id_of nodes) ≡ true
unfolding D.contains
present_id [] p t h = cc
present_id (n ∷ ns) zero t h = ground (arith, h)
present_id (n ∷ ns) (suc p) t h = ground (arith, present_id ns p t h)

-- The nodes are different, so a place is found by its id.
found_place :
    (nodes : List (ℕ × ℕ)) (p t : ℕ)
    → Option.map id_of (get_elem? nodes p) ≡ some t
    → p < length nodes
found_place [] p t h = cc
found_place (n ∷ ns) zero t h = omega arith
found_place (n ∷ ns) (suc p) t h = omega (arith, found_place ns p t h)

place :
    (nodes : List (ℕ × ℕ)) (r p t : ℕ)
    → Distinct (map id_of nodes)
    → Option.map id_of (get_elem? nodes p) ≡ some t
    → is_node t (Option.map id_of (get_elem? nodes r)) ≡ (r == p)
place [] r p t distinct h = cc
place (n ∷ ns) zero zero t distinct h = ground (arith, h)
place (n ∷ ns) zero (suc p) t distinct h =
    ground (arith, present_id ns p t h, distinct.0, ==_iff n.0 t)
place (n ∷ ns) (suc r) zero t distinct h =
    let t_is : n.0 ≡ t = ground (arith, h) in
    ground (arith, absent_id ns r t (rw t_is at distinct.0))
place (n ∷ ns) (suc r) (suc p) t distinct h = ground (arith, place ns r p t distinct.1 h)

counted :
    (nodes : List (ℕ × ℕ)) (p t : ℕ) (db : InnerDb) (ds : List ℕ) (i : ℕ)
    → Distinct (map id_of nodes)
    → Option.map id_of (get_elem? nodes p) ≡ some t
    → ((k d : ℕ) → get_elem? ds k ≡ some d → owner_of d db ≡ turn_of nodes (i + k))
    → count_owned t ds db ≡ share (length nodes) p i (length ds)
counted nodes p t db [] i distinct found dealt = refl
counted nodes p t db (d ∷ ds) i distinct found dealt =
    let start : i + 0 ≡ i = omega arith in
    let first : owner_of d db ≡ turn_of nodes i = rw start at (dealt 0 d refl) in
    let hit = place nodes (i % length nodes) p t distinct found in
    let rest = counted nodes p t db ds (suc i) distinct found (λ k e h.
      let shift : i + suc k ≡ suc i + k = omega arith in rw shift at (dealt (suc k) e h)) in
    rw (first, hit, rest) refl

-- The devices of a node that fails are spread evenly: of any two active nodes, this one among them, one
-- gets at most one device more than the other, if no node stands twice among the active ones.
pub redistribute_from_failed-even :
    (failed p q t u : ℕ) (others : List (ℕ × ℕ)) (s : DeviceManager)
    → IsDistinct s.scheduler.database.buckets
    → Distinct (map id_of (O.all_nodes others s))
    → Option.map id_of (get_elem? (O.all_nodes others s) p) ≡ some t
    → Option.map id_of (get_elem? (O.all_nodes others s) q) ≡ some u
    → count_owned t (orphans failed s) (after_failure failed others s)
      ≤ count_owned u (orphans failed s) (after_failure failed others s) + 1
redistribute_from_failed-even failed p q t u others s once distinct at_p at_q =
    let nodes = O.all_nodes others s in
    let dealt = (dealt_by_all_nodes failed others s once).1 in
    let from_start : (k d : ℕ)
        → get_elem? (orphans failed s) k ≡ some d
        → owner_of d (after_failure failed others s) ≡ turn_of nodes (0 + k) =
      λ k d h. dealt k d h ∙ ap (turn_of nodes) (omega arith) in
    rw
      (
        counted nodes p t (after_failure failed others s) (orphans failed s) 0 distinct at_p
            from_start,
        counted nodes q u (after_failure failed others s) (orphans failed s) 0 distinct at_q
            from_start,
      )
      (share_even (length nodes) p q (length (orphans failed s)) (found_place nodes p t at_p)
        (found_place nodes q u at_q))
