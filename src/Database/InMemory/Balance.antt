-- ===== src/Database/InMemory/Balance.antt =====
-- How many devices are in each bucket (`get_bucket_with_less_devices` of
-- src/common/database/in_memory.rs).
use head_end_system_tpp.Prelude.{ℕ, zero, suc, ◌+◌, ◌≤◌, ◌<◌, ◌≡◌, refl, arith, Option, none, some}
use head_end_system_tpp.Prelude.{
  List, [], ◌∷◌, length, replicate, ◌==◌, if◌then◌else◌, Bool-cases, inl, inr, ==_iff, ==_refl,
}
use head_end_system_tpp.Prelude.Map
use head_end_system_tpp.Prelude.Map.{Map}
use head_end_system_tpp.Database.{Result, ok, err, ℤ, pos, negsuc}
use head_end_system_tpp.Database.InMemory.{InnerDb, bump, count_buckets, min_count, position}
use head_end_system_tpp.Database.InMemory.{get_bucket_with_less_devices, add_device_to_bucket}
use mathlib.Core.Option

abbrev pub is_bucket : ℕ → ℤ → ℕ
is_bucket b (pos c) = if c == b then 1 else 0
is_bucket b (negsuc c) = 0

-- How many devices are in the bucket `b`.
abbrev pub load : ℕ → Map (ℤ × ℕ) → ℕ
load b [] = 0
load b ((id, (c, node)) ∷ m) = is_bucket b c + load b m

abbrev at : ℕ → List ℕ → ℕ
at i [] = 0
at zero (c ∷ cs) = c
at (suc i) (c ∷ cs) = at i cs

at-bump :
    (i j : ℕ) (cs : List ℕ) → i < length cs → at j (bump i cs) ≡ (if i == j then 1 else 0) + at j cs
unfolding bump
at-bump i j [] h = absurd (omega arith)
at-bump zero zero (c ∷ cs) h = ground arith
at-bump zero (suc j) (c ∷ cs) h = ground arith
at-bump (suc i) zero (c ∷ cs) h = ground arith
at-bump (suc i) (suc j) (c ∷ cs) h = ground (arith, at-bump i j cs)

length-bump : (i : ℕ) (cs : List ℕ) → length (bump i cs) ≡ length cs
unfolding bump
length-bump i [] = refl
length-bump zero (c ∷ cs) = refl
length-bump (suc i) (c ∷ cs) = omega (arith, length-bump i cs)

length-count_buckets :
    (m : Map (ℤ × ℕ)) (cs : List ℕ) → length (count_buckets cs (Map.values m)) ≡ length cs
unfolding count_buckets Map.values
length-count_buckets [] cs = refl
length-count_buckets ((id, (pos b, node)) ∷ m) cs =
    ground (arith, length-bump b cs, length-count_buckets m (bump b cs), length-count_buckets m cs)
length-count_buckets ((id, (negsuc b, node)) ∷ m) cs = length-count_buckets m cs

at-count_buckets :
    (b : ℕ) (m : Map (ℤ × ℕ)) (cs : List ℕ)
    → b < length cs
    → at b (count_buckets cs (Map.values m)) ≡ at b cs + load b m
unfolding count_buckets Map.values
at-count_buckets b [] cs h = omega arith
at-count_buckets b ((id, (pos c, node)) ∷ m) cs h = ground (
  arith,
  at-bump c b cs,
  length-bump c cs,
  at-count_buckets b m (bump c cs),
  at-count_buckets b m cs,
)
at-count_buckets b ((id, (negsuc c, node)) ∷ m) cs h = omega (arith, at-count_buckets b m cs h)

at-replicate : (b n : ℕ) → at b (replicate n 0) ≡ 0
at-replicate b zero = refl
at-replicate zero (suc n) = refl
at-replicate (suc b) (suc n) = at-replicate b n

length-replicate : (n : ℕ) → length (replicate {A = ℕ} n 0) ≡ n
length-replicate zero = refl
length-replicate (suc n) = omega (arith, length-replicate n)

min_count-le : (b : ℕ) (cs : List ℕ) → b < length cs → min_count cs ≤ at b cs
unfolding min_count
min_count-le b [] h = absurd (omega arith)
min_count-le zero (c ∷ []) h = omega arith
min_count-le (suc b) (c ∷ []) h = absurd (omega arith)
min_count-le zero (c ∷ d ∷ cs) h = ground arith
min_count-le (suc b) (c ∷ d ∷ cs) h = ground (arith, min_count-le b (d ∷ cs))

abbrev Holds : ℕ → List ℕ → Option ℕ → Type 0
Holds n cs none = ⊥
Holds n cs (some i) = (i < length cs) × (at i cs ≡ n)

Holds-suc :
    (n c : ℕ) (cs : List ℕ) (o : Option ℕ) → Holds n cs o → Holds n (c ∷ cs) (Option.map suc o)
Holds-suc n c cs none h = absurd h
Holds-suc n c cs (some i) h = (omega (arith, h.0), h.1)

-- The position of the minimum is found.
position-min_count :
    (n : ℕ) (cs : List ℕ) → n ≡ min_count cs → 0 < length cs → Holds n cs (position n cs)
unfolding min_count position
position-min_count n [] e h = absurd (omega arith)
position-min_count n (c ∷ []) e h = rw (e, ==_refl c) (omega arith, refl)
position-min_count n (c ∷ d ∷ cs) e h = elim (Bool-cases (c == n)) [
  | inl same ↦ rw same (omega arith, (==_iff c n).0 same)
  | inr other ↦ rw other (
      Holds-suc n c (d ∷ cs) (position n (d ∷ cs))
        (position-min_count n (d ∷ cs) (ground arith) (omega arith)))
]

Holds-get_or :
    (n : ℕ) (cs : List ℕ) (o : Option ℕ) → Holds n cs o → Holds n cs (some (Option.get_or o 0))
Holds-get_or n cs none h = absurd h
Holds-get_or n cs (some i) h = h

-- A bucket of the range that holds at most as many devices as the bucket `b`.
abbrev pub IsLighter : ℕ → ℕ → InnerDb → Result ℕ → Type 0
IsLighter total b db (err e) = ⊥
IsLighter total b db (ok r) = (r < total) × (load r db.buckets ≤ load b db.buckets)

pub counts : (total : ℕ) (db : InnerDb) → List ℕ
counts total db = count_buckets (replicate total 0) (Map.values db.buckets)

length-counts : (total : ℕ) (db : InnerDb) → length (counts total db) ≡ total
unfolding counts
length-counts total db =
    omega (arith, length-count_buckets db.buckets (replicate total 0), length-replicate total)

at-counts : (b total : ℕ) (db : InnerDb) → b < total → at b (counts total db) ≡ load b db.buckets
unfolding counts
at-counts b total db h = omega (
  arith,
  at-count_buckets b db.buckets (replicate total 0) (omega (arith, length-replicate total)),
  at-replicate b total,
)

-- The bucket that `get_bucket_with_less_devices` returns is one of the `total` buckets, and no
-- bucket `b` of them holds fewer devices.
pub least_loaded :
    (total b : ℕ) (db : InnerDb)
    → b < total
    → IsLighter total b db (get_bucket_with_less_devices total db)
unfolding get_bucket_with_less_devices counts
least_loaded total b db h =
    let cs = counts total db in
    let len = length-counts total db in
    let found =
      Holds-get_or (min_count cs) cs (position (min_count cs) cs)
        (position-min_count (min_count cs) cs refl (omega (arith, len, h))) in
    let r = Option.get_or (position (min_count cs) cs) 0 in
    let inside : r < total = omega (arith, found.0, len) in
    (
      inside,
      omega (
        arith,
        found.1,
        min_count-le b cs (omega (arith, len, h)),
        at-counts b total db h,
        at-counts r total db inside,
      ),
    )

load-insert_new :
    (b id : ℕ) (c : ℤ) (node : ℕ) (m : Map (ℤ × ℕ))
    → Map.get id m ≡ none
    → load b (Map.insert id (c, node) m) ≡ is_bucket b c + load b m
unfolding Map.insert Map.get
load-insert_new b id c node [] h = refl
load-insert_new b id c node ((j, (d, owner)) ∷ m) h = ground (arith, load-insert_new b id c node m)

-- No two of the buckets differ by more than one device.
abbrev pub IsBalanced : ℕ → InnerDb → Type 0
IsBalanced total db = (b c : ℕ) → b < total → c < total → load b db.buckets ≤ 1 + load c db.buckets

-- A device without a bucket is added to a bucket `r` that holds no more devices than any other.
pub add_device_to_bucket-IsBalanced :
    (total r id node : ℕ) (db : InnerDb)
    → Map.get id db.buckets ≡ none
    → ((b : ℕ) → b < total → load r db.buckets ≤ load b db.buckets)
    → IsBalanced total db
    → IsBalanced total (add_device_to_bucket id (pos r) node db).0
unfolding add_device_to_bucket
add_device_to_bucket-IsBalanced total r id node db new least bal b c hb hc = ground (
  arith,
  bal b c hb hc,
  least c hc,
  ==_iff r b,
  ==_iff r c,
  load-insert_new b id (pos r) node db.buckets new,
  load-insert_new c id (pos r) node db.buckets new,
)
