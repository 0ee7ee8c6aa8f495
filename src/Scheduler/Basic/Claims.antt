-- ===== src/Scheduler/Basic/Claims.antt =====
-- The claimed resources of basic.rs, against the placements that they are meant to sum up.
use barenetes.Base.{
  ℕ, String, ◌<◌, ◌≡◌, refl, true, not, none, some, [], ◌∷◌, filter, if◌then◌else◌, Equality, ◌==◌,
  string_eq, pair_eq, arith, inl, inr, Option-cases, Bool-cases,
}
use barenetes.Base.Map.{
  Map, lookup, contains_key, insert, remove, Distinct, lookup-insert, lookup-remove,
  insert-Distinct, remove-Distinct, filter-Distinct, remove_absent, remove-some, insert-some,
  filter-some, lookup-remove_self,
}
use barenetes.Base.Int32.{wrapping_add}
use barenetes.Shared.{Resources, Node}
use barenetes.Scheduler.Basic.{
  PodKey, Placement, BasicScheduler, claimed_of, add_resources, sub_resources, release_claim,
  drop_placement, release_placement, claim_placement, record_placement, remove_node, upsert_node,
  same_placement, placed_on, release_all, evict_node,
}

-- The sum of one resource over the placements on a node, as an `i32`.
abbrev pub total : {K : Type 0} → (Resources → ℕ) → String → Map K Placement → ℕ
total f n [] = 0
total f n ((k, p) ∷ m) =
    let rest = total f n m in if p.node == n then wrapping_add rest (f p.limits) else rest

-- The bookkeeping is right: each pod is placed once, every node with a placement has an entry, and
-- the entry of a node is the sum of the limits of the pods placed there.
pub record IsBalanced (s : BasicScheduler) : Type 0 where
  pub distinct : Distinct s.placements
  pub tracked :
      (k : PodKey) (p : Placement)
      → lookup k s.placements ≡ some p
      → contains_key p.node s.claimed ≡ true
  pub cpu : (n : String) → (claimed_of n s.claimed).cpu ≡ total (λ r. r.cpu) n s.placements
  pub memory : (n : String) → (claimed_of n s.claimed).memory ≡ total (λ r. r.memory) n s.placements

module _ {K : Type 0} ⦃e : Equality K⦄ (f : Resources → ℕ) (n : String) where
  pub total-lt : (m : Map K Placement) → total f n m < 4294967296
  total-lt [] = omega arith
  total-lt ((k, p) ∷ m) = ground (arith, total-lt m)

  pub total-insert :
      (k : K) (p : Placement) (m : Map K Placement)
      → lookup k m ≡ none
      → total f n (insert k p m)
        ≡ (if p.node == n then wrapping_add (total f n m) (f p.limits) else total f n m)
  total-insert k p [] h = refl
  total-insert k p ((j, q) ∷ m) h = ground (arith, total-insert k p m)

  pub total-remove :
      (k : K) (p : Placement) (m : Map K Placement)
      → Distinct m
      → lookup k m ≡ some p
      → total f n m ≡ (
          if p.node == n
          then wrapping_add (total f n (remove k m)) (f p.limits)
          else total f n (remove k m))
  total-remove k p [] d h = cc
  total-remove k p ((j, q) ∷ m) d h =
      ground (arith, total-remove k p m, e.beq_iff j k, remove_absent k m)

  -- Dropping every placement on one node leaves the other nodes' sums and empties its own.
  pub total-filter :
      (name : String) (m : Map K Placement)
      → total f n (filter (λ x. not (x.1.node == name)) m) ≡ (if name == n then 0 else total f n m)
  total-filter name [] = ground arith
  total-filter name ((j, q) ∷ m) = ground (
    arith,
    total-filter name m,
    string_eq.beq_iff q.node name,
    string_eq.beq_iff q.node n,
    string_eq.beq_iff name n,
  )

-- The claims after a drop and after a new placement, node by node.
module _ (n : String) (p : Placement) (m : Map String Resources) where
  claimed_of-release :
      contains_key p.node m ≡ true
      → claimed_of n (release_claim p m)
        ≡ (if p.node == n then sub_resources (claimed_of n m) p.limits else claimed_of n m)
  claimed_of-release h = elim (Option-cases (lookup p.node m)) [
    | inl e ↦ ground arith
    | inr (c, e) ↦
        ground
          (arith, lookup-insert p.node n (sub_resources c p.limits) m, string_eq.beq_iff p.node n)
  ]

  pub claimed_of-claim :
      claimed_of n (insert p.node (add_resources (claimed_of p.node m) p.limits) m)
      ≡ (if p.node == n then add_resources (claimed_of n m) p.limits else claimed_of n m)
  claimed_of-claim = ground (
    arith,
    lookup-insert p.node n (add_resources (claimed_of p.node m) p.limits) m,
    string_eq.beq_iff p.node n,
  )

  tracked-release : contains_key n m ≡ true → contains_key n (release_claim p m) ≡ true
  tracked-release h = elim (Option-cases (lookup p.node m)) [
    | inl e ↦ ground arith
    | inr (c, e) ↦ ground (arith, lookup-insert p.node n (sub_resources c p.limits) m)
  ]

pub drop_placement-IsBalanced :
    (k : PodKey) (p : Placement) (s : BasicScheduler)
    → IsBalanced s
    → lookup k s.placements ≡ some p
    → IsBalanced (drop_placement k p s)
unfolding drop_placement
drop_placement-IsBalanced k p s b h = record {
  distinct = remove-Distinct k s.placements b.distinct;
  tracked =
      λ j q e. tracked-release q.node p s.claimed (b.tracked j q (remove-some k j s.placements e));
  cpu = λ n. ground (
    arith,
    claimed_of-release n p s.claimed (b.tracked k p h),
    b.cpu n,
    total-remove (λ r. r.cpu) n k p s.placements b.distinct h,
    total-lt (λ r. r.cpu) n (remove k s.placements),
  );
  memory = λ n. ground (
    arith,
    claimed_of-release n p s.claimed (b.tracked k p h),
    b.memory n,
    total-remove (λ r. r.memory) n k p s.placements b.distinct h,
    total-lt (λ r. r.memory) n (remove k s.placements),
  );
}

pub claim_placement-IsBalanced :
    (k : PodKey) (p : Placement) (s : BasicScheduler)
    → IsBalanced s
    → lookup k s.placements ≡ none
    → IsBalanced (claim_placement k p s)
unfolding claim_placement
claim_placement-IsBalanced k p s b h = record {
  distinct = insert-Distinct k p s.placements b.distinct;
  tracked = λ j q e. elim (insert-some k j p s.placements e) [
    | inl (_, same) ↦
        ground
          (arith, lookup-insert p.node q.node (claims) s.claimed, string_eq.beq_iff p.node q.node)
    | inr (_, old) ↦
        ground (arith, lookup-insert p.node q.node (claims) s.claimed, b.tracked j q old)
  ];
  cpu = λ n. ground (
    arith,
    claimed_of-claim n p s.claimed,
    b.cpu n,
    total-insert (λ r. r.cpu) n k p s.placements h,
  );
  memory = λ n. ground (
    arith,
    claimed_of-claim n p s.claimed,
    b.memory n,
    total-insert (λ r. r.memory) n k p s.placements h,
  );
}
  where
    claims : Resources
    claims = add_resources (claimed_of p.node s.claimed) p.limits

pub release_placement-IsBalanced :
    (k : PodKey) (s : BasicScheduler) → IsBalanced s → IsBalanced (release_placement k s).0
unfolding release_placement
release_placement-IsBalanced k s b = elim (Option-cases (lookup k s.placements)) [
  | inl e ↦ rw (e, release_placement) b
  | inr (p, e) ↦ rw (e, release_placement) (drop_placement-IsBalanced k p s b e)
]

pub release_placement-lookup :
    (k : PodKey) (s : BasicScheduler) → lookup k (release_placement k s).0.placements ≡ none
unfolding release_placement drop_placement
release_placement-lookup k s = elim (Option-cases (lookup k s.placements)) [
  | inl e ↦ rw (e, release_placement) e
  | inr (p, e) ↦ rw (e, release_placement) (lookup-remove_self k s.placements)
]

-- Recording a placement, new, repeated or moved, keeps the bookkeeping right.
pub record_placement-IsBalanced :
    (k : PodKey) (p : Placement) (s : BasicScheduler)
    → IsBalanced s
    → IsBalanced (record_placement k p s)
unfolding record_placement
record_placement-IsBalanced k p s b = elim (Option-cases (lookup k s.placements)) [
  | inl e ↦ rw (e, record_placement) (claim_placement-IsBalanced k p s b e)
  | inr (old, e) ↦ elim (Bool-cases (same_placement old p)) [
    | inl same ↦ rw (e, same, record_placement) b
    | inr other ↦
        rw (e, other, record_placement)
          (claim_placement-IsBalanced k p _ (release_placement-IsBalanced k s b)
            (release_placement-lookup k s))
  ]
]

pub release_all-IsBalanced :
    (m : Map PodKey Placement) (s : BasicScheduler) → IsBalanced s → IsBalanced (release_all m s)
unfolding release_all
release_all-IsBalanced [] s b = b
release_all-IsBalanced ((k, p) ∷ m) s b =
    release_all-IsBalanced m (release_placement k s).0 (release_placement-IsBalanced k s b)

pub evict_node-IsBalanced :
    (name : String) (s : BasicScheduler) → IsBalanced s → IsBalanced (evict_node name s).0
unfolding evict_node
evict_node-IsBalanced name s b = release_all-IsBalanced (placed_on name s.placements) s b

pub upsert_node-IsBalanced :
    (node : Node) (s : BasicScheduler) → IsBalanced s → IsBalanced (upsert_node node s).0
unfolding upsert_node
upsert_node-IsBalanced node s b = record {
  distinct = b.distinct;
  tracked = b.tracked;
  cpu = b.cpu;
  memory = b.memory;
}

pub remove_node-IsBalanced :
    (name : String) (s : BasicScheduler) → IsBalanced s → IsBalanced (remove_node name s)
unfolding remove_node
remove_node-IsBalanced name s b = record {
  distinct = filter-Distinct (λ x. not (x.1.node == name)) s.placements b.distinct;
  tracked = λ j q e.
      let (old, elsewhere) =
        filter-some (λ x. not (x.1.node == name)) j s.placements b.distinct e in
      ground (
        arith,
        b.tracked j q old,
        lookup-remove name q.node s.claimed,
        string_eq.beq_iff q.node name,
        string_eq.beq_iff name q.node,
      );
  cpu = λ n. ground (
    arith,
    b.cpu n,
    lookup-remove name n s.claimed,
    total-filter (λ r. r.cpu) n name s.placements,
  );
  memory = λ n. ground (
    arith,
    b.memory n,
    lookup-remove name n s.claimed,
    total-filter (λ r. r.memory) n name s.placements,
  );
}
