-- ===== src/Scheduler/Basic/Evict.antt =====
-- `evict_node` of basic.rs: what it takes off a node, and what it leaves on the others.
use barenetes.Base.{
  ℕ, String, ◌≡◌, ◌≢◌, ◌↔◌, refl, sym, ◌∙◌, true, false, Option, none, some, [], ◌∷◌, filter,
  Member, Member-filter, filter-Member, if◌then◌else◌, Equality, ◌==◌, string_eq, pair_eq, arith,
  inl, inr, Option-cases, Equality-refl,
}
use barenetes.Base.Map.{
  Map, lookup, contains_key, Distinct, lookup-insert, Member-lookup, lookup-Member,
  filter-lookup-none,
}
use barenetes.Shared.{Resources, zero_resources}
use barenetes.Scheduler.Basic.{
  PodKey, Placement, BasicScheduler, claimed_of, sub_resources, release_claim, drop_placement,
  release_placement, placed_on, release_all, evict_node,
}
use barenetes.Scheduler.Basic.Record.{release_placement-lookup_ne}
use barenetes.Scheduler.Basic.Claims.{IsBalanced, total, evict_node-IsBalanced}

release_all-lookup :
    (m : Map PodKey Placement) (j : PodKey) (s : BasicScheduler)
    → lookup j (release_all m s).placements
      ≡ (if contains_key j m then none else lookup j s.placements)
unfolding release_all
release_all-lookup [] j s = refl
release_all-lookup ((k, p) ∷ m) j s =
    ground
      (arith, release_all-lookup m j (release_placement k s).0, release_placement-lookup_ne k j s)

contains_key-placed_on :
    {K : Type 0} ⦃e : Equality K⦄ (name : String) (j : K) (m : Map K Placement)
    → Distinct m
    → contains_key j (filter (λ x. x.1.node == name) m)
      ≡ (elim (lookup j m) [ none ↦ false | some p ↦ p.node == name ])
contains_key-placed_on name j [] d = refl
contains_key-placed_on ⦃e⦄ name j ((i, q) ∷ m) d = ground (
  arith,
  contains_key-placed_on name j m d.1,
  filter-lookup-none (λ x. x.1.node == name) j m,
  e.beq_iff i j,
)

-- Who is still placed after an eviction.
pub survivors : String → Option Placement → Option Placement
survivors name none = none
survivors name (some p) = if p.node == name then none else some p

pub survives :
    (name : String) (p : Placement) → (p.node == name) ≡ false → survivors name (some p) ≡ some p
unfolding survivors
survives name p h = rw h

pub evict_node-lookup :
    (name : String) (j : PodKey) (s : BasicScheduler)
    → Distinct s.placements
    → lookup j (evict_node name s).0.placements ≡ survivors name (lookup j s.placements)
unfolding evict_node survivors
evict_node-lookup name j s d = ground (
  arith,
  release_all-lookup (placed_on name s.placements) j s,
  contains_key-placed_on name j s.placements d,
)

-- The claims on another node do not move while placements of one node are released.
claimed_of-release_other :
    (n : String) (p : Placement) (m : Map String Resources)
    → (p.node == n) ≡ false
    → claimed_of n (release_claim p m) ≡ claimed_of n m
claimed_of-release_other n p m h = elim (Option-cases (lookup p.node m)) [
  | inl e ↦ ground arith
  | inr (c, e) ↦ ground (arith, lookup-insert p.node n (sub_resources c p.limits) m)
]

-- Of the given keys, those still placed are placed on the node.
abbrev AllOn : String → Map PodKey Placement → BasicScheduler → Type 0
AllOn name m s =
    (k : PodKey) (p : Placement)
    → contains_key k m ≡ true
    → lookup k s.placements ≡ some p
    → p.node ≡ name

release_placement-claimed_of :
    (n name : String) (k : PodKey) (s : BasicScheduler)
    → name ≢ n
    → ((p : Placement) → lookup k s.placements ≡ some p → p.node ≡ name)
    → claimed_of n (release_placement k s).0.claimed ≡ claimed_of n s.claimed
unfolding release_placement drop_placement
release_placement-claimed_of n name k s ne on = elim (Option-cases (lookup k s.placements)) [
  | inl e ↦ rw (e, release_placement)
  | inr (p, e) ↦
      rw (e, release_placement)
        (claimed_of-release_other n p s.claimed
          (ground (arith, on p e, string_eq.beq_iff p.node n)))
]

release_all-claimed_of :
    (n name : String) (m : Map PodKey Placement) (s : BasicScheduler)
    → name ≢ n
    → AllOn name m s
    → claimed_of n (release_all m s).claimed ≡ claimed_of n s.claimed
unfolding release_all
release_all-claimed_of n name [] s ne on = refl
release_all-claimed_of n name ((k, p) ∷ m) s ne on =
    release_all-claimed_of n name m (release_placement k s).0 ne rest
    ∙ release_placement-claimed_of n name k s ne first
  where
    first : (q : Placement) → lookup k s.placements ≡ some q → q.node ≡ name
    first q e = on k q (ground (arith, Equality-refl k)) e

    rest : AllOn name m (release_placement k s).0
    rest j q inside e = on j q (ground arith) (ground (arith, release_placement-lookup_ne k j s))

total-none :
    {K : Type 0} ⦃e : Equality K⦄ (f : Resources → ℕ) (n : String) (m : Map K Placement)
    → Distinct m
    → ((k : K) (p : Placement) → lookup k m ≡ some p → p.node ≢ n)
    → total f n m ≡ 0
total-none f n [] d away = refl
total-none {K} ⦃e⦄ f n ((j, q) ∷ m) d away = ground (
  arith,
  total-none f n m d.1 rest,
  away j q (ground (arith, e.beq_iff j j)),
  string_eq.beq_iff q.node n,
)
  where
    rest : (k : K) (p : Placement) → lookup k m ≡ some p → p.node ≢ n
    rest k p h = away k p (ground (arith, e.beq_iff j k))

survivors-away :
    (name : String) (o : Option Placement) (p : Placement)
    → survivors name o ≡ some p
    → p.node ≢ name
unfolding survivors
survivors-away name none p h on = cc
survivors-away name (some q) p h on = ground (arith, string_eq.beq_iff q.node name)

-- In a balanced state the eviction of a node hands back exactly the pods that were placed
-- there, leaves every other placement as it was, sets the node's claims to zero, and moves no
-- other node's claims.
pub evict_node_lem :
    (name : String) (s : BasicScheduler)
    → IsBalanced s
    → let (s', evicted) = evict_node name s in
      ((k : PodKey) (p : Placement)
        → Member (k, p) evicted ↔ ((lookup k s.placements ≡ some p) × (p.node ≡ name)))
      × ((k : PodKey) → lookup k s'.placements ≡ survivors name (lookup k s.placements))
      × (claimed_of name s'.claimed ≡ zero_resources)
      × ((n : String) → name ≢ n → claimed_of n s'.claimed ≡ claimed_of n s.claimed)
unfolding evict_node
evict_node_lem name s b = (returned, left, emptied, others)
  where
    s' : BasicScheduler
    s' = release_all (placed_on name s.placements) s

    returned :
        (k : PodKey) (p : Placement)
        → Member (k, p) (placed_on name s.placements)
          ↔ ((lookup k s.placements ≡ some p) × (p.node ≡ name))
    returned k p = (
      λ h.
          let (mem, on) = Member-filter (λ x. x.1.node == name) (k, p) s.placements h in
          (Member-lookup k p s.placements b.distinct mem, (string_eq.beq_iff p.node name).0 on),
      λ h.
          filter-Member (λ x. x.1.node == name) (k, p) s.placements
            (lookup-Member k p s.placements h.0) ((string_eq.beq_iff p.node name).1 h.1),
    )

    left : (k : PodKey) → lookup k s'.placements ≡ survivors name (lookup k s.placements)
    left k = evict_node-lookup name k s b.distinct

    away : (k : PodKey) (p : Placement) → lookup k s'.placements ≡ some p → p.node ≢ name
    away k p e = survivors-away name (lookup k s.placements) p (sym (left k) ∙ e)

    b' : IsBalanced s'
    b' = evict_node-IsBalanced name s b

    emptied : claimed_of name s'.claimed ≡ zero_resources
    emptied = ground (
      arith,
      b'.cpu name,
      b'.memory name,
      total-none (λ r. r.cpu) name s'.placements b'.distinct away,
      total-none (λ r. r.memory) name s'.placements b'.distinct away,
    )

    others : (n : String) → name ≢ n → claimed_of n s'.claimed ≡ claimed_of n s.claimed
    others n ne = release_all-claimed_of n name (placed_on name s.placements) s ne on_node
      where
        on_node : AllOn name (placed_on name s.placements) s
        on_node k p inside e = ground (
          arith,
          contains_key-placed_on name k s.placements b.distinct,
          string_eq.beq_iff p.node name,
        )
