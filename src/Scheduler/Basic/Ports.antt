-- ===== src/Scheduler/Basic/Ports.antt =====
-- The claimed host ports of basic.rs, against the ports of the placements.
use barenetes.Base.{
  String, ◌≡◌, ◌↔◌, refl, sym, ap, ◌∙◌, subst, Bool, true, false, not, ◌&&◌, ◌||◌, none, some, List,
  [], ◌∷◌, ◌++◌, filter, any, if◌then◌else◌, Equality, ◌==◌, string_eq, nat_eq, pair_eq, arith, inl,
  inr, Option-cases, Bool-cases, any-Member,
}
use barenetes.Base.Map.{
  Map, lookup, contains_key, insert, remove, Distinct, lookup-insert, lookup-remove, Member-lookup,
  remove-some, insert-some, filter-some, lookup-remove_self, remove_absent, remove-Distinct,
}
use barenetes.Shared.{Node}
use barenetes.Scheduler.Basic.{
  PodKey, PortKey, Placement, BasicScheduler, has_port, port_keys, ports_of, without_ports,
  release_ports, drop_placement, release_placement, claim_placement, record_placement, remove_node,
  upsert_node, placed_on, release_all, evict_node, same_placement,
}
use barenetes.Scheduler.Basic.Claims.{
  IsBalanced, release_placement-IsBalanced, release_placement-lookup,
}

-- Some placement on the node has the host port.
abbrev pub bound : {K : Type 0} → String → PortKey → Map K Placement → Bool
bound n r = any (λ e. e.1.node == n && has_port r (port_keys e.1.ports))

-- No two pods on one node have a host port in common, and the ports claimed on a node are those of
-- the pods placed there.
pub record IsExclusive (s : BasicScheduler) : Type 0 where
  pub tracked :
      (k : PodKey) (p : Placement)
      → lookup k s.placements ≡ some p
      → contains_key p.node s.claimed_ports ≡ true
  pub claims :
      (n : String) (r : PortKey) → has_port r (ports_of n s.claimed_ports) ≡ bound n r s.placements
  pub apart :
      (j k : PodKey) (p q : Placement) (r : PortKey)
      → lookup j s.placements ≡ some p
      → lookup k s.placements ≡ some q
      → p.node ≡ q.node
      → has_port r (port_keys p.ports) ≡ true
      → has_port r (port_keys q.ports) ≡ true
      → j ≡ k

module _ {K : Type 0} ⦃e : Equality K⦄ (n : String) (r : PortKey) where
  bound-insert :
      (k : K) (p : Placement) (m : Map K Placement)
      → lookup k m ≡ none
      → bound n r (insert k p m) ≡ ((p.node == n && has_port r (port_keys p.ports)) || bound n r m)
  bound-insert k p [] h = refl
  bound-insert k p ((j, q) ∷ m) h = ground (arith, bound-insert k p m)

  bound-remove :
      (k : K) (p : Placement) (m : Map K Placement)
      → Distinct m
      → lookup k m ≡ some p
      → bound n r m ≡ ((p.node == n && has_port r (port_keys p.ports)) || bound n r (remove k m))
  bound-remove k p [] d h = cc
  bound-remove k p ((j, q) ∷ m) d h =
      ground (arith, bound-remove k p m, e.beq_iff j k, remove_absent k m)

  bound-filter :
      (name : String) (m : Map K Placement)
      → bound n r (filter (λ x. not (x.1.node == name)) m)
        ≡ (if name == n then false else bound n r m)
  bound-filter name [] = ground arith
  bound-filter name ((j, q) ∷ m) = ground (
    arith,
    bound-filter name m,
    string_eq.beq_iff q.node name,
    string_eq.beq_iff q.node n,
    string_eq.beq_iff name n,
  )

  -- The pod that has the port.
  pub bound-lookup :
      (m : Map K Placement)
      → Distinct m
      → bound n r m ≡ true
      → (k : K) × (p : Placement) × (lookup k m ≡ some p)
        × (p.node ≡ n)
        × (has_port r (port_keys p.ports) ≡ true)
  bound-lookup m d h =
      let ((k, p), mem, hit) = any-Member _ m h in
      (k, p, Member-lookup k p m d mem, ground (arith, string_eq.beq_iff p.node n), ground arith)

  bound-intro :
      (k : K) (p : Placement) (m : Map K Placement)
      → lookup k m ≡ some p
      → p.node ≡ n
      → has_port r (port_keys p.ports) ≡ true
      → bound n r m ≡ true
  bound-intro k p [] h on has = cc
  bound-intro k p ((j, q) ∷ m) h on has =
      ground (arith, bound-intro k p m, string_eq.beq_iff q.node n)

port_key_iff : (q r : PortKey) → ((q == r) ≡ true) ↔ (q ≡ r)
port_key_iff q r = ground arith

has_port-without :
    (r : PortKey) (gone ps : List PortKey)
    → has_port r (without_ports gone ps) ≡ (has_port r ps && not (has_port r gone))
has_port-without r gone [] = refl
has_port-without r gone (x ∷ ps) = elim (Bool-cases (r == x)) [
  | inl same ↦
      let eq : r ≡ x = (port_key_iff r x).0 same in ground (arith, has_port-without r gone ps)
  | inr other ↦ ground (arith, has_port-without r gone ps)
]

pub has_port-append :
    (r : PortKey) (ps qs : List PortKey) → has_port r (ps ++ qs) ≡ (has_port r ps || has_port r qs)
has_port-append r [] qs = refl
has_port-append r (x ∷ ps) qs = ground (arith, has_port-append r ps qs)

module _ (n : String) (r : PortKey) (p : Placement) (m : Map String (List PortKey)) where
  ports_of-release :
      contains_key p.node m ≡ true
      → has_port r (ports_of n (release_ports p m)) ≡ (
          if p.node == n
          then has_port r (ports_of n m) && not (has_port r (port_keys p.ports))
          else has_port r (ports_of n m))
  ports_of-release h = elim (Option-cases (lookup p.node m)) [
    | inl e ↦ ground arith
    | inr (ps, e) ↦ ground (
      arith,
      lookup-insert p.node n (without_ports (port_keys p.ports) ps) m,
      has_port-without r (port_keys p.ports) ps,
      string_eq.beq_iff p.node n,
    )
  ]

  ports_of-claim :
      has_port r (ports_of n (insert p.node (ports_of p.node m ++ port_keys p.ports) m)) ≡ (
        if p.node == n
        then has_port r (ports_of n m) || has_port r (port_keys p.ports)
        else has_port r (ports_of n m))
  ports_of-claim = ground (
    arith,
    lookup-insert p.node n (ports_of p.node m ++ port_keys p.ports) m,
    has_port-append r (ports_of p.node m) (port_keys p.ports),
    string_eq.beq_iff p.node n,
  )

  tracked-release : contains_key n m ≡ true → contains_key n (release_ports p m) ≡ true
  tracked-release h = elim (Option-cases (lookup p.node m)) [
    | inl e ↦ ground arith
    | inr (ps, e) ↦ ground (arith, lookup-insert p.node n (without_ports (port_keys p.ports) ps) m)
  ]

-- Once a placement is dropped, no other pod of its node has one of its ports.
bound-released :
    (k : PodKey) (p : Placement) (s : BasicScheduler) (r : PortKey)
    → IsExclusive s
    → Distinct s.placements
    → lookup k s.placements ≡ some p
    → has_port r (port_keys p.ports) ≡ true
    → bound p.node r (remove k s.placements) ≡ false
bound-released k p s r x d h hit = elim (Bool-cases (bound p.node r (remove k s.placements))) [
  | inr free ↦ free
  | inl taken ↦
      let (j, q, e, on, has) =
        bound-lookup p.node r (remove k s.placements) (remove-Distinct k s.placements d) taken in
      let same : k ≡ j = x.apart k j p q r h (remove-some k j s.placements e) (sym on) hit has in
      absurd (
        cc (
          subst (λ i. lookup i (remove k s.placements) ≡ some q) (sym same) e,
          lookup-remove_self k s.placements,
        ))
]

pub drop_placement-IsExclusive :
    (k : PodKey) (p : Placement) (s : BasicScheduler)
    → IsExclusive s
    → Distinct s.placements
    → lookup k s.placements ≡ some p
    → IsExclusive (drop_placement k p s)
unfolding drop_placement
drop_placement-IsExclusive k p s x d h = record {
  tracked = λ j q e.
      tracked-release q.node (0, 0) p s.claimed_ports
        (x.tracked j q (remove-some k j s.placements e));
  claims = λ n r. ground (
    arith,
    ports_of-release n r p s.claimed_ports (x.tracked k p h),
    x.claims n r,
    bound-remove n r k p s.placements d h,
    string_eq.beq_iff p.node n,
    bound-released k p s r x d h,
  );
  apart = λ i j q q' r hi hj.
      x.apart i j q q' r (remove-some k i s.placements hi) (remove-some k j s.placements hj);
}

-- The ports that a pod asks for are free on the node for every other pod.
abbrev pub IsFree : PodKey → Placement → BasicScheduler → Type 0
IsFree k p s =
    (r : PortKey)
    → has_port r (port_keys p.ports) ≡ true
    → bound p.node r (remove k s.placements) ≡ false

-- A pod that already has one of the ports on the node contradicts that they are free.
taken_elsewhere :
    {C : Type 0} (k j : PodKey) (p q : Placement) (s : BasicScheduler) (r : PortKey)
    → lookup k s.placements ≡ none
    → IsFree k p s
    → lookup j s.placements ≡ some q
    → q.node ≡ p.node
    → has_port r (port_keys p.ports) ≡ true
    → has_port r (port_keys q.ports) ≡ true
    → C
taken_elsewhere k j p q s r h free e on has has' = absurd (
    cc (
      bound-intro p.node r j q s.placements e on has',
      subst (λ m. bound p.node r m ≡ false) (remove_absent k s.placements h) (free r has),
    ))

pub claim_placement-IsExclusive :
    (k : PodKey) (p : Placement) (s : BasicScheduler)
    → IsExclusive s
    → Distinct s.placements
    → lookup k s.placements ≡ none
    → IsFree k p s
    → IsExclusive (claim_placement k p s)
unfolding claim_placement
claim_placement-IsExclusive k p s x d h free = record {
  tracked = λ j q e. elim (insert-some k j p s.placements e) [
    | inl (_, same) ↦ ground (
      arith,
      lookup-insert p.node q.node (claims) s.claimed_ports,
      string_eq.beq_iff p.node q.node,
    )
    | inr (_, old) ↦
        ground (arith, lookup-insert p.node q.node (claims) s.claimed_ports, x.tracked j q old)
  ];
  claims = λ n r. ground (
    arith,
    ports_of-claim n r p s.claimed_ports,
    x.claims n r,
    bound-insert n r k p s.placements h,
  );
  apart = λ i j q q' r ei ej on has has'. elim (insert-some k i p s.placements ei) [
    | inl (i_new, q_new) ↦ elim (insert-some k j p s.placements ej) [
      | inl (j_new, _) ↦ sym i_new ∙ j_new
      | inr (_, old) ↦
          taken_elsewhere k j p q' s r h free old (sym on ∙ sym (ap (λ z. z.node) q_new))
            (subst (λ z. has_port r (port_keys z.ports) ≡ true) (sym q_new) has) has'
    ]
    | inr (_, old) ↦ elim (insert-some k j p s.placements ej) [
      | inl (_, q_new) ↦
          taken_elsewhere k i p q s r h free old (on ∙ sym (ap (λ z. z.node) q_new))
            (subst (λ z. has_port r (port_keys z.ports) ≡ true) (sym q_new) has') has
      | inr (_, old') ↦ x.apart i j q q' r old old' on has has'
    ]
  ];
}
  where
    claims : List PortKey
    claims = ports_of p.node s.claimed_ports ++ port_keys p.ports

pub release_placement-IsExclusive :
    (k : PodKey) (s : BasicScheduler)
    → IsBalanced s
    → IsExclusive s
    → IsExclusive (release_placement k s).0
unfolding release_placement
release_placement-IsExclusive k s b x = elim (Option-cases (lookup k s.placements)) [
  | inl e ↦ rw (e, release_placement) x
  | inr (p, e) ↦ rw (e, release_placement) (drop_placement-IsExclusive k p s x b.distinct e)
]

release_placement-IsFree :
    (k : PodKey) (p : Placement) (s : BasicScheduler)
    → IsFree k p s
    → IsFree k p (release_placement k s).0
unfolding release_placement drop_placement
release_placement-IsFree k p s free r has = elim (Option-cases (lookup k s.placements)) [
  | inl e ↦ rw (e, release_placement) (free r has)
  | inr (q, e) ↦
      rw (e, release_placement, remove_absent k _ (lookup-remove_self k s.placements)) (free r has)
]

-- Recording a placement whose ports are free on its node keeps the ports of the nodes exclusive.
pub record_placement-IsExclusive :
    (k : PodKey) (p : Placement) (s : BasicScheduler)
    → IsBalanced s
    → IsExclusive s
    → IsFree k p s
    → IsExclusive (record_placement k p s)
unfolding record_placement
record_placement-IsExclusive k p s b x free = elim (Option-cases (lookup k s.placements)) [
  | inl e ↦ rw (e, record_placement) (claim_placement-IsExclusive k p s x b.distinct e free)
  | inr (old, e) ↦ elim (Bool-cases (same_placement old p)) [
    | inl same ↦ rw (e, same, record_placement) x
    | inr other ↦
        rw (e, other, record_placement)
          (claim_placement-IsExclusive k p _ (release_placement-IsExclusive k s b x)
            (release_placement-IsBalanced k s b).distinct (release_placement-lookup k s)
            (release_placement-IsFree k p s free))
  ]
]

release_all-IsExclusive :
    (m : Map PodKey Placement) (s : BasicScheduler)
    → IsBalanced s
    → IsExclusive s
    → IsExclusive (release_all m s)
unfolding release_all
release_all-IsExclusive [] s b x = x
release_all-IsExclusive ((k, p) ∷ m) s b x =
    release_all-IsExclusive m (release_placement k s).0 (release_placement-IsBalanced k s b)
      (release_placement-IsExclusive k s b x)

pub evict_node-IsExclusive :
    (name : String) (s : BasicScheduler)
    → IsBalanced s
    → IsExclusive s
    → IsExclusive (evict_node name s).0
unfolding evict_node
evict_node-IsExclusive name s b x = release_all-IsExclusive (placed_on name s.placements) s b x

pub upsert_node-IsExclusive :
    (node : Node) (s : BasicScheduler) → IsExclusive s → IsExclusive (upsert_node node s).0
unfolding upsert_node
upsert_node-IsExclusive node s x = record {
  tracked = x.tracked;
  claims = x.claims;
  apart = x.apart;
}

pub remove_node-IsExclusive :
    (name : String) (s : BasicScheduler)
    → IsBalanced s
    → IsExclusive s
    → IsExclusive (remove_node name s)
unfolding remove_node
remove_node-IsExclusive name s b x = record {
  tracked = λ j q e.
      let (old, elsewhere) =
        filter-some (λ y. not (y.1.node == name)) j s.placements b.distinct e in
      ground (
        arith,
        x.tracked j q old,
        lookup-remove name q.node s.claimed_ports,
        string_eq.beq_iff q.node name,
        string_eq.beq_iff name q.node,
      );
  claims = λ n r. ground (
    arith,
    x.claims n r,
    lookup-remove name n s.claimed_ports,
    bound-filter n r name s.placements,
  );
  apart = λ i j q q' r ei ej.
      x.apart i j q q' r (filter-some (λ y. not (y.1.node == name)) i s.placements b.distinct ei).0
        (filter-some (λ y. not (y.1.node == name)) j s.placements b.distinct ej).0;
}

-- A port that no placement of a map has, none has once an entry is gone.
pub bound-remove-false :
    {K : Type 0} ⦃e : Equality K⦄ (n : String) (r : PortKey) (k : K) (m : Map K Placement)
    → bound n r m ≡ false
    → bound n r (remove k m) ≡ false
bound-remove-false n r k [] h = refl
bound-remove-false n r k ((j, q) ∷ m) h = ground (arith, bound-remove-false n r k m)
