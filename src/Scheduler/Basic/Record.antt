-- ===== src/Scheduler/Basic/Record.antt =====
-- `record_placement` of basic.rs: repeated, and undone by `release_placement`.
use barenetes.Base.{
  ◌≡◌, sym, ap, ◌∙◌, subst, if◌then◌else◌, true, none, some, ◌==◌, string_eq, pair_eq, arith, inl,
  inr, Option-cases, Bool-cases,
}
use barenetes.Base.Map.{
  lookup, remove, lookup-insert, lookup-remove, lookup-absent, lookup-insert_self,
  remove-insert_new,
}
use barenetes.Shared.{Node, resources_beq_iff, ports_beq_iff}
use barenetes.Scheduler.Basic.{
  PodKey, Placement, BasicScheduler, claimed_of, drop_placement, release_placement, claim_placement,
  record_placement, same_placement, effective_allocatable,
}
use barenetes.Scheduler.Basic.Claims.{
  IsBalanced, total, record_placement-IsBalanced, release_placement-IsBalanced,
}

same_placement-eq : (p q : Placement) → same_placement p q ≡ true → p ≡ q
same_placement-eq p q h = ground (
  arith,
  string_eq.beq_iff p.node q.node,
  resources_beq_iff p.limits q.limits,
  ports_beq_iff p.ports q.ports,
)

same_placement_refl : (p : Placement) → same_placement p p ≡ true
same_placement_refl p = ground (
  arith,
  string_eq.beq_iff p.node p.node,
  resources_beq_iff p.limits p.limits,
  ports_beq_iff p.ports p.ports,
)

pub record_placement-lookup :
    (k : PodKey) (p : Placement) (s : BasicScheduler)
    → lookup k (record_placement k p s).placements ≡ some p
unfolding record_placement claim_placement
record_placement-lookup k p s = elim (Option-cases (lookup k s.placements)) [
  | inl e ↦ rw (e, record_placement) (lookup-insert_self k p s.placements)
  | inr (old, e) ↦ elim (Bool-cases (same_placement old p)) [
    | inl same ↦ rw (e, same, record_placement) (e ∙ ap some (same_placement-eq old p same))
    | inr other ↦
        rw (e, other, record_placement)
          (lookup-insert_self k p (release_placement k s).0.placements)
  ]
]

record_placement_known :
    (k : PodKey) (p : Placement) (s : BasicScheduler)
    → lookup k s.placements ≡ some p
    → record_placement k p s ≡ s
unfolding record_placement
record_placement_known k p s e = rw (e, record_placement) (rw (same_placement_refl p))

-- Recording the same placement a second time changes nothing.
pub record_placement_idem :
    (k : PodKey) (p : Placement) (s : BasicScheduler)
    → record_placement k p (record_placement k p s) ≡ record_placement k p s
record_placement_idem k p s =
    record_placement_known k p (record_placement k p s) (record_placement-lookup k p s)

record_placement_new :
    (k : PodKey) (p : Placement) (s : BasicScheduler)
    → lookup k s.placements ≡ none
    → (release_placement k (record_placement k p s)).0.placements ≡ s.placements
unfolding record_placement claim_placement release_placement drop_placement
record_placement_new k p s e =
    rw (e, record_placement)
      (rw (lookup-insert_self k p s.placements, release_placement)
        (remove-insert_new k p s.placements e))

same_claims-allocatable :
    (s' s : BasicScheduler) (n : Node)
    → (claimed_of n.name s'.claimed).cpu ≡ (claimed_of n.name s.claimed).cpu
    → (claimed_of n.name s'.claimed).memory ≡ (claimed_of n.name s.claimed).memory
    → effective_allocatable s' n ≡ effective_allocatable s n
unfolding effective_allocatable
same_claims-allocatable s' s n cpu memory = ground arith

-- In a balanced state, recording a pod that has no placement and then releasing it gives every
-- node back the allocatable resources that it had, and the placements that were there.
pub release-record_placement :
    (k : PodKey) (p : Placement) (s : BasicScheduler)
    → IsBalanced s
    → lookup k s.placements ≡ none
    → let s' = (release_placement k (record_placement k p s)).0 in
      (s'.placements ≡ s.placements)
      × ((n : Node) → effective_allocatable s' n ≡ effective_allocatable s n)
release-record_placement k p s b e = (same, allocatable)
  where
    s' : BasicScheduler
    s' = (release_placement k (record_placement k p s)).0

    same : s'.placements ≡ s.placements
    same = record_placement_new k p s e

    b' : IsBalanced s'
    b' = release_placement-IsBalanced k _ (record_placement-IsBalanced k p s b)

    allocatable : (n : Node) → effective_allocatable s' n ≡ effective_allocatable s n
    allocatable n =
        same_claims-allocatable s' s n
          (b'.cpu n.name ∙ ap (total (λ r. r.cpu) n.name) same ∙ sym (b.cpu n.name))
          (b'.memory n.name ∙ ap (total (λ r. r.memory) n.name) same ∙ sym (b.memory n.name))

-- Recording one pod leaves the placements of the others.
pub record_placement-lookup_other :
    (k j : PodKey) (p : Placement) (s : BasicScheduler)
    → lookup j (record_placement k p s).placements
      ≡ (if k == j then some p else lookup j s.placements)
unfolding record_placement claim_placement release_placement drop_placement
record_placement-lookup_other k j p s = elim (Bool-cases (k == j)) [
  | inl same ↦ rw same (
      subst (λ z. lookup z (record_placement k p s).placements ≡ some p)
        ((pair_eq.beq_iff k j).0 same) (record_placement-lookup k p s))
  | inr other ↦ elim (Option-cases (lookup k s.placements)) [
    | inl e ↦ rw (e, record_placement) (lookup-insert k j p s.placements)
    | inr (old, e) ↦ elim (Bool-cases (same_placement old p)) [
      | inl same ↦ rw (e, same, other, record_placement)
      | inr differs ↦
          rw (e, differs, record_placement)
            (ground
              (arith, lookup-insert k j p (remove k s.placements), lookup-remove k j s.placements))
    ]
  ]
]

pub release_placement-lookup_ne :
    (k j : PodKey) (s : BasicScheduler)
    → lookup j (release_placement k s).0.placements
      ≡ (if k == j then none else lookup j s.placements)
unfolding release_placement drop_placement
release_placement-lookup_ne k j s = elim (Option-cases (lookup k s.placements)) [
  | inl e ↦ rw (e, release_placement) (lookup-absent k j s.placements e)
  | inr (p, e) ↦ rw (e, release_placement) (lookup-remove k j s.placements)
]
