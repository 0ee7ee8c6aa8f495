-- ===== src/Scheduler/Basic/Place/Safety.antt =====
-- What holds once a pod is recorded on the node that `place` named.
use barenetes.Base.{
  ℕ, String, ◌≤◌, ◌≡◌, refl, sym, ap, ◌∙◌, subst, true, false, none, some, List, [], ◌∷◌, map,
  Member, ok, ◌==◌, string_eq, pair_eq, nat_eq, arith, inl, inr, Option-cases, Bool-cases, Some-eq,
}
use barenetes.Base.Map.{Map, lookup, remove, Distinct}
use barenetes.Base.Int32.{i32_lt, IsNonneg, max_zero, wrapping_sub, wrapping_add}
use barenetes.Shared.{Resources, Port, Node, Pod}
use barenetes.Scheduler.Basic.{
  PodKey, PortKey, Placement, BasicScheduler, has_port, port_keys, claimed_of,
  effective_allocatable, record_placement, claim_placement,
}
use barenetes.Scheduler.Basic.Claims.{IsBalanced, claimed_of-claim, record_placement-IsBalanced}
use barenetes.Scheduler.Basic.Ports.{
  bound, IsExclusive, IsFree, bound-remove-false, record_placement-IsExclusive,
}
use barenetes.Scheduler.Basic.Keyed.{IsKeyed}
use barenetes.Scheduler.Basic.Place.{Float32, place}
use barenetes.Scheduler.Basic.Place.Choice.{Fits, place_lem}

-- The node that an answer of `place` names, with the pod's limits.
pub place-ok :
    (F : Float32) (s : BasicScheduler) (pod : Pod) (ports : List Port) (name : String)
    → place F s pod ports ≡ ok name
    → (r : Resources) × (n : Node) × (pod.limits ≡ some r) × Fits s r ports n × (n.name ≡ name)
unfolding place
place-ok F s pod ports name h = elim (Option-cases pod.limits) [
  | inl e ↦ absurd (ground arith)
  | inr (r, e) ↦ elim (place_lem F s pod ports r e) [
    | inl (n, f, e') ↦ (r, n, e, f, cc)
    | inr (_, (reason, e', _)) ↦ absurd (cc)
  ]
]

has_port-Member : (q : PortKey) (ps : List PortKey) → has_port q ps ≡ true → Member q ps
has_port-Member q [] h = cc
has_port-Member q (x ∷ ps) h = elim (Bool-cases (q == x)) [
  | inl same ↦ inl (ground arith)
  | inr other ↦ inr (has_port-Member q ps (ground arith))
]

Fits-IsFree :
    (k : PodKey) (p : Placement) (s : BasicScheduler) (r : Resources) (n : Node)
    → IsExclusive s
    → Fits s r p.ports n
    → n.name ≡ p.node
    → IsFree k p s
Fits-IsFree k p s r n x f named q has =
    subst (λ z. bound z q (remove k s.placements) ≡ false) named
      (bound-remove-false n.name q k s.placements
        (sym (x.claims n.name q) ∙ f.free q (has_port-Member q (port_keys p.ports) has)))

-- In a balanced state with exclusive ports, recording a pod on the node that place named for it
-- keeps the sums of claims right and every host port of every node with one pod at most.
pub place-record_placement :
    (F : Float32) (k : PodKey) (s : BasicScheduler) (pod : Pod) (ports : List Port) (name : String)
    (r : Resources)
    → IsBalanced s
    → IsExclusive s
    → pod.limits ≡ some r
    → place F s pod ports ≡ ok name
    → let s' = record_placement k (record { node = name; limits = r; ports = ports }) s in
      IsBalanced s' × IsExclusive s'
place-record_placement F k s pod ports name r b x limits e =
    (record_placement-IsBalanced k p s b, record_placement-IsExclusive k p s b x free)
  where
    p : Placement
    p = record { node = name; limits = r; ports = ports }

    free : IsFree k p s
    free =
        let (r', n, e', f, named) = place-ok F s pod ports name e in
        Fits-IsFree k p s r' n x f named

abbrev pub CoveredBy : Resources → Resources → Type 0
CoveredBy c a = (c.cpu ≤ a.cpu) × IsNonneg a.cpu × (c.memory ≤ a.memory) × IsNonneg a.memory

-- No node has more claimed on it than it reported as allocatable, which is an amount of zero or
-- more; then no subtraction of `effective_allocatable` wraps or is cut off at zero.
abbrev pub IsWithin : BasicScheduler → Type 0
IsWithin s =
    (k : String) (n : Node) (a : Resources)
    → lookup k s.nodes ≡ some n
    → n.allocatable ≡ some a
    → CoveredBy (claimed_of n.name s.claimed) a

value-lookup :
    (m : Map String Node) (n : Node)
    → Distinct m
    → Member n (map (λ e. e.1) m)
    → (k : String) × (lookup k m ≡ some n)
value-lookup [] n d h = elim h [ ]
value-lookup ((k, w) ∷ m) n d (inl e) = (k, ground (arith, string_eq.beq_iff k k))
value-lookup ((k, w) ∷ m) n d (inr h) =
    let (j, found) = value-lookup m n d.1 h in (j, ground (arith, string_eq.beq_iff k j))

-- The arithmetic of one resource: what fits beside the claims can be claimed.
claim_fits :
    (a c r : ℕ)
    → c ≤ a
    → IsNonneg a
    → IsNonneg r
    → i32_lt r (max_zero (wrapping_sub a c)) ≡ true
    → wrapping_add c r ≤ a
claim_fits a c r le na nr h = ground arith

same_name :
    (s : BasicScheduler) (j k : String) (m n : Node)
    → IsKeyed s
    → lookup j s.nodes ≡ some m
    → lookup k s.nodes ≡ some n
    → m.name ≡ n.name
    → m ≡ n
same_name s j k m n y em en e =
    let same : j ≡ k = sym (y.named j m em) ∙ e ∙ y.named k n en in
    cc (em, en, ap (λ z. lookup z s.nodes) same)

-- The room on a node, in terms of its claims.
effective-parts :
    (s : BasicScheduler) (n : Node) (a r : Resources)
    → n.allocatable ≡ some a
    → ((b : Resources) × (effective_allocatable s n ≡ some b)
        × (i32_lt r.cpu b.cpu ≡ true)
        × (i32_lt r.memory b.memory ≡ true))
    → (i32_lt r.cpu (max_zero (wrapping_sub a.cpu (claimed_of n.name s.claimed).cpu)) ≡ true)
      × (i32_lt r.memory (max_zero (wrapping_sub a.memory (claimed_of n.name s.claimed).memory))
          ≡ true)
unfolding effective_allocatable
effective-parts s n a r e (b, e', c, m) = ground arith

abbrev HasRoom : BasicScheduler → Resources → Node → Type 0
HasRoom s r n =
    (b : Resources) × (effective_allocatable s n ≡ some b)
    × (i32_lt r.cpu b.cpu ≡ true)
    × (i32_lt r.memory b.memory ≡ true)

module _ (s : BasicScheduler) (k : PodKey) (p : Placement) (w : IsWithin s) where
  -- A node with room for the claim stays covered, and so does a node that is not claimed on.
  claim-CoveredBy :
      (j : String) (m : Node) (a : Resources)
      → IsNonneg p.limits.cpu
      → IsNonneg p.limits.memory
      → lookup j s.nodes ≡ some m
      → m.allocatable ≡ some a
      → (p.node ≡ m.name → HasRoom s p.limits m)
      → CoveredBy (claimed_of m.name (claim_placement k p s).claimed) a
  unfolding claim_placement
  claim-CoveredBy j m a nc nm em ea room = elim (Bool-cases (p.node == m.name)) [
    | inl same ↦
        let (cle, cb, mle, mb) = w j m a em ea in
        let (rc, rm) =
          effective-parts s m a p.limits ea (room ((string_eq.beq_iff p.node m.name).0 same)) in
        rw (claimed_of-claim m.name p s.claimed, same)
          (
            claim_fits a.cpu (claimed_of m.name s.claimed).cpu p.limits.cpu cle cb nc rc,
            cb,
            claim_fits a.memory (claimed_of m.name s.claimed).memory p.limits.memory mle mb nm rm,
            mb,
          )
    | inr other ↦ rw (claimed_of-claim m.name p s.claimed, other) (w j m a em ea)
  ]

record_placement-claim :
    (k : PodKey) (p : Placement) (s : BasicScheduler)
    → lookup k s.placements ≡ none
    → record_placement k p s ≡ claim_placement k p s
unfolding record_placement
record_placement-claim k p s e = rw (e, record_placement)

claim_placement-nodes :
    (k : PodKey) (p : Placement) (s : BasicScheduler) → (claim_placement k p s).nodes ≡ s.nodes
unfolding claim_placement
claim_placement-nodes k p s = refl

-- Recording a pod that had no placement, with limits of zero or more, on the node that place
-- named never commits more of a node than it has: if no node was overcommitted before, none is
-- after.
pub place-IsWithin :
    (F : Float32) (k : PodKey) (s : BasicScheduler) (pod : Pod) (ports : List Port) (name : String)
    (r : Resources)
    → IsKeyed s
    → IsWithin s
    → lookup k s.placements ≡ none
    → pod.limits ≡ some r
    → IsNonneg r.cpu
    → IsNonneg r.memory
    → place F s pod ports ≡ ok name
    → IsWithin (record_placement k (record { node = name; limits = r; ports = ports }) s)
place-IsWithin F k s pod ports name r y w new limits nc nm e =
    subst IsWithin (sym (record_placement-claim k p s new)) within
  where
    p : Placement
    p = record { node = name; limits = r; ports = ports }

    within : IsWithin (claim_placement k p s)
    within j m a em ea =
        let (r', n, e', f, named) = place-ok F s pod ports name e in
        let (i, found) = value-lookup s.nodes n y.distinct f.known in
        let em' : lookup j s.nodes ≡ some m =
          subst (λ z. lookup j z ≡ some m) (claim_placement-nodes k p s) em in
        claim-CoveredBy s k p w j m a nc nm em' ea (λ on.
          subst (HasRoom s r) (sym (same_name s j i m n y em' found (sym on ∙ sym named)))
            (subst (λ z. HasRoom s z n) (Some-eq (sym e' ∙ limits)) f.room))
