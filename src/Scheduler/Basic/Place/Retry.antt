-- ===== src/Scheduler/Basic/Place/Retry.antt =====
-- The answer of `upsert_node` of basic.rs, against what `place` says before and after it.
use barenetes.Base.{
  ℕ, String, ◌≡◌, refl, sym, ap, ◌∙◌, subst, Bool, true, false, not, ◌&&◌, ◌||◌, none, some, List,
  [], ◌∷◌, map, Member, err, ◌==◌, string_eq, pair_eq, nat_eq, arith, ◌⊎◌, inl, inr, Option-cases,
  Bool-cases, Some-eq,
}
use barenetes.Base.Map.{Map, lookup, insert}
use barenetes.Base.Int32.{i32_lt, IsNonneg, max_zero, wrapping_sub}
use barenetes.Shared.{Resources, Port, Node, NodeStatus, node_status, Pod}
use barenetes.Scheduler.Basic.{
  BasicScheduler, has_port, ports_of, claimed_of, is_ready, effective_allocatable, upsert_node,
  should_retry, allocatable_increased,
}
use barenetes.Scheduler.Basic.Place.{Float32, missing_limits, place}
use barenetes.Scheduler.Basic.Place.Choice.{Fits, place_lem}
use barenetes.Scheduler.Basic.Keyed.{IsKeyed}

-- A value of the map after an insertion is the new one, under a key with the same spelling, or an
-- old one.
value-insert :
    (k : String) (v n : Node) (m : Map String Node)
    → Member n (map (λ e. e.1) (insert k v m))
    → (n ≡ v) ⊎ Member n (map (λ e. e.1) m)
value-insert k v n [] h = elim h [ inl e ↦ inl e | inr e ↦ absurd e ]
value-insert k v n ((j, w) ∷ m) h = elim (Bool-cases (j == k)) [
  | inl same ↦ elim (rw same at h) [ inl e ↦ inl e | inr i ↦ inr (inr i) ]
  | inr other ↦ elim (rw other at h) [
    | inl e ↦ inr (inl e)
    | inr i ↦ elim (value-insert k v n m i) [ inl e ↦ inl e | inr old ↦ inr (inr old) ]
  ]
]

lookup-value :
    (k : String) (n : Node) (m : Map String Node)
    → lookup k m ≡ some n
    → Member n (map (λ e. e.1) m)
lookup-value k n [] h = cc
lookup-value k n ((j, w) ∷ m) h = ground (arith, lookup-value k n m)

-- What the node reported is an amount of zero or more, and so is what is claimed on it.
abbrev pub IsSane : BasicScheduler → Node → Type 0
IsSane s n =
    IsNonneg (claimed_of n.name s.claimed).cpu
    × IsNonneg (claimed_of n.name s.claimed).memory
    × ((a : Resources) → n.allocatable ≡ some a → IsNonneg a.cpu × IsNonneg a.memory)

or-false : (a b : Bool) → (a || b) ≡ false → (a ≡ false) × (b ≡ false)
or-false a b h = ground arith

-- One resource: with no more allocatable than before, what fits now fitted before.
shrink_fits :
    (old new c r : ℕ)
    → IsNonneg old
    → IsNonneg new
    → IsNonneg c
    → i32_lt old new ≡ false
    → i32_lt r (max_zero (wrapping_sub new c)) ≡ true
    → i32_lt r (max_zero (wrapping_sub old c)) ≡ true
shrink_fits old new c r ho hn hc le h = ground arith

-- What is left of an amount beside the claims, for both resources.
abbrev left_of : Resources → Resources → Resources
left_of a c = record {
  cpu = max_zero (wrapping_sub a.cpu c.cpu);
  memory = max_zero (wrapping_sub a.memory c.memory);
}

effective-some :
    (s : BasicScheduler) (n : Node) (a : Resources)
    → n.allocatable ≡ some a
    → effective_allocatable s n ≡ some (left_of a (claimed_of n.name s.claimed))
unfolding effective_allocatable
effective-some s n a e = rw (e, effective_allocatable)

some-effective :
    (s : BasicScheduler) (n : Node) (b : Resources)
    → effective_allocatable s n ≡ some b
    → (a : Resources) × (n.allocatable ≡ some a) × (b ≡ left_of a (claimed_of n.name s.claimed))
unfolding effective_allocatable
some-effective s n b h = elim (Option-cases n.allocatable) [
  | inl e ↦ absurd (ground arith)
  | inr (a, e) ↦ (a, e, Some-eq (sym h ∙ effective-some s n a e))
]

-- The pod's limits are below what is left, in both resources.
abbrev Leaves : Resources → Resources → Type 0
Leaves r b = (i32_lt r.cpu b.cpu ≡ true) × (i32_lt r.memory b.memory ≡ true)

shrink-Leaves :
    (old new c r : Resources)
    → IsNonneg c.cpu × IsNonneg c.memory
    → IsNonneg old.cpu × IsNonneg old.memory
    → IsNonneg new.cpu × IsNonneg new.memory
    → allocatable_increased (some old) (some new) ≡ false
    → Leaves r (left_of new c)
    → Leaves r (left_of old c)
shrink-Leaves old new c r hc ho hn kept (rc, rm) = (
  shrink_fits old.cpu new.cpu c.cpu r.cpu ho.0 hn.0 hc.0 (or-false _ _ kept).0 rc,
  shrink_fits old.memory new.memory c.memory r.memory ho.1 hn.1 hc.1 (or-false _ _ kept).1 rm,
)

no_retry-increased :
    (old new : Node)
    → should_retry (some old) new ≡ false
    → ((is_ready new && not (is_ready old)) ≡ false)
      × (allocatable_increased old.allocatable new.allocatable ≡ false)
unfolding should_retry
no_retry-increased old new h = or-false _ _ h

module _ (s : BasicScheduler) (old new : Node) (same : old.name ≡ new.name) where
  -- A node that `should_retry` says nothing of, and that is ready with room now, was so before.
  no_retry-ready : should_retry (some old) new ≡ false → is_ready new ≡ true → is_ready old ≡ true
  no_retry-ready h up = elim (Bool-cases (is_ready old)) [
    | inl was ↦ was
    | inr down ↦
        let no_recovery = (no_retry-increased old new h).0 in
        absurd (cc (rw (up, down) at no_recovery))
  ]

  no_retry-room :
      (r b : Resources)
      → should_retry (some old) new ≡ false
      → IsSane s old
      → IsSane s new
      → effective_allocatable s new ≡ some b
      → Leaves r b
      → (a : Resources) × (effective_allocatable s old ≡ some a) × Leaves r a
  no_retry-room r b h so sn e leaves =
      let (new_a, new_e, is_left) = some-effective s new b e in
      let kept = (no_retry-increased old new h).1 in
      elim (Option-cases old.allocatable) [
        | inl none_old ↦ absurd (cc (rw (none_old, new_e) at kept))
        | inr (a, ea) ↦
            let c = claimed_of new.name s.claimed in
            let claims : claimed_of old.name s.claimed ≡ c =
              ap (λ z. claimed_of z s.claimed) same in
            (
              left_of a c,
              effective-some s old a ea ∙ ap (λ z. some (left_of a z)) claims,
              shrink-Leaves a new_a c r (sn.0, sn.1) (so.2 a ea) (sn.2 new_a new_e)
                  (rw (ea, new_e) at kept) (subst (Leaves r) is_left leaves),
            )
      ]

new_retries : (n : Node) → should_retry none n ≡ true
unfolding should_retry
new_retries n = refl

is_ready-status : (n : Node) → is_ready n ≡ true → node_status n ≡ NodeStatus.ready
is_ready-status n h = ground arith

status-is_ready : (n : Node) → node_status n ≡ NodeStatus.ready → is_ready n ≡ true
status-is_ready n h = rw (h, is_ready)

-- A node that fits after the update stands for one that fitted before it.
upsert-Fits :
    (node n : Node) (s : BasicScheduler) (r : Resources) (ports : List Port)
    → IsKeyed s
    → IsSane s node
    → ((old : Node) → lookup node.name s.nodes ≡ some old → IsSane s old)
    → (upsert_node node s).1 ≡ false
    → Fits (upsert_node node s).0 r ports n
    → (m : Node) × Fits s r ports m
unfolding upsert_node effective_allocatable
upsert-Fits node n s r ports y sane sane_old quiet f =
    elim (value-insert node.name node n s.nodes f.known) [
      | inr old ↦ (n, record { known = old; ready = f.ready; room = f.room; free = f.free })
      | inl is_node ↦ elim (Option-cases (lookup node.name s.nodes)) [
        | inl unknown ↦ absurd (cc (new_retries node, rw unknown at quiet))
        | inr (old, e) ↦
            let same : old.name ≡ node.name = y.named node.name old e in
            let kept : should_retry (some old) node ≡ false = rw e at quiet in
            let (b, eb, leaves) =
              subst (λ z. (b : Resources) × (effective_allocatable s z ≡ some b) × Leaves r b)
                is_node (f.room.0, f.room.1, (f.room.2, f.room.3)) in
            let (a, ea, (rc, rm)) =
              no_retry-room s old node same r b kept (sane_old old e) sane eb leaves in
            (
              old,
              record {
                known = lookup-value node.name old s.nodes e;
                ready = is_ready-status old (
                    no_retry-ready s old node same kept (
                      status-is_ready node
                        (subst (λ z. node_status z ≡ NodeStatus.ready) is_node f.ready)));
                room = (a, ea, rc, rm);
                free = λ q m.
                    subst (λ z. has_port q (ports_of z s.claimed_ports) ≡ false)
                      (ap (λ z. z.name) is_node ∙ sym same) (f.free q m);
              },
            )
      ]
    ]

-- When upsert_node answers that no retry is due, a pod that could not be placed before the
-- update cannot be placed after it, where the amounts of the node, reported and claimed, are
-- zero or more.
pub upsert_node-no_retry :
    (F : Float32) (s : BasicScheduler) (node : Node) (pod : Pod) (ports : List Port)
    (reason : String)
    → IsKeyed s
    → IsSane s node
    → ((old : Node) → lookup node.name s.nodes ≡ some old → IsSane s old)
    → (upsert_node node s).1 ≡ false
    → place F s pod ports ≡ err reason
    → (reason' : String) × (place F (upsert_node node s).0 pod ports ≡ err reason')
unfolding place
upsert_node-no_retry F s node pod ports reason y sane sane_old quiet h =
    elim (Option-cases pod.limits) [
      | inl e ↦ (missing_limits, rw (e, place))
      | inr (r, e) ↦ elim (place_lem F (upsert_node node s).0 pod ports r e) [
        | inr (_, (reason', e', _)) ↦ (reason', e')
        | inl (n, f, _) ↦
            let (m, fm) = upsert-Fits node n s r ports y sane sane_old quiet f in
            elim (place_lem F s pod ports r e) [
              | inl (k, _, placed) ↦ absurd (cc (sym placed ∙ h))
              | inr (never, _) ↦ absurd (never m fm)
            ]
      ]
    ]
