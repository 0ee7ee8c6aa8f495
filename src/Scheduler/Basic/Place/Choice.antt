-- ===== src/Scheduler/Basic/Place/Choice.antt =====
-- `place` of basic.rs: when it names a node, and the reasons that it gives otherwise.
use barenetes.Base.{
  String, ◌≡◌, refl, subst, ap, ◌∙◌, Bool, true, false, not, some, List, [], ◌∷◌, map, filter, any,
  Member, Member-filter, filter-Member, any-Member, any-false, Result, ok, err, string_eq, pair_eq,
  nat_eq, arith, ◌⊎◌, inl, inr, Option-cases, Bool-cases,
}
use barenetes.Base.Map.{lookup}
use barenetes.Base.Int32.{i32_lt}
use barenetes.Shared.{Resources, Port, Node, NodeStatus, node_status, Pod}
use barenetes.Scheduler.Basic.{
  PortKey, BasicScheduler, has_port, port_keys, ports_of, is_ready, effective_allocatable,
  ports_available,
}
use barenetes.Scheduler.Basic.Ports.{}
use barenetes.Scheduler.Basic.Place.{
  Float32, no_ready_node, no_capacity, no_free_port, ready_nodes, has_capacity,
  calculate_general_usage, better, elect, choose, fitting_nodes, candidate_nodes, place_within,
  place, unless_empty,
}

-- The node is ready, has more of both resources than the pod may use, and none of the pod's host
-- ports is claimed on it.
pub record Fits (s : BasicScheduler) (r : Resources) (ports : List Port) (n : Node) : Type 0 where
  pub known : Member n (map (λ e. e.1) s.nodes)
  pub ready : node_status n ≡ NodeStatus.ready
  pub room :
      (a : Resources) × (effective_allocatable s n ≡ some a)
      × (i32_lt r.cpu a.cpu ≡ true)
      × (i32_lt r.memory a.memory ≡ true)
  pub free :
      (q : PortKey)
      → Member q (port_keys ports)
      → has_port q (ports_of n.name s.claimed_ports) ≡ false

ports_available-free :
    (s : BasicScheduler) (n : Node) (ports : List Port)
    → ports_available s n ports ≡ true
    → (q : PortKey) → Member q (port_keys ports)
    → has_port q (ports_of n.name s.claimed_ports) ≡ false
unfolding ports_available
ports_available-free s n ports h q m = elim (Option-cases (lookup n.name s.claimed_ports)) [
  | inl e ↦ rw (e, ports_of)
  | inr (c, e) ↦
      rw (e, ports_of) (any-false (λ x. has_port x c) q (port_keys ports) (ground arith) m)
]

free-ports_available :
    (s : BasicScheduler) (n : Node) (ports : List Port)
    → ((q : PortKey)
        → Member q (port_keys ports)
        → has_port q (ports_of n.name s.claimed_ports) ≡ false)
    → ports_available s n ports ≡ true
unfolding ports_available
free-ports_available s n ports h = elim (Option-cases (lookup n.name s.claimed_ports)) [
  | inl e ↦ rw (e, ports_available)
  | inr (c, e) ↦ elim (Bool-cases (any (λ x. has_port x c) (port_keys ports))) [
    | inr no_clash ↦ rw (e, ports_available) (ap not no_clash)
    | inl clash ↦
        let (q, m, hit) = any-Member (λ x. has_port x c) (port_keys ports) clash in
        absurd (ground (arith, h q m))
  ]
]

capacity-room :
    (s : BasicScheduler) (r : Resources) (n : Node)
    → has_capacity s r n ≡ true
    → (a : Resources) × (effective_allocatable s n ≡ some a)
      × (i32_lt r.cpu a.cpu ≡ true)
      × (i32_lt r.memory a.memory ≡ true)
capacity-room s r n h = elim (Option-cases (effective_allocatable s n)) [
  | inl e ↦ absurd (ground arith)
  | inr (a, e) ↦ (a, e, ground arith, ground arith)
]

pub candidate-Fits :
    (s : BasicScheduler) (r : Resources) (ports : List Port) (n : Node)
    → Member n (candidate_nodes s r ports)
    → Fits s r ports n
candidate-Fits s r ports n m =
    let (m₁, available) = Member-filter (λ x. ports_available s x ports) n (fitting_nodes s r) m in
    let (m₂, capacity) = Member-filter (has_capacity s r) n (ready_nodes s) m₁ in
    let (m₃, is_up) = Member-filter is_ready n (map (λ e. e.1) s.nodes) m₂ in
    record {
      known = m₃;
      ready = ground arith;
      room = capacity-room s r n capacity;
      free = ports_available-free s n ports available;
    }

module _ (s : BasicScheduler) (r : Resources) (ports : List Port) (n : Node) where
  Fits-ready : Fits s r ports n → is_ready n ≡ true
  Fits-ready f = ground (arith, f.ready)

  Fits-up : Fits s r ports n → Member n (ready_nodes s)
  Fits-up f = filter-Member is_ready n (map (λ e. e.1) s.nodes) f.known (Fits-ready f)

  Fits-capacity : Fits s r ports n → has_capacity s r n ≡ true
  Fits-capacity f = let (a, e, c, m) = f.room in ground arith

  Fits-fitting : Fits s r ports n → Member n (fitting_nodes s r)
  Fits-fitting f = filter-Member (has_capacity s r) n (ready_nodes s) (Fits-up f) (Fits-capacity f)

  pub Fits-candidate : Fits s r ports n → Member n (candidate_nodes s r ports)
  Fits-candidate f =
      filter-Member (λ x. ports_available s x ports) n (fitting_nodes s r) (Fits-fitting f)
        (free-ports_available s n ports f.free)

better-Member :
    (F : Float32) (s : BasicScheduler) (e c : Node) (xs : List Node)
    → Member e xs
    → Member c xs
    → Member (better F s e c) xs
better-Member F s e c xs me mc = elim (Option-cases (calculate_general_usage F s e)) [
  | inl u ↦ rw (u, better) me
  | inr (u, eu) ↦ elim (Option-cases (calculate_general_usage F s c)) [
    | inl v ↦ rw (eu, v, better) me
    | inr (v, ev) ↦ elim (Bool-cases (F.gt u v)) [
      | inl g ↦ rw (eu, ev, g, better) mc
      | inr g ↦ rw (eu, ev, g, better) me
    ]
  ]
]

abbrev Within : List Node → List Node → Type 0
Within ys xs = (n : Node) → Member n ys → Member n xs

pub elect-Member :
    (F : Float32) (s : BasicScheduler) (e : Node) (ys xs : List Node)
    → Member e xs
    → Within ys xs
    → Member (elect F s e ys) xs
unfolding elect
elect-Member F s e [] xs me h = me
elect-Member F s e (c ∷ cs) xs me h =
    elect-Member F s (better F s e c) cs xs (better-Member F s e c xs me (h c (inl refl)))
      (λ n m. h n (inr m))

-- What `choose` answers: nothing on an empty list, and a node of the list otherwise.
choose-cases :
    (F : Float32) (s : BasicScheduler) (xs : List Node)
    → ((xs ≡ []) × (choose F s xs ≡ err no_free_port))
      ⊎ ((n : Node) × Member n xs × (choose F s xs ≡ ok n.name))
unfolding choose
choose-cases F s [] = inl (refl, refl)
choose-cases F s (x ∷ xs) =
    inr (elect F s x (x ∷ xs), elect-Member F s x (x ∷ xs) (x ∷ xs) (inl refl) (λ n m. m), refl)

abbrev known_nodes : BasicScheduler → List Node
known_nodes s = map (λ e. e.1) s.nodes

-- Why no node was named: none is ready; some are, and none of those has room; some have room.
abbrev pub Cause : BasicScheduler → Resources → String → Type 0
Cause s r reason =
    ((reason ≡ no_ready_node) × ((n : Node) → Member n (known_nodes s) → is_ready n ≡ false))
    ⊎ ((reason ≡ no_capacity)
        × ((n : Node) × Member n (known_nodes s) × (is_ready n ≡ true))
        × ((n : Node) → Member n (known_nodes s) → is_ready n ≡ true → has_capacity s r n ≡ false))
    ⊎ ((reason ≡ no_free_port)
        × ((n : Node) × Member n (known_nodes s)
            × (is_ready n ≡ true)
            × (has_capacity s r n ≡ true)))

filter-nil :
    {A : Type 0} (p : A → Bool) (xs : List A) (a : A) → filter p xs ≡ [] → Member a xs → p a ≡ false
filter-nil p [] a h m = elim m [ ]
filter-nil p (x ∷ xs) a h m = ground (arith, filter-nil p xs a)

module _ {A B : Type 0} {xs : List A} (reason : String) (r : Result String B) where
  unless_empty-nil : xs ≡ [] → unless_empty xs reason r ≡ err reason
  unless_empty-nil e = rw e

  unless_empty-cons : {x : A} {ys : List A} → xs ≡ x ∷ ys → unless_empty xs reason r ≡ r
  unless_empty-cons e = rw e

List-cases :
    {A : Type 0} (xs : List A) → (xs ≡ []) ⊎ ((a : A) × Member a xs × (ys : List A) × (xs ≡ a ∷ ys))
List-cases [] = inl refl
List-cases (x ∷ xs) = inr (x, inl refl, xs, refl)

no_candidate :
    (s : BasicScheduler) (r : Resources) (ports : List Port)
    → candidate_nodes s r ports ≡ []
    → (n : Node) → ¬ Fits s r ports n
no_candidate s r ports e n f = subst (Member n) e (Fits-candidate s r ports n f)

place_within_lem :
    (F : Float32) (s : BasicScheduler) (r : Resources) (ports : List Port)
    → ((n : Node) × Fits s r ports n × (place_within F s r ports ≡ ok n.name))
      ⊎ (((n : Node) → ¬ Fits s r ports n)
          × ((reason : String) × (place_within F s r ports ≡ err reason) × Cause s r reason))
unfolding place_within
place_within_lem F s r ports = elim (List-cases (ready_nodes s)) [
  | inl none_ready ↦ inr (
    λ n f. cc (filter-nil is_ready (known_nodes s) n none_ready f.known, Fits-ready s r ports n f),
    (
      no_ready_node,
      unless_empty-nil no_ready_node _ none_ready,
      inl (refl, λ n m. filter-nil is_ready (known_nodes s) n none_ready m),
    ),
  )
  | inr (up, up_in, ups, e) ↦
      let through = unless_empty-cons no_ready_node _ e in
      elim (List-cases (fitting_nodes s r)) [
        | inl none_fits ↦
            let full = λ (n : Node). filter-nil (has_capacity s r) (ready_nodes s) n none_fits in
            inr (
              λ n f. cc (full n (Fits-up s r ports n f), Fits-capacity s r ports n f),
              (
                no_capacity,
                through ∙ unless_empty-nil no_capacity _ none_fits,
                inr (
                    inl (
                      refl,
                      (let (m, is_up) = Member-filter is_ready up (known_nodes s) up_in in
                          (up, m, is_up)),
                      λ n m is_up. full n (filter-Member is_ready n (known_nodes s) m is_up),
                    )),
              ),
            )
        | inr (fit, fit_in, fits, e') ↦
            let reached = through ∙ unless_empty-cons no_capacity _ e' in
            elim (choose-cases F s (candidate_nodes s r ports)) [
              | inl (nil, e'') ↦
                  let (m, room) = Member-filter (has_capacity s r) fit (ready_nodes s) fit_in in
                  let (m', is_up) = Member-filter is_ready fit (known_nodes s) m in
                  inr (
                    no_candidate s r ports nil,
                    (no_free_port, reached ∙ e'', inr (inr (refl, (fit, m', is_up, room)))),
                  )
              | inr (n, n_in, e'') ↦ inl (n, candidate-Fits s r ports n n_in, reached ∙ e'')
            ]
      ]
]

-- For a pod with limits place names a node that fits it, or no node does and it gives the
-- reason: no node is ready, or some are ready and none of those has room, or one has room and
-- every such node has a port taken.
pub place_lem :
    (F : Float32) (s : BasicScheduler) (pod : Pod) (ports : List Port) (r : Resources)
    → pod.limits ≡ some r
    → ((n : Node) × Fits s r ports n × (place F s pod ports ≡ ok n.name))
      ⊎ (((n : Node) → ¬ Fits s r ports n)
          × ((reason : String) × (place F s pod ports ≡ err reason) × Cause s r reason))
unfolding place
place_lem F s pod ports r e = rw (e, place) (place_within_lem F s r ports)

-- Where some node fits, the answer is the election's.
pub place-elect :
    (F : Float32) (s : BasicScheduler) (pod : Pod) (ports : List Port) (r : Resources) (n : Node)
    → pod.limits ≡ some r
    → Fits s r ports n
    → (x : Node) × (xs : List Node) × (candidate_nodes s r ports ≡ x ∷ xs)
      × (place F s pod ports ≡ ok (elect F s x (x ∷ xs)).name)
unfolding place place_within choose
place-elect F s pod ports r n e f = elim (List-cases (ready_nodes s)) [
  | inl nil ↦ absurd (subst (Member n) nil (Fits-up s r ports n f))
  | inr (up, _, ups, e₁) ↦ elim (List-cases (fitting_nodes s r)) [
    | inl nil ↦ absurd (subst (Member n) nil (Fits-fitting s r ports n f))
    | inr (fit, _, fits, e₂) ↦ elim (List-cases (candidate_nodes s r ports)) [
      | inl nil ↦ absurd (subst (Member n) nil (Fits-candidate s r ports n f))
      | inr (x, _, xs, e₃) ↦ (
        x,
        xs,
        e₃,
        rw (e, place)
            (unless_empty-cons no_ready_node _ e₁
              ∙ unless_empty-cons no_capacity _ e₂
              ∙ ap (choose F s) e₃),
      )
    ]
  ]
]
