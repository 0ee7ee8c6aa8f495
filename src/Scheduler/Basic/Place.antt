-- ===== src/Scheduler/Basic/Place.antt =====
-- basic.rs, `place` and `calculate_general_usage`. Rust's `f32` is a parameter: its type, the cast
-- from `i32`, the operations that the code calls, and `>`.
pub mod Choice
pub mod Safety
pub mod Elect
pub mod Retry
pub mod Tests
use barenetes.Base.{
  ℕ, String, ◌≡◌, Bool, true, false, ◌&&◌, Option, none, some, List, [], ◌∷◌, map, filter,
  if◌then◌else◌, Result, ok, err, string_eq, pair_eq, nat_eq,
}
use barenetes.Base.Map.{Map}
use barenetes.Base.Int32.{i32_lt}
use barenetes.Shared.{Resources, Port, Node, Pod}
use barenetes.Scheduler.Basic.{BasicScheduler, is_ready, effective_allocatable, ports_available}

pub record Float32 : Type 1 where
  pub Carrier : Type 0
  pub of_i32 : ℕ → Carrier
  pub add : Carrier → Carrier → Carrier
  pub sub : Carrier → Carrier → Carrier
  pub div : Carrier → Carrier → Carrier
  pub two : Carrier
  pub gt : Carrier → Carrier → Bool

-- The reasons that `place` reports.
abbrev pub missing_limits : String
missing_limits = "pod is missing a resources.limits field"

abbrev pub no_ready_node : String
no_ready_node = "no ready node available"

abbrev pub no_capacity : String
no_capacity = "no ready node has enough capacity for this pod"

abbrev pub no_free_port : String
no_free_port = "no ready node has a free host port for this pod"

abbrev pub ready_nodes : BasicScheduler → List Node
ready_nodes s = filter is_ready (map (λ e. e.1) s.nodes)

abbrev pub has_capacity : BasicScheduler → Resources → Node → Bool
has_capacity s r n = elim (effective_allocatable s n) [
  | none ↦ false
  | some a ↦ i32_lt r.cpu a.cpu && i32_lt r.memory a.memory
]

-- One component of the usage, `(capacity - allocatable) / capacity`.
abbrev pub usage_of : (F : Float32) → ℕ → ℕ → F.Carrier
usage_of F capacity allocatable =
    F.div (F.sub (F.of_i32 capacity) (F.of_i32 allocatable)) (F.of_i32 capacity)

pub calculate_general_usage : (F : Float32) → BasicScheduler → Node → Option F.Carrier
calculate_general_usage F s n = elim n.capacity [
  | none ↦ none
  | some c ↦ elim (effective_allocatable s n) [
    | none ↦ none
    | some a ↦ some (F.div (F.add (usage_of F c.cpu a.cpu) (usage_of F c.memory a.memory)) F.two)
  ]
]

-- One round of the loop: a node without a usage is passed over, on either side.
abbrev pub better : (F : Float32) → BasicScheduler → Node → Node → Node
better F s elected candidate = elim (calculate_general_usage F s elected) [
  | none ↦ elected
  | some u ↦ elim (calculate_general_usage F s candidate) [
    | none ↦ elected
    | some v ↦ if F.gt u v then candidate else elected
  ]
]

pub elect : (F : Float32) → BasicScheduler → Node → List Node → Node
elect F s elected [] = elected
elect F s elected (c ∷ cs) = elect F s (better F s elected c) cs

-- The last part of `place`, from the candidates on.
pub choose : (F : Float32) → BasicScheduler → List Node → Result String String
choose F s [] = err no_free_port
choose F s (first ∷ rest) = ok (elect F s first (first ∷ rest)).name

-- The early return on an empty list.
abbrev pub unless_empty : {A B : Type 0} → List A → String → Result String B → Result String B
unless_empty [] e r = err e
unless_empty (x ∷ xs) e r = r

abbrev pub fitting_nodes : BasicScheduler → Resources → List Node
fitting_nodes s r = filter (has_capacity s r) (ready_nodes s)

abbrev pub candidate_nodes : BasicScheduler → Resources → List Port → List Node
candidate_nodes s r ports = filter (λ n. ports_available s n ports) (fitting_nodes s r)

pub place_within : (F : Float32) → BasicScheduler → Resources → List Port → Result String String
unfolding choose
place_within F s r ports =
    let candidates = choose F s (candidate_nodes s r ports) in
    unless_empty (ready_nodes s) no_ready_node
      (unless_empty (fitting_nodes s r) no_capacity candidates)

unfoldable pub place : (F : Float32) → BasicScheduler → Pod → List Port → Result String String
unfolding place_within
place F s pod ports = elim pod.limits [
  | none ↦ err missing_limits
  | some r ↦ place_within F s r ports
]
