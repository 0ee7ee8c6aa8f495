-- ===== src/Scheduler/Basic/Place/Tests.antt =====
-- scheduler/src/schedulers/basic.rs at work on two nodes, and the theorems at those inputs.
use barenetes.Base.{
  ℕ, String, ◌≡◌, refl, Bool, false, none, some, List, [], ◌∷◌, ◌+◌, ◌-◌, ◌*◌, ◌/◌, ok, err, ltb,
  string_eq, pair_eq, arith, inl, inr, Member, ◌↔◌, ◌⊎◌, ◌≢◌,
}
use barenetes.Base.Map.{lookup}
use barenetes.Shared.{Resources, Port, Node, Pod, zero_resources}
use barenetes.Scheduler.Basic.{
  PodKey, Placement, BasicScheduler, record_placement, release_placement, claim_placement,
  evict_node, upsert_node, effective_allocatable, ports_available, claimed_of, should_retry,
}
use barenetes.Scheduler.Basic.Claims.{IsBalanced, record_placement-IsBalanced}
use barenetes.Scheduler.Basic.Ports.{IsExclusive, record_placement-IsExclusive}
use barenetes.Scheduler.Basic.Keyed.{IsKeyed}
use barenetes.Scheduler.Basic.Evict.{evict_node_lem, survivors}
use barenetes.Scheduler.Basic.Record.{record_placement_idem, release-record_placement}
use barenetes.Scheduler.Basic.Place.{
  Float32, place, place_within, choose, elect, calculate_general_usage, candidate_nodes,
}
use barenetes.Scheduler.Basic.Place.Choice.{Fits, Cause, place_lem}
use barenetes.Scheduler.Basic.Place.Safety.{IsWithin, place-record_placement, place-IsWithin}
use barenetes.Scheduler.Basic.Place.Elect.{IsOrder, IsRated, NotAbove, place-lowest, place_unrated}
use barenetes.Scheduler.Basic.Place.Retry.{IsSane, upsert_node-no_retry}

-- Per cent in place of floating point.
abbrev pub percent : Float32
percent = record {
  Carrier = ℕ;
  of_i32 = λ a. a;
  add = λ a b. a + b;
  sub = λ a b. a - b;
  div = λ a b. (a * 100) / b;
  two = 200;
  gt = λ a b. ltb b a;
}

abbrev pub amount : ℕ → Resources
amount a = record { cpu = a; memory = a }

abbrev pub node_of : String → Node
node_of name = record {
  name = name;
  status = 0;
  capacity = some (amount 10);
  allocatable = some (amount 10);
  ip = "10.0.0.1";
}

abbrev pub http : List Port
http = record { internal = 8080; external = 80; protocol = 0 } ∷ []

abbrev pub pod_of_size : String → ℕ → Pod
pod_of_size name a = record { name = name; status = 0; requests = none; limits = some (amount a) }

abbrev pub idle : BasicScheduler
idle = record {
  nodes = ("a", node_of "a") ∷ ("b", node_of "b") ∷ [];
  claimed = [];
  claimed_ports = [];
  placements = [];
}

abbrev pub web : PodKey
web = ("default", "web")

abbrev pub on_a : Placement
on_a = record { node = "a"; limits = amount 4; ports = http }

abbrev pub busy : BasicScheduler
busy = record_placement web on_a idle

pub idle-IsBalanced : IsBalanced idle
idle-IsBalanced = record {
  distinct = tt;
  tracked = λ k p e. cc;
  cpu = λ n. refl;
  memory = λ n. refl;
}

idle-IsExclusive : IsExclusive idle
idle-IsExclusive = record {
  tracked = λ k p e. cc;
  claims = λ n r. refl;
  apart = λ j k p q r d e f g. cc;
}

pub idle-IsKeyed : IsKeyed idle
idle-IsKeyed = record {
  distinct = ground arith;
  named = λ k n e. ground (arith, string_eq.beq_iff "a" k, string_eq.beq_iff "b" k);
}

busy-IsBalanced : IsBalanced busy
busy-IsBalanced = record_placement-IsBalanced web on_a idle idle-IsBalanced

busy-IsExclusive : IsExclusive busy
busy-IsExclusive =
    record_placement-IsExclusive web on_a idle idle-IsBalanced idle-IsExclusive (λ r h. refl)

pub place-idle : place percent idle (pod_of_size "web" 4) http ≡ ok "a"
unfolding place place_within choose elect ports_available effective_allocatable
    calculate_general_usage
place-idle = refl

-- Node `a` has the port taken, and is the busier one.
place-busy : place percent busy (pod_of_size "api" 4) http ≡ ok "b"
unfolding place place_within choose elect ports_available effective_allocatable
    calculate_general_usage record_placement claim_placement
place-busy = refl

place-big :
    place percent idle (pod_of_size "big" 10) []
    ≡ err "no ready node has enough capacity for this pod"
unfolding place place_within choose elect ports_available effective_allocatable
    calculate_general_usage
place-big = refl

api-Fits : Fits busy (amount 4) http (node_of "b")
unfolding record_placement claim_placement effective_allocatable
api-Fits = record {
  known = ground arith;
  ready = refl;
  room = (amount 10, refl, refl, refl);
  free = λ q m. refl;
}

place_lem_example :
    ((n : Node) × Fits busy (amount 4) http n
      × (place percent busy (pod_of_size "api" 4) http ≡ ok n.name))
    ⊎ (((n : Node) → ¬ Fits busy (amount 4) http n)
        × ((reason : String) × (place percent busy (pod_of_size "api" 4) http ≡ err reason)
            × Cause busy (amount 4) reason))
place_lem_example = place_lem percent busy (pod_of_size "api" 4) http (amount 4) refl

place-record_placement_example :
    let s' =
      record_placement
        ("default", "api")
        (record { node = "b"; limits = amount 4; ports = http })
        busy in
    IsBalanced s' × IsExclusive s'
place-record_placement_example =
    place-record_placement percent ("default", "api") busy (pod_of_size "api" 4) http "b" (amount 4)
      busy-IsBalanced busy-IsExclusive refl place-busy

idle-IsWithin : IsWithin idle
idle-IsWithin k n a e f = ground (arith, string_eq.beq_iff "a" k, string_eq.beq_iff "b" k)

place-IsWithin_example :
    IsWithin (record_placement web (record { node = "a"; limits = amount 4; ports = http }) idle)
place-IsWithin_example =
    place-IsWithin percent web idle (pod_of_size "web" 4) http "a" (amount 4) idle-IsKeyed
      idle-IsWithin refl refl (omega arith) (omega arith) place-idle

evict_node_lem_example :
    let (s', evicted) = evict_node "a" busy in
    ((k : PodKey) (p : Placement)
      → Member (k, p) evicted ↔ ((lookup k busy.placements ≡ some p) × (p.node ≡ "a")))
    × ((k : PodKey) → lookup k s'.placements ≡ survivors "a" (lookup k busy.placements))
    × (claimed_of "a" s'.claimed ≡ zero_resources)
    × ((n : String) → "a" ≢ n → claimed_of n s'.claimed ≡ claimed_of n busy.claimed)
evict_node_lem_example = evict_node_lem "a" busy busy-IsBalanced

record_placement_idem_example :
    record_placement web on_a (record_placement web on_a idle) ≡ record_placement web on_a idle
record_placement_idem_example = record_placement_idem web on_a idle

release-record_placement_example :
    let s' = (release_placement web (record_placement web on_a idle)).0 in
    (s'.placements ≡ idle.placements)
    × ((n : Node) → effective_allocatable s' n ≡ effective_allocatable idle n)
release-record_placement_example = release-record_placement web on_a idle idle-IsBalanced refl

-- A report of the same node changes nothing that could let a waiting pod in.
node-IsSane : (name : String) → IsSane idle (node_of name)
node-IsSane name = (ground arith, ground arith, λ a e. ground arith)

a-IsSane : (old : Node) → lookup "a" idle.nodes ≡ some old → IsSane idle old
a-IsSane old e = (ground arith, ground arith, λ a f. ground arith)

quiet-a : (upsert_node (node_of "a") idle).1 ≡ false
unfolding upsert_node should_retry
quiet-a = refl

upsert_node-no_retry_example :
    (reason' : String) × (place percent (upsert_node (node_of "a") idle).0 (pod_of_size "big" 10) []
      ≡ err reason')
upsert_node-no_retry_example =
    upsert_node-no_retry percent idle (node_of "a") (pod_of_size "big" 10) []
      "no ready node has enough capacity for this pod" idle-IsKeyed (node-IsSane "a") a-IsSane
      quiet-a place-big

abbrev never_nan : ℕ → Bool
never_nan _ = false

percent-IsOrder : IsOrder percent never_nan
percent-IsOrder = record {
  irrefl = λ a. ground arith;
  asym = λ a b h. ground arith;
  trans = λ a b c _ _ _ f g. ground arith;
}

idle-IsRated :
    (m : Node) → Fits idle (amount 4) http m → IsRated percent never_nan percent-IsOrder idle m
unfolding calculate_general_usage effective_allocatable
idle-IsRated m f = elim f.known [
  | inl e ↦ (0, rw e refl, refl)
  | inr (inl e) ↦ (0, rw e refl, refl)
  | inr (inr x) ↦ elim x [ ]
]

place-lowest_example :
    (n : Node) × Fits idle (amount 4) http n
    × (n.name ≡ "a")
    × ((m : Node)
        → Fits idle (amount 4) http m
        → NotAbove percent never_nan percent-IsOrder idle n m)
place-lowest_example =
    place-lowest percent never_nan percent-IsOrder idle (pod_of_size "web" 4) http (amount 4) "a"
      refl place-idle idle-IsRated

-- A node that has reported no capacity.
abbrev bare : Node
bare = record {
  name = "bare";
  status = 0;
  capacity = none;
  allocatable = some (amount 10);
  ip = "";
}

abbrev with_bare : BasicScheduler
with_bare = record idle { nodes = ("bare", bare) ∷ idle.nodes }

with_bare-candidates :
    candidate_nodes with_bare (amount 4) http ≡ bare ∷ node_of "a" ∷ node_of "b" ∷ []
unfolding ports_available effective_allocatable
with_bare-candidates = refl

place_unrated_example : place percent with_bare (pod_of_size "web" 4) http ≡ ok "bare"
place_unrated_example =
    place_unrated percent with_bare (pod_of_size "web" 4) http (amount 4) bare
      (node_of "a" ∷ node_of "b" ∷ []) refl with_bare-candidates refl
