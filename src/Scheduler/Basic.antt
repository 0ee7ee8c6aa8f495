-- ===== src/Scheduler/Basic.antt =====
-- scheduler/src/schedulers/basic.rs: `BasicScheduler`, its maps and the methods that write them.
pub mod Claims
pub mod Ports
pub mod Evict
pub mod Keyed
pub mod Record
pub mod Place
use barenetes.Base.{
  ℕ, String, Bool, true, false, ◌&&◌, ◌||◌, not, Option, none, some, List, [], ◌∷◌, ◌++◌, map,
  filter, any, if◌then◌else◌, ◌==◌, string_eq, pair_eq, nat_eq,
}
use barenetes.Base.Map.{Map, lookup, insert, remove}
use barenetes.Base.Int32.{wrapping_add, wrapping_sub, i32_lt, max_zero}
use barenetes.Shared.{
  Resources, zero_resources, Port, Node, NodeStatus, node_status, resources_beq, ports_beq,
}

-- (namespace, name)
abbrev pub PodKey : Type 0
PodKey = String × String

-- (protocol, external port)
abbrev pub PortKey : Type 0
PortKey = ℕ × ℕ

-- A `HashSet<PortKey>` is a list that is read by membership.
abbrev pub has_port : PortKey → List PortKey → Bool
has_port q = any (λ p. q == p)

abbrev pub port_keys : List Port → List PortKey
port_keys = map (λ p. (p.protocol, p.external))

pub record Placement : Type 0 where
  pub node : String
  pub limits : Resources
  pub ports : List Port

pub record BasicScheduler : Type 0 where
  pub nodes : Map String Node
  pub claimed : Map String Resources
  pub claimed_ports : Map String (List PortKey)
  pub placements : Map PodKey Placement

-- `BasicScheduler::default`.
abbrev pub empty_scheduler : BasicScheduler
empty_scheduler = record { nodes = []; claimed = []; claimed_ports = []; placements = [] }

abbrev pub is_ready : Node → Bool
is_ready n = elim (node_status n) [ NodeStatus.ready ↦ true | _ ↦ false ]

abbrev pub is_not_ready : Node → Bool
is_not_ready n = elim (node_status n) [ NodeStatus.not_ready ↦ true | _ ↦ false ]

-- The match on the old and the new `allocatable`.
abbrev pub allocatable_increased : Option Resources → Option Resources → Bool
allocatable_increased (some old) (some new) = i32_lt old.cpu new.cpu || i32_lt old.memory new.memory
allocatable_increased none (some new) = true
allocatable_increased _ none = false

pub should_retry : Option Node → Node → Bool
should_retry none node = true
should_retry (some existing) node =
    (is_ready node && not (is_ready existing))
    || allocatable_increased existing.allocatable node.allocatable

pub upsert_node : Node → BasicScheduler → BasicScheduler × Bool
upsert_node node s = (
  record s { nodes = insert node.name node s.nodes },
  should_retry (lookup node.name s.nodes) node,
)

pub remove_node : String → BasicScheduler → BasicScheduler
remove_node name s = record {
  nodes = remove name s.nodes;
  claimed = remove name s.claimed;
  claimed_ports = remove name s.claimed_ports;
  placements = filter (λ e. not (e.1.node == name)) s.placements;
}

pub is_confirmed_not_ready : String → BasicScheduler → Bool
is_confirmed_not_ready name s = elim (lookup name s.nodes) [
  | none ↦ false
  | some n ↦ is_not_ready n
]

-- `HashMap::get(..).copied().unwrap_or_default()`, for the two claim maps.
abbrev pub claimed_of : String → Map String Resources → Resources
claimed_of n m = elim (lookup n m) [ none ↦ zero_resources | some r ↦ r ]

abbrev pub ports_of : String → Map String (List PortKey) → List PortKey
ports_of n m = elim (lookup n m) [ none ↦ [] | some ps ↦ ps ]

abbrev pub add_resources : Resources → Resources → Resources
add_resources a b = record {
  cpu = wrapping_add a.cpu b.cpu;
  memory = wrapping_add a.memory b.memory;
}

abbrev pub sub_resources : Resources → Resources → Resources
sub_resources a b = record {
  cpu = wrapping_sub a.cpu b.cpu;
  memory = wrapping_sub a.memory b.memory;
}

-- `if let Some(claimed) = self.claimed.get_mut(..)`.
abbrev pub release_claim : Placement → Map String Resources → Map String Resources
release_claim p m = elim (lookup p.node m) [
  | none ↦ m
  | some c ↦ insert p.node (sub_resources c p.limits) m
]

abbrev pub without_ports : List PortKey → List PortKey → List PortKey
without_ports gone = filter (λ q. not (has_port q gone))

abbrev pub release_ports : Placement → Map String (List PortKey) → Map String (List PortKey)
release_ports p m = elim (lookup p.node m) [
  | none ↦ m
  | some ps ↦ insert p.node (without_ports (port_keys p.ports) ps) m
]

-- What is left once `placements.remove` has found `p` at `key`.
pub drop_placement : PodKey → Placement → BasicScheduler → BasicScheduler
drop_placement key p s = record {
  nodes = s.nodes;
  claimed = release_claim p s.claimed;
  claimed_ports = release_ports p s.claimed_ports;
  placements = remove key s.placements;
}

pub release_placement : PodKey → BasicScheduler → BasicScheduler × Bool
release_placement key s = elim (lookup key s.placements) [
  | none ↦ (s, false)
  | some p ↦ (drop_placement key p s, true)
]

-- The tail of `record_placement`: claims the resources and the ports, and stores the placement.
pub claim_placement : PodKey → Placement → BasicScheduler → BasicScheduler
claim_placement key p s = record {
  nodes = s.nodes;
  claimed = insert p.node (add_resources (claimed_of p.node s.claimed) p.limits) s.claimed;
  claimed_ports =
      insert p.node (ports_of p.node s.claimed_ports ++ port_keys p.ports) s.claimed_ports;
  placements = insert key p s.placements;
}

abbrev pub same_placement : Placement → Placement → Bool
same_placement old new =
    old.node == new.node && (resources_beq old.limits new.limits && ports_beq old.ports new.ports)

pub record_placement : PodKey → Placement → BasicScheduler → BasicScheduler
record_placement key p s = elim (lookup key s.placements) [
  | none ↦ claim_placement key p s
  | some old ↦ if same_placement old p then s else claim_placement key p (release_placement key s).0
]

-- `evict_node`: the placements of the node, and the loop that releases them.
abbrev pub placed_on : String → Map PodKey Placement → Map PodKey Placement
placed_on name = filter (λ e. e.1.node == name)

pub release_all : Map PodKey Placement → BasicScheduler → BasicScheduler
release_all [] s = s
release_all ((key, p) ∷ rest) s = release_all rest (release_placement key s).0

pub evict_node : String → BasicScheduler → BasicScheduler × Map PodKey Placement
evict_node name s = let evicted = placed_on name s.placements in (release_all evicted s, evicted)

-- `effective_allocatable`: `allocatable` less the claims, not below zero.
pub effective_allocatable : BasicScheduler → Node → Option Resources
effective_allocatable s n = elim n.allocatable [
  | none ↦ none
  | some a ↦ some (record {
    cpu = max_zero (wrapping_sub a.cpu (claimed_of n.name s.claimed).cpu);
    memory = max_zero (wrapping_sub a.memory (claimed_of n.name s.claimed).memory);
  })
]

-- `is_disjoint`.
pub ports_available : BasicScheduler → Node → List Port → Bool
ports_available s n ports = elim (lookup n.name s.claimed_ports) [
  | none ↦ true
  | some claimed ↦ not (any (λ q. has_port q claimed) (port_keys ports))
]
