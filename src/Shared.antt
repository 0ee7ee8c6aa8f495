-- ===== src/Shared.antt =====
-- The messages of proto/shared/v1: resources.proto, container.proto, node.proto, pod.proto. A
-- message field is an `Option`, an enum is the number on the wire, which the generated getters
-- read back: a number that names no constant counts as the first one.
use barenetes.Base.{
  ℕ, String, Bool, Option, List, [], ◌∷◌, ◌≡◌, ◌↔◌, ◌&&◌, true, false, arith, eqb, if◌then◌else◌,
  Equality, nat_eq,
}

pub record Resources : Type 0 where
  pub cpu : ℕ
  pub memory : ℕ

abbrev pub zero_resources : Resources
zero_resources = record { cpu = 0; memory = 0 }

pub record Port : Type 0 where
  pub internal : ℕ
  pub external : ℕ
  pub protocol : ℕ

pub data Protocol : Type 0 where
  tcp udp : Protocol

pub data NodeStatus : Type 0 where
  ready cordon drain not_ready : NodeStatus

-- `NodeStatus as i32`.
abbrev pub node_status_code : NodeStatus → ℕ
node_status_code NodeStatus.ready = 0
node_status_code NodeStatus.cordon = 1
node_status_code NodeStatus.drain = 2
node_status_code NodeStatus.not_ready = 3

pub record Node : Type 0 where
  pub name : String
  pub status : ℕ
  pub capacity : Option Resources
  pub allocatable : Option Resources
  pub ip : String

-- `Node::status`.
abbrev pub node_status : Node → NodeStatus
node_status n =
    if eqb n.status 1
    then NodeStatus.cordon
    else if eqb n.status 2
    then NodeStatus.drain
    else if eqb n.status 3
    then NodeStatus.not_ready
    else NodeStatus.ready

pub data PodStatus : Type 0 where
  pending running succeeded failed unknown no_node_available : PodStatus

abbrev pub pod_status_code : PodStatus → ℕ
pod_status_code PodStatus.pending = 0
pod_status_code PodStatus.running = 1
pod_status_code PodStatus.succeeded = 2
pod_status_code PodStatus.failed = 3
pod_status_code PodStatus.unknown = 4
pod_status_code PodStatus.no_node_available = 5

pub record Pod : Type 0 where
  pub name : String
  pub status : ℕ
  pub requests : Option Resources
  pub limits : Option Resources

pub record EnvVar : Type 0 where
  pub name : String
  pub value : String

pub record Container : Type 0 where
  pub name : String
  pub image : String
  pub ports : List Port
  pub env : List EnvVar

pub record PodSpec : Type 0 where
  pub namespace : String
  pub containers : List Container

pub record PodWithSpec : Type 0 where
  pub pod : Option Pod
  pub spec : Option PodSpec

pub record ContainerStatus : Type 0 where
  pub name : String
  pub state : ℕ

pub record PodDetail : Type 0 where
  pub core : Option PodWithSpec
  pub container_statuses : List ContainerStatus
  pub pod_ip : Option String
  pub message : Option String
  pub resource_usage : Option Resources
  pub node_name : String
  pub unschedulable_reason : Option String

pub data EventType : Type 0 where
  unspecified added modified deleted scheduled : EventType

-- The derived `PartialEq` of the messages that the code compares.
abbrev pub resources_beq : Resources → Resources → Bool
resources_beq a b = eqb a.cpu b.cpu && eqb a.memory b.memory

pub resources_beq_iff : (a b : Resources) → (resources_beq a b ≡ true) ↔ (a ≡ b)
resources_beq_iff a b = ground arith

instance abbrev pub resources_eq : Equality Resources
resources_eq = record { beq = resources_beq; beq_iff = resources_beq_iff }

abbrev pub port_beq : Port → Port → Bool
port_beq a b = eqb a.internal b.internal && (eqb a.external b.external && eqb a.protocol b.protocol)

pub port_beq_iff : (a b : Port) → (port_beq a b ≡ true) ↔ (a ≡ b)
port_beq_iff a b = ground arith

abbrev pub ports_beq : List Port → List Port → Bool
ports_beq [] [] = true
ports_beq (a ∷ as') (b ∷ bs) = port_beq a b && ports_beq as' bs
ports_beq _ _ = false

pub ports_beq_iff : (as' bs : List Port) → (ports_beq as' bs ≡ true) ↔ (as' ≡ bs)
ports_beq_iff [] [] = ground arith
ports_beq_iff [] (b ∷ bs) = ground arith
ports_beq_iff (a ∷ as') [] = ground arith
ports_beq_iff (a ∷ as') (b ∷ bs) = ground (arith, port_beq_iff a b, ports_beq_iff as' bs)

instance abbrev pub ports_eq : Equality (List Port)
ports_eq = record { beq = ports_beq; beq_iff = ports_beq_iff }

-- The messages of proto/api/v1/api.proto that the API server's core and its clients exchange.
pub data AssignOutcome : Type 0 where
  node_name : String → AssignOutcome
  unschedulable_reason : String → AssignOutcome
  orphaned_reason : String → AssignOutcome

pub record WatchPodEvent : Type 0 where
  pub event_type : EventType
  pub pod : Option PodDetail

pub record WatchNodeEvent : Type 0 where
  pub event_type : EventType
  pub node : Option Node

pub data Action : Type 0 where
  run stop synced : Action

pub record WatchDesiredStateEvent : Type 0 where
  pub action : Action
  pub pod : Option PodWithSpec
