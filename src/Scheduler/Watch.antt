-- ===== src/Scheduler/Watch.antt =====
-- scheduler/src/main.rs: `SchedulerState` and what the watch loops do to it. The state is behind a
-- mutex, so each stretch of code under one lock is a step; a `Task` is what a loop or a spawned
-- future has still to do when it next takes the lock. The API server's answer to `assign_pod` is
-- an input of the step that reads it.
pub mod Settle
pub mod Steps
pub mod Tracked
mod Tests
use Prim.Native.String.{◌++◌ as str_append}
use barenetes.Base.{
  String, Bool, true, false, ◌&&◌, not, Option, none, some, List, [], ◌∷◌, ◌++◌, map, if◌then◌else◌,
  ◌==◌, string_eq, pair_eq, nat_eq, Result, ok, err,
}
use barenetes.Base.Map.{Map, contains_key, insert, remove}
use barenetes.Shared.{
  Resources, zero_resources, Port, Node, Pod, PodDetail, EventType, Container, AssignOutcome,
  WatchPodEvent, WatchNodeEvent,
}
use barenetes.Scheduler.Basic.{
  PodKey, Placement, BasicScheduler, empty_scheduler, is_not_ready, upsert_node, remove_node,
  is_confirmed_not_ready, record_placement, release_placement, evict_node,
}
use barenetes.Scheduler.Basic.Place.{Float32, place}

pub record SchedulerState : Type 0 where
  pub scheduler : BasicScheduler
  pub pending : Map PodKey (Pod × List Port)

abbrev pub initial : SchedulerState
initial = record { scheduler = empty_scheduler; pending = [] }

-- The reply to `assign_pod`, by the cases that the code tells apart.
pub data Reply : Type 0 where
  accepted not_found failed : Reply

-- `evict`: `reschedule_orphaned_pods` is about to run. `retry`: `retry_pending` is. `orphan`:
-- `reschedule_one_orphaned_pod` is about to call `assign_pod`. `schedule`: `try_schedule` is about
-- to take the lock, with its last argument. `report`: it is about to call `assign_pod` with the
-- outcome. `record_pod`: `watch_pods` has seen a pod on a node that is not confirmed to be down.
pub data Task : Type 0 where
  evict : String → Task
  retry : Task
  orphan : String → PodKey → Resources → List Port → Task
  schedule : PodKey → Pod → List Port → Bool → Task
  report : PodKey → AssignOutcome → Task
  record_pod : PodKey → Placement → Task

abbrev pub limits_of : Pod → Resources
limits_of pod = elim pod.limits [ none ↦ zero_resources | some r ↦ r ]

-- `try_schedule` under the lock: the bookkeeping of what `place` answered.
pub settle :
    PodKey → Pod → List Port → Result String String → SchedulerState → SchedulerState × List Task
settle key pod ports (ok name) s = (
  record {
    scheduler =
        record_placement key (record { node = name; limits = limits_of pod; ports = ports })
          s.scheduler;
    pending = remove key s.pending;
  },
  report key (AssignOutcome.node_name name) ∷ [],
)
settle key pod ports (err reason) s = (
  record s { pending = insert key (pod, ports) s.pending },
  report key (AssignOutcome.unschedulable_reason reason) ∷ [],
)

pub try_schedule :
    Float32 → PodKey → Pod → List Port → Bool → SchedulerState → SchedulerState × List Task
unfolding settle
try_schedule F key pod ports only_if_pending s =
    if only_if_pending && not (contains_key key s.pending)
    then (s, [])
    else settle key pod ports (place F s.scheduler pod ports) s

-- The rest of `try_schedule`, once `assign_pod` has answered.
pub reported : PodKey → Reply → SchedulerState → SchedulerState
reported key Reply.not_found s = record s { pending = remove key s.pending }
reported key _ s = s

-- The pod that `reschedule_one_orphaned_pod` builds.
abbrev pub orphaned_pod : PodKey → Resources → Pod
orphaned_pod key limits = record { name = key.1; status = 0; requests = none; limits = some limits }

-- `reschedule_one_orphaned_pod` after its `assign_pod`.
pub orphan_replied :
    PodKey → Resources → List Port → Reply → SchedulerState → SchedulerState × List Task
orphan_replied key limits ports Reply.accepted s =
    (s, schedule key (orphaned_pod key limits) ports false ∷ [])
orphan_replied key limits ports Reply.not_found s = (s, [])
orphan_replied key limits ports Reply.failed s =
    (record s { pending = insert key (orphaned_pod key limits, ports) s.pending }, [])

abbrev pub orphan_reason : String → String
orphan_reason node = str_append "node " (str_append node " became NotReady")

-- The loop of `reschedule_orphaned_pods` over what `evict_node` returned.
abbrev pub orphan_all : String → Map PodKey Placement → List Task
orphan_all node = map (λ e. orphan node e.0 e.1.limits e.1.ports)

-- The snapshot of `retry_pending`.
abbrev pub retry_all : Map PodKey (Pod × List Port) → List Task
retry_all = map (λ e. schedule e.0 e.1.0 e.1.1 true)

pub run_task : Float32 → Task → Reply → SchedulerState → SchedulerState × List Task
unfolding try_schedule reported orphan_replied
run_task F (evict node) reply s =
    let (scheduler', evicted) = evict_node node s.scheduler in
    (record s { scheduler = scheduler' }, orphan_all node evicted)
run_task F retry reply s = (s, retry_all s.pending)
run_task F (orphan node key limits ports) reply s = orphan_replied key limits ports reply s
run_task F (schedule key pod ports only_if_pending) reply s =
    try_schedule F key pod ports only_if_pending s
run_task F (report key outcome) reply s = (reported key reply s, [])
run_task F (record_pod key p) reply s =
    (record { scheduler = record_placement key p s.scheduler; pending = remove key s.pending }, [])

-- The call of `assign_pod` that a task makes, whose reply `run_task` reads.
pub call_of : Task → Option (PodKey × AssignOutcome)
call_of (orphan node key limits ports) =
    some (key, AssignOutcome.orphaned_reason (orphan_reason node))
call_of (report key outcome) = some (key, outcome)
call_of _ = none

abbrev pub is_deleted : EventType → Bool
is_deleted EventType.deleted = true
is_deleted _ = false

abbrev pub is_added : EventType → Bool
is_added EventType.added = true
is_added _ = false

-- One round of `watch_nodes`: an orphan sweep, or a retry, follows outside the lock.
pub node_changed : Bool → Node → SchedulerState → SchedulerState × List Task
node_changed true node s = (record s { scheduler = remove_node node.name s.scheduler }, [])
node_changed false node s =
    let (scheduler', should_retry) = upsert_node node s.scheduler in
    (
      record s { scheduler = scheduler' },
      if is_not_ready node then evict node.name ∷ [] else if should_retry then retry ∷ [] else [],
    )

pub node_event : WatchNodeEvent → SchedulerState → SchedulerState × List Task
unfolding node_changed
node_event e s = elim e.node [
  | none ↦ (s, [])
  | some node ↦ node_changed (is_deleted e.event_type) node s
]

-- One round of `watch_pods`, on what it reads off the event.
abbrev pub namespace_of : PodDetail → String
namespace_of d = elim d.core [
  | none ↦ ""
  | some core ↦ elim core.spec [ none ↦ "" | some spec ↦ spec.namespace ]
]

abbrev pub container_ports : List Container → List Port
container_ports [] = []
container_ports (c ∷ cs) = c.ports ++ container_ports cs

abbrev pub ports_of_detail : PodDetail → List Port
ports_of_detail d = elim d.core [
  | none ↦ []
  | some core ↦ elim core.spec [ none ↦ [] | some spec ↦ container_ports spec.containers ]
]

abbrev pub pod_of : PodDetail → Option Pod
pod_of d = elim d.core [ none ↦ none | some core ↦ core.pod ]

pub pod_deleted : PodKey → SchedulerState → SchedulerState × List Task
pod_deleted key s =
    let (scheduler', released) = release_placement key s.scheduler in
    (
      record { scheduler = scheduler'; pending = remove key s.pending },
      if released then retry ∷ [] else [],
    )

pub pod_assigned : PodKey → String → Pod → List Port → SchedulerState → SchedulerState × List Task
pod_assigned key node pod ports s =
    if is_confirmed_not_ready node s.scheduler
    then (s, orphan node key (limits_of pod) ports ∷ [])
    else (s, record_pod key (record { node = node; limits = limits_of pod; ports = ports }) ∷ [])

pub pod_changed :
    EventType → PodKey → String → Pod → List Port → SchedulerState → SchedulerState × List Task
unfolding pod_deleted pod_assigned
pod_changed event_type key node pod ports s =
    if is_deleted event_type
    then pod_deleted key s
    else if not (node == "")
    then pod_assigned key node pod ports s
    else if is_added event_type
    then (s, schedule key pod ports false ∷ [])
    else (s, [])

pub pod_event : WatchPodEvent → SchedulerState → SchedulerState × List Task
unfolding pod_changed
pod_event e s = elim e.pod [
  | none ↦ (s, [])
  | some d ↦ elim (pod_of d) [
    | none ↦ (s, [])
    | some pod ↦
        pod_changed e.event_type (namespace_of d, pod.name) d.node_name pod (ports_of_detail d) s
  ]
]
