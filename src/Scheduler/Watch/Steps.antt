-- ===== src/Scheduler/Watch/Steps.antt =====
-- scheduler/src/main.rs as a step relation. Events and tasks interleave freely: more orders than
-- the process has, which works off the events of one stream one at a time.
use barenetes.Base.{
  String, ◌≡◌, refl, sym, subst, Bool, true, false, List, [], ◌∷◌, ◌++◌, string_eq, pair_eq, Result,
  ok, err, arith, inl, inr, Option-cases, Bool-cases,
}
use barenetes.Base.Map.{Map, remove, Distinct, insert-Distinct, remove-Distinct}
use barenetes.Shared.{Node, Pod, Port, Resources, EventType, WatchNodeEvent, WatchPodEvent}
use barenetes.Scheduler.Basic.{PodKey, Placement, BasicScheduler, record_placement}
use barenetes.Scheduler.Basic.Claims.{
  IsBalanced, record_placement-IsBalanced, release_placement-IsBalanced, evict_node-IsBalanced,
  upsert_node-IsBalanced, remove_node-IsBalanced,
}
use barenetes.Scheduler.Basic.Place.{Float32, place}
use barenetes.Scheduler.Basic.Keyed.{
  IsKeyed, record_placement-nodes, evict_node-nodes, same_nodes-IsKeyed, upsert_node-IsKeyed,
  remove_node-IsKeyed, release_placement-nodes,
}
use barenetes.Scheduler.Watch.{
  SchedulerState, initial, Reply, Task, evict, retry, orphan, schedule, report, record_pod, settle,
  try_schedule, reported, orphan_replied, run_task, node_changed, node_event, pod_deleted,
  pod_assigned, pod_changed, pod_event, is_deleted, limits_of, pod_of, namespace_of,
  ports_of_detail,
}

pub record World : Type 0 where
  pub state : SchedulerState
  pub tasks : List Task

-- The state and the tasks after a step, behind those that waited.
abbrev pub after : List Task → SchedulerState × List Task → World
after waiting (s, more) = record { state = s; tasks = waiting ++ more }

pub data Step (F : Float32) : World → World → Type 0 where
  node_arrives : (w : World) (e : WatchNodeEvent) → Step F w (after w.tasks (node_event e w.state))
  pod_arrives : (w : World) (e : WatchPodEvent) → Step F w (after w.tasks (pod_event e w.state))
  task_runs :
      (w : World) (before later : List Task) (t : Task) (reply : Reply)
      → w.tasks ≡ before ++ t ∷ later
      → Step F w (after (before ++ later) (run_task F t reply w.state))

pub data Reach (F : Float32) : World → Type 0 where
  start : Reach F (record { state = initial; tasks = [] })
  next : {v w : World} → Reach F v → Step F v w → Reach F w

pub record IsSound (s : SchedulerState) : Type 0 where
  pub balanced : IsBalanced s.scheduler
  pub keyed : IsKeyed s.scheduler
  pub distinct : Distinct s.pending

record_placement-IsSound :
    (key : PodKey) (p : Placement) (s : SchedulerState)
    → IsSound s
    → IsSound
        (record { scheduler = record_placement key p s.scheduler; pending = remove key s.pending })
record_placement-IsSound key p s v = record {
  balanced = record_placement-IsBalanced key p s.scheduler v.balanced;
  keyed = same_nodes-IsKeyed s.scheduler _ (record_placement-nodes key s.scheduler p) v.keyed;
  distinct = remove-Distinct key s.pending v.distinct;
}

pending-IsSound :
    (s : SchedulerState) (m : Map PodKey (Pod × List Port))
    → IsSound s
    → Distinct m
    → IsSound (record s { pending = m })
pending-IsSound s m v d = record { balanced = v.balanced; keyed = v.keyed; distinct = d }

settle-IsSound :
    (key : PodKey) (pod : Pod) (ports : List Port) (r : Result String String) (s : SchedulerState)
    → IsSound s
    → IsSound (settle key pod ports r s).0
unfolding settle
settle-IsSound key pod ports (ok name) s v =
    record_placement-IsSound key (record { node = name; limits = limits_of pod; ports = ports }) s v
settle-IsSound key pod ports (err reason) s v =
    pending-IsSound s _ v (insert-Distinct key (pod, ports) s.pending v.distinct)

try_schedule-IsSound :
    (F : Float32) (key : PodKey) (pod : Pod) (ports : List Port) (only : Bool) (s : SchedulerState)
    → IsSound s
    → IsSound (try_schedule F key pod ports only s).0
unfolding try_schedule
try_schedule-IsSound F key pod ports only s v =
    ground (arith, settle-IsSound key pod ports (place F s.scheduler pod ports) s v)

reported-IsSound :
    (key : PodKey) (reply : Reply) (s : SchedulerState) → IsSound s → IsSound (reported key reply s)
unfolding reported
reported-IsSound key Reply.accepted s v = v
reported-IsSound key Reply.not_found s v =
    pending-IsSound s _ v (remove-Distinct key s.pending v.distinct)
reported-IsSound key Reply.failed s v = v

orphan_replied-IsSound :
    (key : PodKey) (limits : Resources) (ports : List Port) (reply : Reply) (s : SchedulerState)
    → IsSound s
    → IsSound (orphan_replied key limits ports reply s).0
unfolding orphan_replied
orphan_replied-IsSound key limits ports Reply.accepted s v = v
orphan_replied-IsSound key limits ports Reply.not_found s v = v
orphan_replied-IsSound key limits ports Reply.failed s v =
    pending-IsSound s _ v (insert-Distinct key _ s.pending v.distinct)

scheduler-IsSound :
    (s : SchedulerState) (b : BasicScheduler)
    → IsBalanced b
    → IsKeyed b
    → IsSound s
    → IsSound (record s { scheduler = b })
scheduler-IsSound s b h y v = record { balanced = h; keyed = y; distinct = v.distinct }

run_task-IsSound :
    (F : Float32) (t : Task) (reply : Reply) (s : SchedulerState)
    → IsSound s
    → IsSound (run_task F t reply s).0
unfolding run_task
run_task-IsSound F (evict node) reply s v =
    scheduler-IsSound s _ (evict_node-IsBalanced node s.scheduler v.balanced)
      (same_nodes-IsKeyed s.scheduler _ (evict_node-nodes node s.scheduler) v.keyed) v
run_task-IsSound F retry reply s v = v
run_task-IsSound F (orphan node key limits ports) reply s v =
    orphan_replied-IsSound key limits ports reply s v
run_task-IsSound F (schedule key pod ports only) reply s v =
    try_schedule-IsSound F key pod ports only s v
run_task-IsSound F (report key outcome) reply s v = reported-IsSound key reply s v
run_task-IsSound F (record_pod key p) reply s v = record_placement-IsSound key p s v

pod_deleted-IsSound :
    (key : PodKey) (s : SchedulerState) → IsSound s → IsSound (pod_deleted key s).0
unfolding pod_deleted
pod_deleted-IsSound key s v = record {
  balanced = release_placement-IsBalanced key s.scheduler v.balanced;
  keyed = same_nodes-IsKeyed s.scheduler _ (release_placement-nodes key s.scheduler) v.keyed;
  distinct = remove-Distinct key s.pending v.distinct;
}

pod_assigned-state :
    (key : PodKey) (node : String) (pod : Pod) (ports : List Port) (s : SchedulerState)
    → (pod_assigned key node pod ports s).0 ≡ s
unfolding pod_assigned
pod_assigned-state key node pod ports s = ground arith

pub pod_changed-state :
    (t : EventType) (key : PodKey) (node : String) (pod : Pod) (ports : List Port)
    (s : SchedulerState)
    → is_deleted t ≡ false
    → (pod_changed t key node pod ports s).0 ≡ s
unfolding pod_changed
pod_changed-state t key node pod ports s kept =
    rw kept (ground (arith, pod_assigned-state key node pod ports s))

pod_changed-IsSound :
    (t : EventType) (key : PodKey) (node : String) (pod : Pod) (ports : List Port)
    (s : SchedulerState)
    → IsSound s
    → IsSound (pod_changed t key node pod ports s).0
unfolding pod_changed
pod_changed-IsSound t key node pod ports s v = elim (Bool-cases (is_deleted t)) [
  | inl gone ↦ rw gone (pod_deleted-IsSound key s v)
  | inr kept ↦ subst IsSound (sym (pod_changed-state t key node pod ports s kept)) v
]

pod_event-IsSound : (e : WatchPodEvent) (s : SchedulerState) → IsSound s → IsSound (pod_event e s).0
unfolding pod_event
pod_event-IsSound e s v = elim (Option-cases e.pod) [
  | inl none_e ↦ rw (none_e, pod_event) v
  | inr (d, some_e) ↦ elim (Option-cases (pod_of d)) [
    | inl none_d ↦ rw (some_e, pod_event) (rw none_d v)
    | inr (pod, some_d) ↦
        rw (some_e, pod_event)
          (rw some_d (
            pod_changed-IsSound e.event_type (namespace_of d, pod.name) d.node_name pod
              (ports_of_detail d) s v))
  ]
]

node_changed-IsSound :
    (gone : Bool) (n : Node) (s : SchedulerState) → IsSound s → IsSound (node_changed gone n s).0
unfolding node_changed
node_changed-IsSound true n s v =
    scheduler-IsSound s _ (remove_node-IsBalanced n.name s.scheduler v.balanced)
      (remove_node-IsKeyed n.name s.scheduler v.keyed) v
node_changed-IsSound false n s v =
    scheduler-IsSound s _ (upsert_node-IsBalanced n s.scheduler v.balanced)
      (upsert_node-IsKeyed n s.scheduler v.keyed) v

node_event-IsSound :
    (e : WatchNodeEvent) (s : SchedulerState) → IsSound s → IsSound (node_event e s).0
unfolding node_event
node_event-IsSound e s v = elim (Option-cases e.node) [
  | inl none_e ↦ rw (none_e, node_event) v
  | inr (n, some_e) ↦ rw (some_e, node_event) (node_changed-IsSound (is_deleted e.event_type) n s v)
]

pub Step-IsSound : {F : Float32} {v w : World} → Step F v w → IsSound v.state → IsSound w.state
Step-IsSound (node_arrives w e) h = node_event-IsSound e w.state h
Step-IsSound (pod_arrives w e) h = pod_event-IsSound e w.state h
Step-IsSound {F} (task_runs w before later t reply e) h = run_task-IsSound F t reply w.state h

initial-IsSound : IsSound initial
initial-IsSound = record {
  balanced = record { distinct = tt; tracked = λ k p e. cc; cpu = λ n. refl; memory = λ n. refl };
  keyed = record { distinct = tt; named = λ k n e. cc };
  distinct = tt;
}

-- However the events, the tasks and the API server's replies interleave, the claims of every
-- node are the sums (modulo 2^32) of the limits of the pods placed there, each node is filed
-- under its name, and no pod is placed or pending twice.
pub Reach-IsSound : {F : Float32} {w : World} → Reach F w → IsSound w.state
Reach-IsSound start = initial-IsSound
Reach-IsSound (next r st) = Step-IsSound st (Reach-IsSound r)
