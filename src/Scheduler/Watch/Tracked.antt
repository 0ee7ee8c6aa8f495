-- ===== src/Scheduler/Watch/Tracked.antt =====
-- scheduler/src/main.rs: the pods that the scheduler has to look after, over a step.
use barenetes.Base.{
  String, ◌≡◌, refl, sym, ap, ◌∙◌, Bool, true, false, not, ◌&&◌, ◌||◌, Option, none, some, List, [],
  ◌∷◌, ◌++◌, any, Member, if◌then◌else◌, ◌==◌, string_eq, pair_eq, Result, ok, err, arith, inl, inr,
  Option-cases, Bool-cases,
}
use barenetes.Base.Map.{Map, lookup, contains_key, lookup-insert, lookup-remove}
use barenetes.Shared.{
  Node, Pod, Port, Resources, EventType, AssignOutcome, WatchNodeEvent, WatchPodEvent,
}
use barenetes.Scheduler.Basic.{PodKey, Placement, BasicScheduler, release_placement, evict_node}
use barenetes.Scheduler.Basic.Record.{record_placement-lookup_other, release_placement-lookup_ne}
use barenetes.Scheduler.Basic.Evict.{evict_node_lem, survivors, survives}
use barenetes.Scheduler.Basic.Claims.{IsBalanced}
use barenetes.Scheduler.Basic.Keyed.{upsert_node-placements}
use barenetes.Scheduler.Basic.Place.{Float32, place}
use barenetes.Scheduler.Watch.Steps.{
  IsSound, World, Step, node_arrives, pod_arrives, task_runs, pod_changed-state,
}
use barenetes.Scheduler.Watch.{
  SchedulerState, Reply, Task, evict, retry, orphan, schedule, report, record_pod, settle,
  try_schedule, reported, orphan_replied, pod_deleted, pod_changed, pod_event, node_event,
  node_changed, is_deleted, pod_of, namespace_of, ports_of_detail, orphan_all, retry_all, run_task,
  limits_of, orphaned_pod,
}

-- The task will look after the pod. A retry will not: it does nothing for a pod that is no longer
-- pending.
abbrev pub carries : PodKey → Task → Bool
carries key (orphan _ k _ _) = k == key
carries key (schedule k _ _ only_if_pending) = not only_if_pending && k == key
carries key (record_pod k _) = k == key
carries key _ = false

-- The pod waits for a node, is placed, or a task will look after it.
abbrev pub tracked : PodKey → SchedulerState → List Task → Bool
tracked key s tasks =
    contains_key key s.pending
    || (contains_key key s.scheduler.placements || any (carries key) tasks)

-- The API server says that the pod does not exist.
abbrev pub tells_gone : PodKey → Task → Reply → Bool
tells_gone key (orphan _ k _ _) Reply.not_found = k == key
tells_gone key (report k _) Reply.not_found = k == key
tells_gone _ _ _ = false

any-append :
    {A : Type 0} (p : A → Bool) (xs ys : List A) → any p (xs ++ ys) ≡ (any p xs || any p ys)
any-append p [] ys = refl
any-append p (x ∷ xs) ys = ground (arith, any-append p xs ys)

settle-tracked :
    (key k : PodKey) (pod : Pod) (ports : List Port) (r : Result String String) (s : SchedulerState)
    (waiting : List Task)
    → (tracked key s waiting || k == key) ≡ true
    → (let (s', more) = settle k pod ports r s in tracked key s' (waiting ++ more)) ≡ true
unfolding settle
settle-tracked key k pod ports (ok name) s waiting h = ground (
  arith,
  lookup-remove k key s.pending,
  record_placement-lookup_other k key
      (record { node = name; limits = limits_of pod; ports = ports }) s.scheduler,
  any-append (carries key) waiting (report k (AssignOutcome.node_name name) ∷ []),
)
settle-tracked key k pod ports (err reason) s waiting h = ground (
  arith,
  lookup-insert k key (pod, ports) s.pending,
  any-append (carries key) waiting (report k (AssignOutcome.unschedulable_reason reason) ∷ []),
)

try_schedule-tracked :
    (F : Float32) (key k : PodKey) (pod : Pod) (ports : List Port) (only : Bool)
    (s : SchedulerState) (waiting : List Task)
    → (tracked key s waiting || (not only && k == key)) ≡ true
    → (let (s', more) = try_schedule F k pod ports only s in tracked key s' (waiting ++ more))
      ≡ true
unfolding try_schedule
try_schedule-tracked F key k pod ports only s waiting h =
    elim (Bool-cases (only && not (contains_key k s.pending))) [
      | inl early ↦ rw early (ground (arith, any-append (carries key) waiting []))
      | inr go ↦
          rw go (
            settle-tracked key k pod ports (place F s.scheduler pod ports) s waiting (ground arith))
    ]

orphan_all-Member :
    (key : PodKey) (node : String) (p : Placement) (m : Map PodKey Placement)
    → Member (key, p) m
    → any (carries key) (orphan_all node m) ≡ true
orphan_all-Member key node p [] h = elim h [ ]
orphan_all-Member key node p ((k, q) ∷ m) h = elim h [
  | inl e ↦
      let same : (k == key) ≡ true = (pair_eq.beq_iff k key).1 (sym (ap (λ z. z.0) e)) in
      ground arith
  | inr later ↦ ground (arith, orphan_all-Member key node p m later)
]

-- Every pod of the node goes on to a task; the others keep their placements.
evict-tracked :
    (key : PodKey) (node : String) (b : BasicScheduler)
    → IsBalanced b
    → contains_key key b.placements ≡ true
    → (let (b', evicted) = evict_node node b in
        contains_key key b'.placements || any (carries key) (orphan_all node evicted))
      ≡ true
evict-tracked key node b v h = elim (Option-cases (lookup key b.placements)) [
  | inl e ↦ absurd (ground arith)
  | inr (p, e) ↦
      let (returned, left, _, _) = evict_node_lem node b v in
      elim (Bool-cases (p.node == node)) [
        | inl on ↦
            let mem = (returned key p).1 (e, (string_eq.beq_iff p.node node).0 on) in
            ground (arith, orphan_all-Member key node p (evict_node node b).1 mem)
        | inr elsewhere ↦
            let stays = left key ∙ ap (survivors node) e ∙ survives node p elsewhere in
            ground (arith, stays)
      ]
]

orphan-tracked :
    (key k : PodKey) (limits : Resources) (ports : List Port) (reply : Reply) (s : SchedulerState)
    (waiting : List Task) (node : String)
    → tells_gone key (orphan node k limits ports) reply ≡ false
    → (tracked key s waiting || k == key) ≡ true
    → (let (s', more) = orphan_replied k limits ports reply s in tracked key s' (waiting ++ more))
      ≡ true
unfolding orphan_replied
orphan-tracked key k limits ports Reply.accepted s waiting node told h =
    ground (
      arith,
      any-append (carries key) waiting (schedule k (orphaned_pod k limits) ports false ∷ []),
    )
orphan-tracked key k limits ports Reply.not_found s waiting node told h =
    ground (arith, any-append (carries key) waiting [])
orphan-tracked key k limits ports Reply.failed s waiting node told h = ground (
  arith,
  lookup-insert k key (orphaned_pod k limits, ports) s.pending,
  any-append (carries key) waiting [],
)

reported-tracked :
    (key k : PodKey) (outcome : AssignOutcome) (reply : Reply) (s : SchedulerState)
    (waiting : List Task)
    → tells_gone key (report k outcome) reply ≡ false
    → tracked key s waiting ≡ true
    → tracked key (reported k reply s) (waiting ++ []) ≡ true
unfolding reported
reported-tracked key k outcome Reply.accepted s waiting told h =
    ground (arith, any-append (carries key) waiting [])
reported-tracked key k outcome Reply.not_found s waiting told h =
    ground (arith, lookup-remove k key s.pending, any-append (carries key) waiting [])
reported-tracked key k outcome Reply.failed s waiting told h =
    ground (arith, any-append (carries key) waiting [])

module _ (key : PodKey) (F : Float32) (reply : Reply) (s : SchedulerState)
    (waiting : List Task) where
  abbrev Kept : Task → Type 0
  Kept t = (let (s', more) = run_task F t reply s in tracked key s' (waiting ++ more)) ≡ true

  -- A task that runs hands the pod it carries on, unless the API server says that it is gone.
  pub run_task-tracked :
      (t : Task)
      → IsSound s
      → tells_gone key t reply ≡ false
      → (tracked key s waiting || carries key t) ≡ true
      → Kept t
  unfolding run_task
  run_task-tracked (evict node) v told h = ground (
    arith,
    evict-tracked key node s.scheduler v.balanced,
    any-append (carries key) waiting (orphan_all node (evict_node node s.scheduler).1),
  )
  run_task-tracked retry v told h =
      ground (arith, any-append (carries key) waiting (retry_all s.pending))
  run_task-tracked (orphan node k limits ports) v told h =
      orphan-tracked key k limits ports reply s waiting node told h
  run_task-tracked (schedule k pod ports only) v told h =
      try_schedule-tracked F key k pod ports only s waiting h
  run_task-tracked (report k outcome) v told h =
      reported-tracked key k outcome reply s waiting told (ground arith)
  run_task-tracked (record_pod k p) v told h = ground (
    arith,
    lookup-remove k key s.pending,
    record_placement-lookup_other k key p s.scheduler,
    any-append (carries key) waiting [],
  )

pod_deleted-tracked :
    (key k : PodKey) (s : SchedulerState) (waiting : List Task)
    → (k == key) ≡ false
    → tracked key s waiting ≡ true
    → (let (s', more) = pod_deleted k s in tracked key s' (waiting ++ more)) ≡ true
unfolding pod_deleted
pod_deleted-tracked key k s waiting other h = ground (
  arith,
  lookup-remove k key s.pending,
  release_placement-lookup_ne k key s.scheduler,
  any-append (carries key) waiting (if (release_placement k s.scheduler).1 then retry ∷ [] else []),
)

-- An event that leaves the state alone drops nothing, whatever tasks it adds.
same_state-tracked :
    (key : PodKey) (s s' : SchedulerState) (waiting more : List Task)
    → s' ≡ s
    → tracked key s waiting ≡ true
    → tracked key s' (waiting ++ more) ≡ true
same_state-tracked key s s' waiting more e h =
    rw e (ground (arith, any-append (carries key) waiting more))

pod_changed-tracked :
    (key k : PodKey) (t : EventType) (node : String) (pod : Pod) (ports : List Port)
    (s : SchedulerState) (waiting : List Task)
    → (is_deleted t && k == key) ≡ false
    → tracked key s waiting ≡ true
    → (let (s', more) = pod_changed t k node pod ports s in tracked key s' (waiting ++ more)) ≡ true
unfolding pod_changed
pod_changed-tracked key k t node pod ports s waiting alive h = elim (Bool-cases (is_deleted t)) [
  | inl gone ↦ rw gone (pod_deleted-tracked key k s waiting (rw gone at alive) h)
  | inr kept ↦ same_state-tracked key s _ waiting _ (pod_changed-state t k node pod ports s kept) h
]

-- The key of the pod that an event is about.
pub event_key : WatchPodEvent → Option PodKey
event_key e = elim e.pod [
  | none ↦ none
  | some d ↦ elim (pod_of d) [ none ↦ none | some pod ↦ some (namespace_of d, pod.name) ]
]

-- The event says that the pod was deleted.
pub deletes : PodKey → WatchPodEvent → Bool
unfolding event_key
deletes key e = elim (event_key e) [ none ↦ false | some k ↦ is_deleted e.event_type && k == key ]

pod_event-tracked :
    (key : PodKey) (e : WatchPodEvent) (s : SchedulerState) (waiting : List Task)
    → deletes key e ≡ false
    → tracked key s waiting ≡ true
    → (let (s', more) = pod_event e s in tracked key s' (waiting ++ more)) ≡ true
unfolding pod_event deletes
pod_event-tracked key e s waiting alive h = elim (Option-cases e.pod) [
  | inl none_e ↦ rw (none_e, pod_event) (same_state-tracked key s s waiting [] refl h)
  | inr (d, some_e) ↦ elim (Option-cases (pod_of d)) [
    | inl none_d ↦ rw (some_e, pod_event) (rw none_d (same_state-tracked key s s waiting [] refl h))
    | inr (pod, some_d) ↦
        rw (some_e, pod_event)
          (rw some_d (
            pod_changed-tracked key (namespace_of d, pod.name) e.event_type d.node_name pod
              (ports_of_detail d) s waiting (rw (some_e, some_d, deletes) at alive) h))
  ]
]

node_changed-tracked :
    (key : PodKey) (n : Node) (s : SchedulerState) (waiting : List Task)
    → tracked key s waiting ≡ true
    → (let (s', more) = node_changed false n s in tracked key s' (waiting ++ more)) ≡ true
unfolding node_changed
node_changed-tracked key n s waiting h =
    rw (upsert_node-placements n s.scheduler, any-append (carries key) waiting) (ground arith)

node_event-tracked :
    (key : PodKey) (e : WatchNodeEvent) (s : SchedulerState) (waiting : List Task)
    → is_deleted e.event_type ≡ false
    → tracked key s waiting ≡ true
    → (let (s', more) = node_event e s in tracked key s' (waiting ++ more)) ≡ true
unfolding node_event
node_event-tracked key e s waiting kept h = elim (Option-cases e.node) [
  | inl none_e ↦ rw (none_e, node_event) (same_state-tracked key s s waiting [] refl h)
  | inr (n, some_e) ↦ rw (some_e, kept, node_event) (node_changed-tracked key n s waiting h)
]

-- What takes a pod out of the scheduler's care: the event that it, or a node, was deleted, and the
-- API server's answer that it does not exist.
abbrev pub ends : {F : Float32} {v w : World} → PodKey → Step F v w → Bool
ends key (node_arrives w e) = is_deleted e.event_type
ends key (pod_arrives w e) = deletes key e
ends key (task_runs w before later t reply h) = tells_gone key t reply

-- No pod is lost: in a sound state, one that is pending, placed or in the hands of a task stays
-- so over every step, but the event that it or a node was deleted and the API server's answer
-- that it does not exist.
pub Step-tracked :
    {F : Float32} {v w : World} (key : PodKey) (st : Step F v w)
    → IsSound v.state
    → ends key st ≡ false
    → tracked key v.state v.tasks ≡ true
    → tracked key w.state w.tasks ≡ true
Step-tracked key (node_arrives w e) v alive h = node_event-tracked key e w.state w.tasks alive h
Step-tracked key (pod_arrives w e) v alive h = pod_event-tracked key e w.state w.tasks alive h
Step-tracked {F} key (task_runs w before later t reply split) v alive h =
    run_task-tracked key F reply w.state (before ++ later) t v alive (
      ground (
        arith,
        any-append (carries key) before later,
        any-append (carries key) before (t ∷ later),
        ap (any (carries key)) split,
      ))
