-- ===== src/Api/Handlers/Scheduler.antt =====
-- api/src/handlers/scheduler.rs: what the scheduler calls. The events that open a stream stand
-- before those that the receiver will get.
pub mod Assign
use barenetes.Base.{ℕ, String, Option, none, some, List, [], ◌∷◌, map, Result, ok, err, ok_or}
use barenetes.Shared.{
  Node, Pod, PodStatus, PodDetail, PodWithSpec, EventType, AssignOutcome, Action, WatchPodEvent,
  WatchNodeEvent, WatchDesiredStateEvent,
}
use barenetes.Api.Status.{Status, invalid_argument, pod_not_found}
use barenetes.Api.Store.{Etcd, Store, Method, ◌>>=◌, ◌>>◌, pure, lift, modify}
use barenetes.Api.Store.Pods.{update_and_publish_pod}
use barenetes.Api.Store.Snapshots.{
  Receiver, subscribe_pod_events_with_snapshot, subscribe_node_events_with_snapshot,
  publish_desired_state_event,
}
use barenetes.Api.Handlers.{Handler, reply}
use barenetes.Api.Handlers.Cli.{with_pod_status}

abbrev pub with_core_status : PodStatus → PodDetail → PodDetail
with_core_status status detail = elim detail.core [
  | none ↦ detail
  | some core ↦ elim core.pod [
    | none ↦ detail
    | some pod ↦ record detail {
      core = some (record core { pod = some (with_pod_status status pod) });
    }
  ]
]

-- The three closures.
abbrev pub placed_on_node : String → PodDetail → PodDetail
placed_on_node node detail =
    with_core_status PodStatus.pending
      (record detail { node_name = node; unschedulable_reason = none })

abbrev pub unassigned : PodStatus → String → PodDetail → PodDetail
unassigned status reason detail =
    with_core_status status (record detail { node_name = ""; unschedulable_reason = some reason })

module _ {E : Etcd} where
  unfoldable pub watch_pods_impl : Handler E (List WatchPodEvent × Receiver)
  unfolding subscribe_pod_events_with_snapshot
  watch_pods_impl = do
    (pods, receiver) ← reply subscribe_pod_events_with_snapshot
    pure (map (λ p. record { event_type = EventType.added; pod = some p }) pods, receiver)

  unfoldable pub watch_nodes_impl : Handler E (List WatchNodeEvent × Receiver)
  unfolding subscribe_node_events_with_snapshot
  watch_nodes_impl = do
    (nodes, receiver) ← reply subscribe_node_events_with_snapshot
    pure (map (λ n. record { event_type = EventType.added; node = some n }) nodes, receiver)

  -- One call of `update_and_publish_pod`, and the error when it answers `false`.
  unfoldable pub assign :
      String → String → EventType → (PodDetail → PodDetail) → Handler E PodDetail
  unfolding update_and_publish_pod
  assign namespace name event_type mutate = do
    updated ← reply (update_and_publish_pod (namespace, name) event_type mutate)
    lift (ok_or updated (pod_not_found namespace name))

  unfoldable pub assign_pod_impl : String → String → Option AssignOutcome → Handler E (Unit {0})
  unfolding assign publish_desired_state_event
  assign_pod_impl namespace name none = lift (err (invalid_argument "missing assignment outcome"))
  assign_pod_impl namespace name (some (AssignOutcome.node_name node)) = do
    placed ← assign namespace name EventType.scheduled (placed_on_node node)
    modify (publish_desired_state_event node (record { action = Action.run; pod = placed.core }))
  assign_pod_impl namespace name (some (AssignOutcome.unschedulable_reason reason)) = do
    assign namespace name EventType.modified (unassigned PodStatus.no_node_available reason)
    pure tt
  assign_pod_impl namespace name (some (AssignOutcome.orphaned_reason reason)) = do
    assign namespace name EventType.modified (unassigned PodStatus.unknown reason)
    pure tt
