-- ===== src/Api/Handlers/Scheduler/Assign.antt =====
-- api/src/handlers/scheduler.rs: what `assign_pod` does to the pods.
use barenetes.Base.{
  String, ◌≡◌, ap, ◌∙◌, none, some, [], ◌∷◌, ◌++◌, ◌==◌, string_eq, pair_eq, arith, inl, inr,
  Option-cases, ok, err, if◌then◌else◌, ◌⊎◌,
}
use barenetes.Base.Map.{lookup, insert, lookup-insert}
use barenetes.Shared.{PodStatus, PodDetail, EventType, AssignOutcome}
use barenetes.Api.Status.{pod_not_found}
use barenetes.Api.Store.{Etcd, Store, PodKey}
use barenetes.Api.Store.Pods.{update_and_publish_pod}
use barenetes.Api.Store.Snapshots.{publish_desired_state_event}
use barenetes.Api.Handlers.Scheduler.{assign, assign_pod_impl, placed_on_node, unassigned}

-- What an outcome makes of a pod, and the event that tells of it.
abbrev pub assigned : AssignOutcome → PodDetail → PodDetail
assigned (AssignOutcome.node_name node) = placed_on_node node
assigned (AssignOutcome.unschedulable_reason reason) = unassigned PodStatus.no_node_available reason
assigned (AssignOutcome.orphaned_reason reason) = unassigned PodStatus.unknown reason

abbrev pub told_as : AssignOutcome → EventType
told_as (AssignOutcome.node_name _) = EventType.scheduled
told_as _ = EventType.modified

module _ {E : Etcd} (s : Store E) (ns name : String) (outcome : AssignOutcome) where
  pub assign_pod_impl-found :
      (pod : PodDetail)
      → s.client ≡ none
      → lookup (ns, name) s.pods ≡ some pod
      → let (s', r) = assign_pod_impl ns name (some outcome) s in
        (r ≡ ok tt)
        × (s'.pods ≡ insert (ns, name) (assigned outcome pod) s.pods)
        × (s'.pod_events
            ≡ s.pod_events
              ++ record { event_type = told_as outcome; pod = some (assigned outcome pod) } ∷ [])
  unfolding assign_pod_impl assign update_and_publish_pod publish_desired_state_event
  assign_pod_impl-found pod m e = (ground (arith, m, e), ground (arith, m, e), ground (arith, m, e))

  pub assign_pod_impl-lost :
      s.client ≡ none
      → lookup (ns, name) s.pods ≡ none
      → assign_pod_impl ns name (some outcome) s ≡ (s, err (pod_not_found ns name))
  unfolding assign_pod_impl assign update_and_publish_pod
  assign_pod_impl-lost m e = ground (arith, m, e)

-- In memory, an outcome for a pod that is stored is written to that pod and to no other, and
-- told with SCHEDULED for a node and with MODIFIED otherwise; for a pod that is not stored the
-- answer is NotFound, and nothing changes.
pub assign_pod_impl_lem :
    {E : Etcd} (s : Store E) (ns name : String) (outcome : AssignOutcome)
    → s.client ≡ none
    → let (s', r) = assign_pod_impl ns name (some outcome) s in
      ((pod : PodDetail) × (lookup (ns, name) s.pods ≡ some pod)
        × (r ≡ ok tt)
        × ((j : PodKey)
            → lookup j s'.pods
              ≡ (if (ns, name) == j then some (assigned outcome pod) else lookup j s.pods))
        × (s'.pod_events
            ≡ s.pod_events
              ++ record { event_type = told_as outcome; pod = some (assigned outcome pod) } ∷ []))
      ⊎ ((lookup (ns, name) s.pods ≡ none) × (s' ≡ s) × (r ≡ err (pod_not_found ns name)))
assign_pod_impl_lem s ns name outcome m = elim (Option-cases (lookup (ns, name) s.pods)) [
  | inl e ↦
      let lost = assign_pod_impl-lost s ns name outcome m e in
      inr (e, ap (λ x. x.0) lost, ap (λ x. x.1) lost)
  | inr (pod, e) ↦
      let (done, pods, told) = assign_pod_impl-found s ns name outcome pod m e in
      inl (
        pod,
        e,
        done,
        λ j. ap (lookup j) pods ∙ lookup-insert (ns, name) j (assigned outcome pod) s.pods,
        told,
      )
]
