-- ===== src/Api/Service/Effects.antt =====
-- api/src/handlers: what each handler may change, for a store in memory.
use barenetes.Base.{
  String, ◌≡◌, refl, ap, Option, none, some, string_eq, pair_eq, arith, ◌⊎◌, inl, inr, Option-cases,
  Result-cases,
}
use barenetes.Base.Map.{
  Map, lookup, contains_key, contains_key-insert, insert, remove, insert-some, remove-some,
}
use barenetes.Shared.{Pod, PodDetail, PodWithSpec, AssignOutcome}
use barenetes.Identity.{Peer}
use barenetes.Api.Store.{Etcd, Store, PodKey, pod_key}
use barenetes.Api.Store.Pods.{create_pod, get_pod, remove_pod, update_pod_status}
use barenetes.Api.Store.Snapshots.{publish_desired_state_event}
use barenetes.Api.Handlers.Cli.{accept_pod, create_pod_impl, delete_pod_impl}
use barenetes.Api.Handlers.Scheduler.{assign_pod_impl}
use barenetes.Api.Handlers.Scheduler.Assign.{assigned, assign_pod_impl-found, assign_pod_impl-lost}
use barenetes.Api.Handlers.Agent.{
  UpdatePodStatusRequest, check_owner, write_report, update_pod_status_impl, reported_detail,
}

-- The same pods are there.
abbrev pub KeepsKeys : Map PodKey PodDetail → Map PodKey PodDetail → Type 0
KeepsKeys m m' = (j : PodKey) → contains_key j m' ≡ contains_key j m

-- Every pod that is still there is on its node.
abbrev pub KeepsNodes : Map PodKey PodDetail → Map PodKey PodDetail → Type 0
KeepsNodes m m' =
    (j : PodKey) (a b : PodDetail)
    → lookup j m ≡ some a
    → lookup j m' ≡ some b
    → b.node_name ≡ a.node_name

-- Every pod that is still there has what its agent reported of it.
abbrev pub KeepsReports : Map PodKey PodDetail → Map PodKey PodDetail → Type 0
KeepsReports m m' =
    (j : PodKey) (a b : PodDetail)
    → lookup j m ≡ some a
    → lookup j m' ≡ some b
    → (b.container_statuses ≡ a.container_statuses)
      × (b.pod_ip ≡ a.pod_ip)
      × (b.resource_usage ≡ a.resource_usage)

module _ (m : Map PodKey PodDetail) where
  pub KeepsKeys-refl : KeepsKeys m m
  KeepsKeys-refl j = refl

  pub KeepsNodes-refl : KeepsNodes m m
  KeepsNodes-refl j a b e f = ground (arith, e, f)

  pub KeepsReports-refl : KeepsReports m m
  KeepsReports-refl j a b e f = ground (arith, e, f)

  -- A new pod.
  pub insert-KeepsNodes :
      (k : PodKey) (d : PodDetail) → lookup k m ≡ none → KeepsNodes m (insert k d m)
  insert-KeepsNodes k d fresh j a b e f = elim (insert-some k j d m f) [
    | inl (same, _) ↦ ground (arith, fresh, same, e)
    | inr (_, g) ↦ ground (arith, e, g)
  ]

  pub insert-KeepsReports :
      (k : PodKey) (d : PodDetail) → lookup k m ≡ none → KeepsReports m (insert k d m)
  insert-KeepsReports k d fresh j a b e f = elim (insert-some k j d m f) [
    | inl (same, _) ↦ ground (arith, fresh, same, e)
    | inr (_, g) ↦ ground (arith, e, g)
  ]

  pub remove-KeepsNodes : (k : PodKey) → KeepsNodes m (remove k m)
  remove-KeepsNodes k j a b e f = ground (arith, e, remove-some k j m f)

  pub remove-KeepsReports : (k : PodKey) → KeepsReports m (remove k m)
  remove-KeepsReports k j a b e f = ground (arith, e, remove-some k j m f)

  -- A pod that is written anew.
  pub update-KeepsKeys :
      (k : PodKey) (old new : PodDetail) → lookup k m ≡ some old → KeepsKeys m (insert k new m)
  update-KeepsKeys k old new there j = contains_key-insert k j new old m there

  pub update-KeepsNodes :
      (k : PodKey) (old new : PodDetail)
      → lookup k m ≡ some old
      → new.node_name ≡ old.node_name
      → KeepsNodes m (insert k new m)
  update-KeepsNodes k old new there same j a b e f = elim (insert-some k j new m f) [
    | inl (here, g) ↦ ground (arith, there, here, e, same, g)
    | inr (_, g) ↦ ground (arith, e, g)
  ]

  pub update-KeepsReports :
      (k : PodKey) (old new : PodDetail)
      → lookup k m ≡ some old
      → (new.container_statuses ≡ old.container_statuses)
        × (new.pod_ip ≡ old.pod_ip)
        × (new.resource_usage ≡ old.resource_usage)
      → KeepsReports m (insert k new m)
  update-KeepsReports k old new there same j a b e f = elim (insert-some k j new m f) [
    | inl (here, g) ↦ ground (arith, there, here, e, same, g)
    | inr (_, g) ↦ ground (arith, e, g)
  ]

pub assigned-reports :
    (o : AssignOutcome) (pod : PodDetail)
    → ((assigned o pod).container_statuses ≡ pod.container_statuses)
      × ((assigned o pod).pod_ip ≡ pod.pod_ip)
      × ((assigned o pod).resource_usage ≡ pod.resource_usage)
assigned-reports (AssignOutcome.node_name n) pod = ground arith
assigned-reports (AssignOutcome.unschedulable_reason r) pod = ground arith
assigned-reports (AssignOutcome.orphaned_reason r) pod = ground arith

module _ {E : Etcd} (s : Store E) (m : s.client ≡ none) where
  pub create_pod_impl-pods :
      (request : Option PodWithSpec)
      → let s' = (create_pod_impl request s).0 in
        (s'.pods ≡ s.pods)
        ⊎ ((d : PodDetail) × (lookup (pod_key d) s.pods ≡ none)
            × (s'.pods ≡ insert (pod_key d) d s.pods))
  unfolding create_pod_impl create_pod
  create_pod_impl-pods request = elim (Result-cases (accept_pod request)) [
    | inl (_, e) ↦ inl (ground (arith, e))
    | inr (found, e) ↦ elim (Option-cases (lookup (pod_key found.2) s.pods)) [
      | inr (_, f) ↦ inl (ground (arith, e, f, m))
      | inl f ↦ inr (found.2, f, ground (arith, e, f, m))
    ]
  ]

  pub delete_pod_impl-pods :
      (ns name : String)
      → let s' = (delete_pod_impl ns name s).0 in s'.pods ≡ remove (ns, name) s.pods
  unfolding delete_pod_impl remove_pod publish_desired_state_event
  delete_pod_impl-pods ns name = ground (arith, m)

  pub assign_pod_impl-pods :
      (ns name : String) (o : AssignOutcome)
      → let s' = (assign_pod_impl ns name (some o) s).0 in
        (s'.pods ≡ s.pods)
        ⊎ ((pod : PodDetail) × (lookup (ns, name) s.pods ≡ some pod)
            × (s'.pods ≡ insert (ns, name) (assigned o pod) s.pods))
  assign_pod_impl-pods ns name o = elim (Option-cases (lookup (ns, name) s.pods)) [
    | inl e ↦ inl (ap (λ x. x.0.pods) (assign_pod_impl-lost s ns name o m e))
    | inr (pod, e) ↦ inr (pod, e, (assign_pod_impl-found s ns name o pod m e).1)
  ]

  pub write_report-pods :
      (request : UpdatePodStatusRequest) (ns : String) (pod : Pod)
      → let s' = (write_report request ns pod s).0 in
        (s'.pods ≡ s.pods)
        ⊎ ((old : PodDetail) × (lookup (ns, pod.name) s.pods ≡ some old)
            × (s'.pods ≡ insert (ns, pod.name) (reported_detail request pod old) s.pods))
  unfolding write_report update_pod_status
  write_report-pods request ns pod = elim (Option-cases (lookup (ns, pod.name) s.pods)) [
    | inl e ↦ inl (ground (arith, e, m))
    | inr (old, e) ↦ inr (old, e, ground (arith, e, m))
  ]

  check_owner-keeps :
      (p : Peer) (request : UpdatePodStatusRequest) → (check_owner p request s).0 ≡ s
  unfolding check_owner get_pod
  check_owner-keeps p request = ground (arith, m)

  pub update_pod_status_impl-cases :
      (p : Peer) (request : UpdatePodStatusRequest)
      → ((update_pod_status_impl p request s).0 ≡ s)
        ⊎ ((ns : String) × (pod : Pod) × ((update_pod_status_impl p request s).0
              ≡ (write_report request ns pod s).0))
  unfolding update_pod_status_impl
  update_pod_status_impl-cases p request =
      let kept = check_owner-keeps p request in
      elim (Result-cases (check_owner p request s).1) [
        | inl (_, e) ↦ inl (ground (arith, e, kept))
        | inr ((ns, pod), e) ↦ inr (ns, pod, ground (arith, e, kept))
      ]
