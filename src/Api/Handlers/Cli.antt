-- ===== src/Api/Handlers/Cli.antt =====
-- api/src/handlers/cli.rs: what `barectl` calls.
pub mod Pods
use barenetes.Base.{
  ℕ, String, Bool, true, false, not, ◌||◌, Option, none, some, List, [], ◌∷◌, map, any,
  if◌then◌else◌, ◌==◌, string_eq, Result, ok, err, ok_or, format,
}
use barenetes.Base.Int32.{wrapping_add, wrapping_sub, max_zero}
use barenetes.Shared.{
  Resources, zero_resources, Node, Pod, PodStatus, pod_status_code, Container, PodSpec, PodWithSpec,
  PodDetail, Action, WatchDesiredStateEvent, stop,
}
use barenetes.Api.Status.{
  Status, invalid_argument, pod_not_found, node_not_found, pod_already_exists,
}
use barenetes.Api.Validation.{validate_dns1123_subdomain}
use barenetes.Api.Store.{Etcd, Store, ◌>>=◌, ◌>>◌, pure, lift, modify}
use barenetes.Api.Store.Pods.{create_pod, get_pod, list_pods, remove_pod}
use barenetes.Api.Store.Nodes.{get_node, list_nodes}
use barenetes.Api.Store.Snapshots.{publish_desired_state_event}
use barenetes.Api.Handlers.{Handler, reply}

abbrev pub no_image : String → Status
no_image name = invalid_argument (format ("container '" ∷ name ∷ "' must specify an image" ∷ []))

abbrev pub duplicate_container : String → Status
duplicate_container name =
    invalid_argument (format ("duplicate container name '" ∷ name ∷ "'" ∷ []))

-- The loop over the containers, with the names that it has seen.
pub check_containers : List String → List Container → Result Status (Unit {0})
check_containers seen [] = ok tt
check_containers seen (c ∷ cs) =
    let rest = check_containers (c.name ∷ seen) cs in
    if c.name == ""
    then err (invalid_argument "container name must not be empty")
    else if any (λ n. n == c.name) seen
    then err (duplicate_container c.name)
    else if c.image == ""
    then err (no_image c.name)
    else rest

pub validate_containers : List Container → Result Status (Unit {0})
unfolding check_containers
validate_containers [] = err (invalid_argument "pod spec must include at least one container")
validate_containers (c ∷ cs) = check_containers [] (c ∷ cs)

abbrev pub with_pod_status : PodStatus → Pod → Pod
with_pod_status status pod = record pod { status = pod_status_code status }

-- The pod as it is stored: PENDING, and everything else at its default.
abbrev pub new_detail : PodWithSpec → Pod → PodDetail
new_detail core pod = record {
  core = some (record core { pod = some (with_pod_status PodStatus.pending pod) });
  container_statuses = [];
  pod_ip = none;
  message = none;
  resource_usage = none;
  node_name = "";
  unschedulable_reason = none;
}

-- What `create_pod_impl` does before it calls the store: the namespace, the name and the pod.
pub accept_pod : Option PodWithSpec → Result Status (String × String × PodDetail)
unfolding validate_containers validate_dns1123_subdomain
accept_pod none = err (invalid_argument "pod is required")
accept_pod (some core) = elim core.pod [
  | none ↦ err (invalid_argument "pod.pod is required")
  | some pod ↦ elim core.spec [
    | none ↦ err (invalid_argument "pod.spec is required")
    | some spec ↦ elim (validate_dns1123_subdomain pod.name "pod name") [
      | err e ↦ err e
      | ok _ ↦ elim (validate_dns1123_subdomain spec.namespace "namespace") [
        | err e ↦ err e
        | ok _ ↦ elim (validate_containers spec.containers) [
          | err e ↦ err e
          | ok _ ↦ ok (spec.namespace, pod.name, new_detail core pod)
        ]
      ]
    ]
  ]
]

pub live_allocated : String → List PodDetail → Resources → Resources
live_allocated name [] sum = sum
live_allocated name (pod ∷ pods) sum =
    let limits : Option Resources = elim pod.core [
      | none ↦ none
      | some core ↦ elim core.pod [ none ↦ none | some p ↦ p.limits ]
    ] in
    let sum' : Resources = elim limits [
      | none ↦ sum
      | some l ↦ record {
        cpu = wrapping_add sum.cpu l.cpu;
        memory = wrapping_add sum.memory l.memory;
      }
    ] in
    live_allocated name pods (if pod.node_name == name then sum' else sum)

pub live_allocatable : Node → List PodDetail → Option Resources
unfolding live_allocated
live_allocatable node pods = elim node.capacity [
  | none ↦ none
  | some capacity ↦
      let used = live_allocated node.name pods zero_resources in
      some (record {
        cpu = max_zero (wrapping_sub capacity.cpu used.cpu);
        memory = max_zero (wrapping_sub capacity.memory used.memory);
      })
]

abbrev pub with_live : List PodDetail → Node → Node
with_live pods node = elim (live_allocatable node pods) [
  | none ↦ node
  | some allocatable ↦ record node { allocatable = some allocatable }
]

module _ {E : Etcd} where
  unfoldable pub create_pod_impl : Option PodWithSpec → Handler E PodDetail
  unfolding accept_pod create_pod
  create_pod_impl request = do
    (namespace, name, detail) ← lift (accept_pod request)
    created ← reply (create_pod detail)
    if created then pure detail else lift (err (pod_already_exists namespace name))

  -- A pod that runs somewhere is stopped there.
  abbrev pub stop_pod : PodDetail → Store E → Store E
  stop_pod pod s =
      if pod.node_name == ""
      then s
      else publish_desired_state_event pod.node_name
          (record { action = Action.stop; pod = pod.core }) s

  unfoldable pub delete_pod_impl : String → String → Handler E String
  unfolding remove_pod publish_desired_state_event
  delete_pod_impl namespace name = do
    removed ← reply (remove_pod (namespace, name))
    pod ← lift (ok_or removed (pod_not_found namespace name))
    modify (stop_pod pod)
    pure name

  unfoldable pub get_pod_impl : String → String → Handler E PodDetail
  unfolding get_pod
  get_pod_impl namespace name = do
    found ← reply (get_pod (namespace, name))
    lift (ok_or found (pod_not_found namespace name))

  unfoldable pub list_pods_impl : Handler E (List PodDetail)
  unfolding list_pods
  list_pods_impl = reply list_pods

  unfoldable pub get_node_impl : String → Handler E Node
  unfolding get_node list_pods live_allocatable
  get_node_impl name = do
    found ← reply (get_node name)
    node ← lift (ok_or found (node_not_found name))
    pods ← reply list_pods
    pure (with_live pods node)

  unfoldable pub list_nodes_impl : Handler E (List Node)
  unfolding list_nodes list_pods live_allocatable
  list_nodes_impl = do
    nodes ← reply list_nodes
    pods ← reply list_pods
    pure (map (with_live pods) nodes)
