-- ===== src/Api/Handlers/Agent.antt =====
-- api/src/handlers/agent.rs: what an agent calls, with the peer of its connection.
use barenetes.Base.{
  ℕ, String, not, Option, none, some, List, [], ◌∷◌, ◌++◌, map, if◌then◌else◌, ◌==◌, string_eq,
  Result, ok, err, ok_or, fail_if, format, join,
}
use barenetes.Shared.{
  Resources, Node, Pod, PodSpec, PodDetail, PodWithSpec, ContainerStatus, Action,
  WatchDesiredStateEvent,
}
use barenetes.Identity.{Peer, check_identity}
use barenetes.Api.Status.{Status, invalid_argument, pod_not_found, node_not_found, missing_node}
use barenetes.Api.Validation.{validate_dns1123_subdomain}
use barenetes.Api.Store.{Etcd, ◌>>=◌, ◌>>◌, pure, lift}
use barenetes.Api.Store.Pods.{get_pod, update_pod_status}
use barenetes.Api.Store.Nodes.{get_node, register_node, node_watch_started}
use barenetes.Api.Store.Snapshots.{Receiver, drop_receiver, subscribe_desired_state_with_snapshot}
use barenetes.Api.Handlers.{Handler, reply}

pub record UpdatePodStatusRequest : Type 0 where
  pub pod : Option PodWithSpec
  pub container_statuses : List ContainerStatus
  pub pod_ip : Option String
  pub message : Option String
  pub resource_usage : Option Resources

abbrev pub or_else : {A : Type 0} → Option A → Option A → Option A
or_else none old = old
or_else (some a) old = some a

abbrev pub unless_none_reported : List ContainerStatus → List ContainerStatus → List ContainerStatus
unless_none_reported [] old = old
unless_none_reported (c ∷ cs) old = c ∷ cs

abbrev pub with_reported : ℕ → Option PodWithSpec → Option PodWithSpec
with_reported status none = none
with_reported status (some core) = elim core.pod [
  | none ↦ some core
  | some pod ↦ some (record core { pod = some (record pod { status = status }) })
]

-- The closure of `update_pod_status_impl`.
abbrev pub reported_detail : UpdatePodStatusRequest → Pod → PodDetail → PodDetail
reported_detail request pod detail = record detail {
  core = with_reported pod.status detail.core;
  container_statuses = unless_none_reported request.container_statuses detail.container_statuses;
  pod_ip = or_else request.pod_ip detail.pod_ip;
  message = or_else request.message detail.message;
  resource_usage = or_else request.resource_usage detail.resource_usage;
}

abbrev pub namespace_or_empty : Option PodSpec → String
namespace_or_empty none = ""
namespace_or_empty (some spec) = spec.namespace

abbrev pub name_or_empty : Option Pod → String
name_or_empty none = ""
name_or_empty (some pod) = pod.name

abbrev pub missing_fields : String → String → List String
missing_fields namespace name =
    (if name == "" then "pod name" ∷ [] else [])
    ++ (if namespace == "" then "pod namespace" ∷ [] else [])

-- The pod that is reported and its namespace, or every field that is missing at once. A report
-- without a pod lacks the name, so the last split always finds one.
unfoldable pub reported_pod : PodWithSpec → Result Status (String × Pod)
reported_pod core =
    let namespace = namespace_or_empty core.spec in
    elim (missing_fields namespace (name_or_empty core.pod)) [
      | m ∷ ms ↦ err (invalid_argument (format ("missing " ∷ join ", " (m ∷ ms) ∷ [])))
      | [] ↦ elim core.pod [
        | none ↦ err (invalid_argument "missing pod name")
        | some pod ↦ ok (namespace, pod)
      ]
    ]

-- The stream: the pods to run, then SYNCED, then what the receiver gets.
abbrev pub opening : List PodWithSpec → List WatchDesiredStateEvent
opening assigned =
    map (λ p. record { action = Action.run; pod = some p }) assigned
    ++ record { action = Action.synced; pod = none } ∷ []

module _ {E : Etcd} where
  -- A failure drops the receiver that the handler holds.
  abbrev pub or_drop : {A : Type 0} → String → Handler E A → Handler E A
  or_drop name m s =
      let (s', r) = m s in elim r [ ok a ↦ (s', ok a) | err e ↦ (drop_receiver name s', err e) ]

  -- `node_watch_started`, whose `false` is an error.
  abbrev pub start_watch : String → Handler E (Unit {0})
  start_watch name = do
    started ← reply (node_watch_started name)
    lift (fail_if (not started) (node_not_found name))

  -- The read of the pod and the check that it is the agent's.
  unfoldable pub check_owner : Peer → UpdatePodStatusRequest → Handler E (String × Pod)
  unfolding reported_pod get_pod check_identity
  check_owner peer request = do
    core ← lift (ok_or request.pod (pod_not_found "<unknown>" "<unknown>"))
    (namespace, pod) ← lift (reported_pod core)
    found ← reply (get_pod (namespace, pod.name))
    existing ← lift (ok_or found (pod_not_found namespace pod.name))
    lift (check_identity peer existing.node_name)
    pure (namespace, pod)

  -- The write, which takes the lock of the store anew.
  unfoldable pub write_report : UpdatePodStatusRequest → String → Pod → Handler E (Unit {0})
  unfolding update_pod_status
  write_report request namespace pod = do
    updated ← reply (update_pod_status (namespace, pod.name) (reported_detail request pod))
    lift (ok_or updated (pod_not_found namespace pod.name))
    pure tt

  -- The two with nothing between them; other requests may come there.
  unfoldable pub update_pod_status_impl : Peer → UpdatePodStatusRequest → Handler E (Unit {0})
  unfolding check_owner write_report
  update_pod_status_impl peer request = do
    (namespace, pod) ← check_owner peer request
    write_report request namespace pod

  unfoldable pub update_node_status_impl : Peer → Option Node → Handler E (Unit {0})
  unfolding register_node check_identity
  update_node_status_impl peer request = do
    node ← lift (ok_or request (missing_node "<unknown>"))
    lift (fail_if (node.name == "") (invalid_argument "missing node name"))
    lift (check_identity peer node.name)
    reply (register_node node)

  unfoldable pub watch_desired_state_impl :
      Peer → String → Handler E (List WatchDesiredStateEvent × Receiver)
  unfolding validate_dns1123_subdomain check_identity get_node subscribe_desired_state_with_snapshot
      node_watch_started
  watch_desired_state_impl peer name = do
    lift (validate_dns1123_subdomain name "node name")
    lift (check_identity peer name)
    known ← reply (get_node name)
    lift (ok_or known (node_not_found name))
    (assigned, receiver) ← reply (subscribe_desired_state_with_snapshot name)
    or_drop name (start_watch name)
    pure (opening assigned, receiver)
