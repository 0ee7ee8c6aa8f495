-- ===== src/Api/Service.antt =====
-- api/src/service.rs: the gRPC service. Each method lets its role in and runs its handler; the
-- stream that an agent holds marks its node when it is dropped.
pub mod Liveness
pub mod Ready
pub mod Streams
pub mod Reach
mod Tests
pub mod Gate
pub mod Impersonation
pub mod Effects
pub mod Authority
use barenetes.Base.{String, Option, List, Result, ok, err}
use barenetes.Shared.{
  Node, PodDetail, PodWithSpec, AssignOutcome, WatchPodEvent, WatchNodeEvent,
  WatchDesiredStateEvent,
}
use barenetes.Identity.{Peer, Role, check_role}
use barenetes.Api.Status.{Status}
use barenetes.Api.Store.{Etcd, Store, ◌>>=◌, ◌>>◌, lift}
use barenetes.Api.Store.Nodes.{node_watch_ended}
use barenetes.Api.Store.Snapshots.{Receiver, drop_receiver}
use barenetes.Api.Handlers.{Handler}
use barenetes.Api.Handlers.Cli.{
  create_pod_impl, delete_pod_impl, get_pod_impl, list_pods_impl, get_node_impl, list_nodes_impl,
}
use barenetes.Api.Handlers.Scheduler.{watch_pods_impl, watch_nodes_impl, assign_pod_impl}
use barenetes.Api.Handlers.Agent.{
  UpdatePodStatusRequest, update_pod_status_impl, update_node_status_impl, watch_desired_state_impl,
}

-- A request, with what its method reads of it.
pub data Request : Type 0 where
  create_pod : Option PodWithSpec → Request
  delete_pod get_pod : String → String → Request
  list_pods list_nodes watch_pods watch_nodes : Request
  get_node : String → Request
  assign_pod : String → String → Option AssignOutcome → Request
  update_pod_status : UpdatePodStatusRequest → Request
  update_node_status : Option Node → Request
  watch_desired_state : String → Request

pub data Response : Type 0 where
  pod_response : PodDetail → Response
  pods_response : List PodDetail → Response
  node_response : Node → Response
  nodes_response : List Node → Response
  name_response : String → Response
  empty_response : Response
  pod_stream : List WatchPodEvent → Receiver → Response
  node_stream : List WatchNodeEvent → Receiver → Response
  desired_stream : List WatchDesiredStateEvent → Receiver → Response

-- The role that each method asks for.
abbrev pub role_for : Request → Role
role_for (assign_pod _ _ _) = Role.scheduler
role_for watch_pods = Role.scheduler
role_for watch_nodes = Role.scheduler
role_for (update_pod_status _) = Role.node
role_for (update_node_status _) = Role.node
role_for (watch_desired_state _) = Role.node
role_for (create_pod _) = Role.cli
role_for (delete_pod _ _) = Role.cli
role_for (get_pod _ _) = Role.cli
role_for list_pods = Role.cli
role_for (get_node _) = Role.cli
role_for list_nodes = Role.cli

module _ {E : Etcd} where
  abbrev answer : {A : Type 0} → Handler E A → (A → Response) → Handler E Response
  answer m f s = let (s', r) = m s in (s', elim r [ ok a ↦ ok (f a) | err e ↦ err e ])

  pub handle : Peer → Request → Handler E Response
  handle peer (create_pod pod) = answer (create_pod_impl pod) pod_response
  handle peer (delete_pod namespace name) = answer (delete_pod_impl namespace name) name_response
  handle peer (get_pod namespace name) = answer (get_pod_impl namespace name) pod_response
  handle peer list_pods = answer list_pods_impl pods_response
  handle peer (get_node name) = answer (get_node_impl name) node_response
  handle peer list_nodes = answer list_nodes_impl nodes_response
  handle peer watch_pods = answer watch_pods_impl (λ r. pod_stream r.0 r.1)
  handle peer watch_nodes = answer watch_nodes_impl (λ r. node_stream r.0 r.1)
  handle peer (assign_pod namespace name outcome) =
      answer (assign_pod_impl namespace name outcome) (λ _. empty_response)
  handle peer (update_pod_status request) =
      answer (update_pod_status_impl peer request) (λ _. empty_response)
  handle peer (update_node_status node) =
      answer (update_node_status_impl peer node) (λ _. empty_response)
  handle peer (watch_desired_state name) =
      answer (watch_desired_state_impl peer name) (λ r. desired_stream r.0 r.1)

  -- `require_role`, then the handler.
  pub serve : Peer → Request → Handler E Response
  unfolding handle check_role
  serve peer request = do lift (check_role peer (role_for request)); handle peer request

  -- The drop of a `NodeLivenessGuard`: its receiver goes, and the count of watchers goes down.
  pub stream_dropped : String → Store E → Store E
  unfolding node_watch_ended drop_receiver
  stream_dropped name s = node_watch_ended name (drop_receiver name s)
