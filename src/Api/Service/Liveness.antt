-- ===== src/Api/Service/Liveness.antt =====
-- api/src/service.rs and what it calls, for a store in memory: the status of a node.
use barenetes.Base.{
  ℕ, String, ◌≡◌, true, Option, none, some, ◌<◌, if◌then◌else◌, string_eq, pair_eq, arith,
}
use barenetes.Base.Map.{lookup, contains_key}
use barenetes.Shared.{Node, Pod, PodWithSpec, AssignOutcome}
use barenetes.Identity.{Peer}
use barenetes.Api.Store.{Etcd, Store}
use barenetes.Api.Store.Pods.{
  create_pod, get_pod, list_pods, remove_pod, update_and_publish_pod, update_pod_status,
}
use barenetes.Api.Store.Nodes.{ready_code, not_ready_code, get_node, list_nodes}
use barenetes.Api.Store.Snapshots.{
  subscribe_pod_events_with_snapshot, subscribe_node_events_with_snapshot,
  publish_desired_state_event, subscribe_desired_state_events,
  subscribe_desired_state_with_snapshot, drop_receiver,
}
use barenetes.Api.Handlers.Cli.{
  create_pod_impl, delete_pod_impl, get_pod_impl, list_pods_impl, get_node_impl, list_nodes_impl,
}
use barenetes.Api.Handlers.Scheduler.{watch_pods_impl, watch_nodes_impl, assign, assign_pod_impl}
use barenetes.Api.Handlers.Agent.{
  UpdatePodStatusRequest, check_owner, write_report, update_pod_status_impl,
}

-- The store is in memory, no count of streams is zero, only known nodes have one, and a node is
-- READY if it has one and NOT_READY otherwise.
pub record IsLive {E : Etcd} (s : Store E) : Type 0 where
  pub memory : s.client ≡ none
  pub counted : (name : String) (c : ℕ) → lookup name s.node_watchers ≡ some c → 0 < c
  pub known :
      (name : String) → contains_key name s.node_watchers ≡ true → contains_key name s.nodes ≡ true
  pub status :
      (name : String) (n : Node)
      → lookup name s.nodes ≡ some n
      → n.status ≡ (if contains_key name s.node_watchers then ready_code else not_ready_code)

-- What liveness depends on is the same in both.
pub record Same {E : Etcd} (s s' : Store E) : Type 0 where
  pub client : s'.client ≡ s.client
  pub nodes : s'.nodes ≡ s.nodes
  pub node_watchers : s'.node_watchers ≡ s.node_watchers

module _ {E : Etcd} (s : Store E) (m : s.client ≡ none) where
  pub create_pod_impl-Same : (request : Option PodWithSpec) → Same s (create_pod_impl request s).0
  unfolding create_pod_impl create_pod
  create_pod_impl-Same request = record {
    client = ground (arith, m);
    nodes = ground (arith, m);
    node_watchers = ground (arith, m);
  }

  pub delete_pod_impl-Same : (ns name : String) → Same s (delete_pod_impl ns name s).0
  unfolding delete_pod_impl remove_pod publish_desired_state_event
  delete_pod_impl-Same ns name = record {
    client = ground (arith, m);
    nodes = ground (arith, m);
    node_watchers = ground (arith, m);
  }

  pub get_pod_impl-Same : (ns name : String) → Same s (get_pod_impl ns name s).0
  unfolding get_pod_impl get_pod
  get_pod_impl-Same ns name = record {
    client = ground (arith, m);
    nodes = ground (arith, m);
    node_watchers = ground (arith, m);
  }

  pub get_node_impl-Same : (name : String) → Same s (get_node_impl name s).0
  unfolding get_node_impl get_node list_pods
  get_node_impl-Same name = record {
    client = ground (arith, m);
    nodes = ground (arith, m);
    node_watchers = ground (arith, m);
  }

  pub assign_pod_impl-Same :
      (ns name : String) (o : Option AssignOutcome) → Same s (assign_pod_impl ns name o s).0
  unfolding assign_pod_impl assign update_and_publish_pod publish_desired_state_event
  assign_pod_impl-Same ns name o = record {
    client = ground (arith, m);
    nodes = ground (arith, m);
    node_watchers = ground (arith, m);
  }

  pub update_pod_status_impl-Same :
      (p : Peer) (r : UpdatePodStatusRequest) → Same s (update_pod_status_impl p r s).0
  unfolding update_pod_status_impl check_owner write_report get_pod update_pod_status
  update_pod_status_impl-Same p r = record {
    client = ground (arith, m);
    nodes = ground (arith, m);
    node_watchers = ground (arith, m);
  }

  pub write_report-Same :
      (r : UpdatePodStatusRequest) (ns : String) (pod : Pod) → Same s (write_report r ns pod s).0
  unfolding write_report update_pod_status
  write_report-Same r ns pod = record {
    client = ground (arith, m);
    nodes = ground (arith, m);
    node_watchers = ground (arith, m);
  }

  pub list_pods_impl-Same : Same s (list_pods_impl s).0
  unfolding list_pods_impl list_pods
  list_pods_impl-Same = record {
    client = ground (arith, m);
    nodes = ground (arith, m);
    node_watchers = ground (arith, m);
  }

  pub list_nodes_impl-Same : Same s (list_nodes_impl s).0
  unfolding list_nodes_impl list_nodes list_pods
  list_nodes_impl-Same = record {
    client = ground (arith, m);
    nodes = ground (arith, m);
    node_watchers = ground (arith, m);
  }

  pub watch_pods_impl-Same : Same s (watch_pods_impl s).0
  unfolding watch_pods_impl subscribe_pod_events_with_snapshot list_pods
  watch_pods_impl-Same = record {
    client = ground (arith, m);
    nodes = ground (arith, m);
    node_watchers = ground (arith, m);
  }

  pub watch_nodes_impl-Same : Same s (watch_nodes_impl s).0
  unfolding watch_nodes_impl subscribe_node_events_with_snapshot list_nodes
  watch_nodes_impl-Same = record {
    client = ground (arith, m);
    nodes = ground (arith, m);
    node_watchers = ground (arith, m);
  }

  pub drop_receiver-Same : (name : String) → Same s (drop_receiver name s)
  unfolding drop_receiver
  drop_receiver-Same name = record {
    client = ground (arith, m);
    nodes = ground (arith, m);
    node_watchers = ground (arith, m);
  }

  pub subscribe-Same : (name : String) → Same s (subscribe_desired_state_with_snapshot name s).0
  unfolding subscribe_desired_state_with_snapshot subscribe_desired_state_events list_pods
  subscribe-Same name = record {
    client = ground (arith, m);
    nodes = ground (arith, m);
    node_watchers = ground (arith, m);
  }
