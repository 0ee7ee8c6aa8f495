-- ===== src/Api/Service/Authority.antt =====
-- api/src/service.rs and handlers: what a peer without a role leaves as it is, for a store in
-- memory.
use barenetes.Base.{
  String, ◌≡◌, refl, sym, ap, subst, Option, none, some, string_eq, pair_eq, arith, inl, inr,
}
use barenetes.Shared.{Node, Pod, NodeStatus, PodWithSpec, AssignOutcome}
use barenetes.Identity.{Peer, Role}
use barenetes.Api.Store.{Etcd, Store, pod_key}
use barenetes.Api.Store.Pods.{get_pod, list_pods}
use barenetes.Api.Store.Nodes.{
  get_node, list_nodes, register_node, set_node_status, node_watch_started,
}
use barenetes.Api.Store.Snapshots.{
  subscribe_pod_events_with_snapshot, subscribe_node_events_with_snapshot,
  subscribe_desired_state_events, subscribe_desired_state_with_snapshot, drop_receiver,
}
use barenetes.Api.Handlers.Cli.{
  create_pod_impl, delete_pod_impl, get_pod_impl, list_pods_impl, get_node_impl, list_nodes_impl,
}
use barenetes.Api.Handlers.Scheduler.{watch_pods_impl, watch_nodes_impl, assign_pod_impl}
use barenetes.Api.Handlers.Agent.{
  UpdatePodStatusRequest, write_report, reported_detail, update_pod_status_impl,
  update_node_status_impl, watch_desired_state_impl,
}
use barenetes.Api.Handlers.Scheduler.Assign.{assigned}
use barenetes.Api.Service.{
  Request, create_pod, delete_pod, get_pod as get_pod_request, list_pods as list_pods_request,
  get_node as get_node_request, list_nodes as list_nodes_request, watch_pods, watch_nodes,
  assign_pod, update_pod_status, update_node_status, watch_desired_state, role_for, handle,
}
use barenetes.Api.Service.Liveness.{
  Same, assign_pod_impl-Same, create_pod_impl-Same, delete_pod_impl-Same, get_node_impl-Same,
  get_pod_impl-Same, list_nodes_impl-Same, list_pods_impl-Same, watch_nodes_impl-Same,
  watch_pods_impl-Same,
}
use barenetes.Api.Service.Effects.{
  KeepsKeys, KeepsNodes, KeepsReports, KeepsKeys-refl, KeepsNodes-refl, KeepsReports-refl,
  insert-KeepsNodes, insert-KeepsReports, remove-KeepsNodes, remove-KeepsReports, update-KeepsKeys,
  update-KeepsNodes, update-KeepsReports, assigned-reports, create_pod_impl-pods,
  delete_pod_impl-pods, assign_pod_impl-pods, write_report-pods, update_pod_status_impl-cases,
}

drop_receiver-pods : {E : Etcd} (s : Store E) (name : String) → (drop_receiver name s).pods ≡ s.pods
unfolding drop_receiver
drop_receiver-pods s name = ground arith

module _ {E : Etcd} (s : Store E) (m : s.client ≡ none) where
  get_pod_impl-pods : (ns name : String) → (get_pod_impl ns name s).0.pods ≡ s.pods
  unfolding get_pod_impl get_pod
  get_pod_impl-pods ns name = ground (arith, m)

  list_pods_impl-pods : (list_pods_impl s).0.pods ≡ s.pods
  unfolding list_pods_impl list_pods
  list_pods_impl-pods = ground (arith, m)

  get_node_impl-pods : (name : String) → (get_node_impl name s).0.pods ≡ s.pods
  unfolding get_node_impl get_node list_pods
  get_node_impl-pods name = ground (arith, m)

  list_nodes_impl-pods : (list_nodes_impl s).0.pods ≡ s.pods
  unfolding list_nodes_impl list_nodes list_pods
  list_nodes_impl-pods = ground (arith, m)

  watch_pods_impl-pods : (watch_pods_impl s).0.pods ≡ s.pods
  unfolding watch_pods_impl subscribe_pod_events_with_snapshot list_pods
  watch_pods_impl-pods = ground (arith, m)

  watch_nodes_impl-pods : (watch_nodes_impl s).0.pods ≡ s.pods
  unfolding watch_nodes_impl subscribe_node_events_with_snapshot list_nodes
  watch_nodes_impl-pods = ground (arith, m)

  update_node_status_impl-pods :
      (p : Peer) (n : Option Node) → (update_node_status_impl p n s).0.pods ≡ s.pods
  unfolding update_node_status_impl register_node
  update_node_status_impl-pods p n = ground (arith, m)

  set_node_status-pods :
      (name : String) (status : NodeStatus) → (set_node_status name status s).0.pods ≡ s.pods
  unfolding set_node_status
  set_node_status-pods name status = ground (arith, m)

  set_node_status-client :
      (name : String) (status : NodeStatus) → (set_node_status name status s).0.client ≡ none
  unfolding set_node_status
  set_node_status-client name status = ground (arith, m)

  subscribe-pods :
      (name : String)
      → let s' = (subscribe_desired_state_with_snapshot name s).0 in
        (s'.pods ≡ s.pods) × (s'.client ≡ none)
  unfolding subscribe_desired_state_with_snapshot subscribe_desired_state_events list_pods
  subscribe-pods name = (ground (arith, m), ground (arith, m))

  node_watch_started-pods : (name : String) → (node_watch_started name s).0.pods ≡ s.pods
  unfolding node_watch_started get_node
  node_watch_started-pods name = ground (arith, m, set_node_status-pods name NodeStatus.ready)

module _ {E : Etcd} (s : Store E) (m : s.client ≡ none) where
  watch_desired_state_impl-pods :
      (p : Peer) (name : String) → (watch_desired_state_impl p name s).0.pods ≡ s.pods
  unfolding watch_desired_state_impl get_node
  watch_desired_state_impl-pods p name =
      let t = (subscribe_desired_state_with_snapshot name s).0 in
      let (pods, client) = subscribe-pods s m name in
      ground (
        arith,
        m,
        pods,
        node_watch_started-pods t client name,
        drop_receiver-pods (node_watch_started name t).0 name,
      )

-- The nodes and their open streams are as they were.
abbrev pub KeepsCluster : {E : Etcd} → Store E → Store E → Type 0
KeepsCluster s s' = (s'.nodes ≡ s.nodes) × (s'.node_watchers ≡ s.node_watchers)

-- What a request of a role leaves as it is: only the CLI adds and removes pods, only the scheduler
-- assigns them, and only an agent changes a node, or what is reported of a pod.
abbrev pub KeepsOthers : {E : Etcd} → Role → Store E → Store E → Type 0
KeepsOthers Role.cli s s' =
    KeepsNodes s.pods s'.pods × KeepsReports s.pods s'.pods × KeepsCluster s s'
KeepsOthers Role.scheduler s s' =
    KeepsKeys s.pods s'.pods × KeepsReports s.pods s'.pods × KeepsCluster s s'
KeepsOthers Role.api s s' =
    KeepsKeys s.pods s'.pods
    × KeepsNodes s.pods s'.pods
    × KeepsReports s.pods s'.pods
    × KeepsCluster s s'
KeepsOthers Role.node s s' = KeepsKeys s.pods s'.pods × KeepsNodes s.pods s'.pods

module _ {E : Etcd} (s s' : Store E) (e : s'.pods ≡ s.pods) where
  keys_kept : KeepsKeys s.pods s'.pods
  keys_kept = subst (KeepsKeys s.pods) (sym e) (KeepsKeys-refl s.pods)

  nodes_kept : KeepsNodes s.pods s'.pods
  nodes_kept = subst (KeepsNodes s.pods) (sym e) (KeepsNodes-refl s.pods)

  reports_kept : KeepsReports s.pods s'.pods
  reports_kept = subst (KeepsReports s.pods) (sym e) (KeepsReports-refl s.pods)

  pods-KeepsOthers : KeepsOthers Role.node s s'
  pods-KeepsOthers = (keys_kept, nodes_kept)

  read-KeepsOthers : (role : Role) → Same s s' → KeepsOthers role s s'
  read-KeepsOthers Role.cli same = (nodes_kept, reports_kept, (same.nodes, same.node_watchers))
  read-KeepsOthers Role.scheduler same = (keys_kept, reports_kept, (same.nodes, same.node_watchers))
  read-KeepsOthers Role.api same =
      (keys_kept, nodes_kept, reports_kept, (same.nodes, same.node_watchers))
  read-KeepsOthers Role.node same = (keys_kept, nodes_kept)

module _ {E : Etcd} (s : Store E) (m : s.client ≡ none) where
  create_pod_impl-KeepsOthers :
      (request : Option PodWithSpec) → KeepsOthers Role.cli s (create_pod_impl request s).0
  create_pod_impl-KeepsOthers request =
      let same = create_pod_impl-Same s m request in
      elim (create_pod_impl-pods s m request) [
        | inl e ↦ read-KeepsOthers s _ e Role.cli same
        | inr (d, fresh, e) ↦ (
          subst (KeepsNodes s.pods) (sym e) (insert-KeepsNodes s.pods (pod_key d) d fresh),
          subst (KeepsReports s.pods) (sym e) (insert-KeepsReports s.pods (pod_key d) d fresh),
          (same.nodes, same.node_watchers),
        )
      ]

  delete_pod_impl-KeepsOthers :
      (ns name : String) → KeepsOthers Role.cli s (delete_pod_impl ns name s).0
  delete_pod_impl-KeepsOthers ns name =
      let same = delete_pod_impl-Same s m ns name in
      let e = delete_pod_impl-pods s m ns name in
      (
        subst (KeepsNodes s.pods) (sym e) (remove-KeepsNodes s.pods (ns, name)),
        subst (KeepsReports s.pods) (sym e) (remove-KeepsReports s.pods (ns, name)),
        (same.nodes, same.node_watchers),
      )

  assign_pod_impl-KeepsOthers :
      (ns name : String) (o : Option AssignOutcome)
      → KeepsOthers Role.scheduler s (assign_pod_impl ns name o s).0
  unfolding assign_pod_impl
  assign_pod_impl-KeepsOthers ns name none =
      read-KeepsOthers s s refl Role.scheduler
        (record { client = refl; nodes = refl; node_watchers = refl })
  assign_pod_impl-KeepsOthers ns name (some o) =
      let same = assign_pod_impl-Same s m ns name (some o) in
      elim (assign_pod_impl-pods s m ns name o) [
        | inl e ↦ read-KeepsOthers s _ e Role.scheduler same
        | inr (pod, there, e) ↦ (
          subst (KeepsKeys s.pods) (sym e)
              (update-KeepsKeys s.pods (ns, name) pod (assigned o pod) there),
          subst (KeepsReports s.pods) (sym e) (
              update-KeepsReports s.pods (ns, name) pod (assigned o pod) there
                (assigned-reports o pod)),
          (same.nodes, same.node_watchers),
        )
      ]

  write_report-KeepsOthers :
      (request : UpdatePodStatusRequest) (ns : String) (pod : Pod)
      → KeepsOthers Role.node s (write_report request ns pod s).0
  write_report-KeepsOthers request ns pod = elim (write_report-pods s m request ns pod) [
    | inl e ↦ pods-KeepsOthers s (write_report request ns pod s).0 e
    | inr (old, there, e) ↦
        let new = reported_detail request pod old in
        (
          subst (KeepsKeys s.pods) (sym e) (update-KeepsKeys s.pods (ns, pod.name) old new there),
          subst (KeepsNodes s.pods) (sym e)
              (update-KeepsNodes s.pods (ns, pod.name) old new there refl),
        )
  ]

  update_pod_status_impl-KeepsOthers :
      (p : Peer) (request : UpdatePodStatusRequest)
      → KeepsOthers Role.node s (update_pod_status_impl p request s).0
  update_pod_status_impl-KeepsOthers p request = elim (update_pod_status_impl-cases s m p request) [
    | inl e ↦
        pods-KeepsOthers s (update_pod_status_impl p request s).0 (ap (λ (x : Store E). x.pods) e)
    | inr (ns, pod, e) ↦
        subst (KeepsOthers Role.node s) (sym e) (write_report-KeepsOthers request ns pod)
  ]

  pub handle-KeepsOthers : (p : Peer) (r : Request) → KeepsOthers (role_for r) s (handle p r s).0
  unfolding handle
  handle-KeepsOthers p (create_pod pod) = create_pod_impl-KeepsOthers pod
  handle-KeepsOthers p (delete_pod ns name) = delete_pod_impl-KeepsOthers ns name
  handle-KeepsOthers p (get_pod_request ns name) =
      read-KeepsOthers s _ (get_pod_impl-pods s m ns name) Role.cli (get_pod_impl-Same s m ns name)
  handle-KeepsOthers p list_pods_request =
      read-KeepsOthers s _ (list_pods_impl-pods s m) Role.cli (list_pods_impl-Same s m)
  handle-KeepsOthers p (get_node_request name) =
      read-KeepsOthers s _ (get_node_impl-pods s m name) Role.cli (get_node_impl-Same s m name)
  handle-KeepsOthers p list_nodes_request =
      read-KeepsOthers s _ (list_nodes_impl-pods s m) Role.cli (list_nodes_impl-Same s m)
  handle-KeepsOthers p watch_pods =
      read-KeepsOthers s _ (watch_pods_impl-pods s m) Role.scheduler (watch_pods_impl-Same s m)
  handle-KeepsOthers p watch_nodes =
      read-KeepsOthers s _ (watch_nodes_impl-pods s m) Role.scheduler (watch_nodes_impl-Same s m)
  handle-KeepsOthers p (assign_pod ns name o) = assign_pod_impl-KeepsOthers ns name o
  handle-KeepsOthers p (update_pod_status r) = update_pod_status_impl-KeepsOthers p r
  handle-KeepsOthers p (update_node_status n) =
      pods-KeepsOthers s (update_node_status_impl p n s).0 (update_node_status_impl-pods s m p n)
  handle-KeepsOthers p (watch_desired_state name) =
      pods-KeepsOthers s (watch_desired_state_impl p name s).0
        (watch_desired_state_impl-pods s m p name)
