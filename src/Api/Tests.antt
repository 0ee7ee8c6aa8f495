-- ===== src/Api/Tests.antt =====
-- The API server at work on a store in memory.
use barenetes.Base.{
  String, ◌≡◌, ◌↔◌, refl, false, none, some, List, [], ◌∷◌, ◌++◌, ◌==◌, string_eq, pair_eq, Member,
  if◌then◌else◌, ◌⊎◌, length, ok, err,
}
use barenetes.Base.Map.{lookup}
use barenetes.Shared.{Node, Pod, PodWithSpec, PodDetail, AssignOutcome, EventType}
use barenetes.Identity.{Peer, mtls, Role, check_identity}
use barenetes.Api.Status.{pod_not_found}
use barenetes.Api.Validation.{validate_dns1123_subdomain}
use barenetes.Api.Store.{Etcd, Store, PodKey, new_store, values}
use barenetes.Api.Store.Pods.{get_pod, update_pod_status, create_pod}
use barenetes.Api.Store.Keys.{pod_etcd_key-injective}
use barenetes.Api.Store.Snapshots.{subscribe_pod_events_with_snapshot}
use barenetes.Api.Store.Snapshots.Complete.{subscribe_pod_events_with_snapshot_lem}
use barenetes.Api.Handlers.Cli.{create_pod_impl, get_pod_impl, delete_pod_impl}
use barenetes.Api.Handlers.Cli.Pods.{create_pod_impl-get, delete_pod_impl-get}
use barenetes.Api.Handlers.Scheduler.{assign_pod_impl}
use barenetes.Api.Handlers.Scheduler.Assign.{assigned, told_as, assign_pod_impl_lem}
use barenetes.Api.Handlers.Agent.{
  UpdatePodStatusRequest, check_owner, write_report, update_pod_status_impl, reported_pod,
  reported_detail,
}
use barenetes.Api.Service.{assign_pod, serve}
use barenetes.Api.Service.Gate.{IsAllowed, serve-IsAllowed}
use barenetes.Api.Service.Impersonation.{
  IsAbout, check_owner-write_report, update_pod_status_impl-own, check_owner-race,
}

-- An etcd that has one pod and refuses every transaction.
abbrev racing : PodDetail → Etcd
racing pod = record {
  Server = Unit {0};
  Bytes = Unit {0};
  get = λ key server. (server, ok (some (tt, 1)));
  get_prefix = λ key server. (server, ok (tt ∷ []));
  put = λ key bytes server. (server, ok tt);
  put_if = λ key version bytes server. (server, ok false);
  delete = λ key server. (server, ok tt);
  encode_pod = λ d. tt;
  decode_pod = λ b. ok pod;
  encode_node = λ n. tt;
  decode_node = λ b. err "not a node";
}

abbrev web_spec : PodWithSpec
web_spec = record {
  pod = some (record { name = "web"; status = 3; requests = none; limits = none });
  spec = some (record {
    namespace = "default";
    containers = record { name = "c"; image = "nginx"; ports = []; env = [] } ∷ [];
  });
}

abbrev pub web_on : String → PodDetail
web_on node = record {
  core = some (record web_spec {
    pod = some (record { name = "web"; status = 0; requests = none; limits = none });
  });
  container_statuses = [];
  pod_ip = none;
  message = none;
  resource_usage = none;
  node_name = node;
  unschedulable_reason = none;
}

abbrev pub etcd : Etcd
etcd = racing (web_on "")

abbrev pub empty_store : Store etcd
empty_store = new_store etcd none

abbrev pub one_pod : Store etcd
one_pod = record empty_store { pods = (("default", "web"), web_on "node1") ∷ [] }

abbrev pub node1 : Node
node1 = record { name = "node1"; status = 0; capacity = none; allocatable = none; ip = "10.0.0.1" }

abbrev pub agent : Peer
agent = mtls (some "node1") (some Role.node)

abbrev to_node2 : AssignOutcome
to_node2 = AssignOutcome.node_name "node2"

assign_pod_impl_lem_example :
    let (s', r) = assign_pod_impl "default" "web" (some to_node2) one_pod in
    ((pod : PodDetail) × (lookup ("default", "web") one_pod.pods ≡ some pod)
      × (r ≡ ok tt)
      × ((j : PodKey)
          → lookup j s'.pods ≡ (
              if ("default", "web") == j
              then some (assigned to_node2 pod)
              else lookup j one_pod.pods))
      × (s'.pod_events
          ≡ one_pod.pod_events
            ++ record { event_type = told_as to_node2; pod = some (assigned to_node2 pod) } ∷ []))
    ⊎ ((lookup ("default", "web") one_pod.pods ≡ none)
        × (s' ≡ one_pod)
        × (r ≡ err (pod_not_found "default" "web")))
assign_pod_impl_lem_example = assign_pod_impl_lem one_pod "default" "web" to_node2 refl

abbrev report_running : UpdatePodStatusRequest
report_running = record {
  pod = some web_spec;
  container_statuses = [];
  pod_ip = some "10.1.0.2";
  message = none;
  resource_usage = none;
}

abbrev web_pod : Pod
web_pod = record { name = "web"; status = 3; requests = none; limits = none }

report-ok : (update_pod_status_impl agent report_running one_pod).1 ≡ ok tt
unfolding update_pod_status_impl check_owner write_report reported_pod get_pod update_pod_status
    check_identity
report-ok = refl

update_pod_status_impl-own_example :
    let s' = (update_pod_status_impl agent report_running one_pod).0 in
    (ns : String) × (reported : Pod) × (pod : PodDetail) × (pod' : PodDetail) × IsAbout
      report_running ns reported
    × (lookup (ns, reported.name) one_pod.pods ≡ some pod)
    × (some "node1" ≡ some pod.node_name)
    × (pod'.node_name ≡ pod.node_name)
    × ((j : PodKey)
        → lookup j s'.pods
          ≡ (if (ns, reported.name) == j then some pod' else lookup j one_pod.pods))
update_pod_status_impl-own_example =
    update_pod_status_impl-own one_pod (some "node1") (some Role.node) report_running refl report-ok

owner-ok : (check_owner agent report_running one_pod).1 ≡ ok ("default", web_pod)
unfolding check_owner reported_pod get_pod check_identity
owner-ok = refl

-- The store once the scheduler has moved the pod.
abbrev moved : Store etcd
moved = record empty_store { pods = (("default", "web"), web_on "node2") ∷ [] }

write-ok : (write_report report_running "default" web_pod moved).1 ≡ ok tt
unfolding write_report update_pod_status
write-ok = refl

check_owner-write_report_example :
    IsAbout report_running "default" web_pod
    × ((check_owner agent report_running one_pod).0 ≡ one_pod)
    × ((detail : PodDetail) × (lookup ("default", "web") one_pod.pods ≡ some detail)
        × (some "node1" ≡ some detail.node_name))
    × ((old : PodDetail) × (new : PodDetail) × (lookup ("default", "web") moved.pods ≡ some old)
        × (new.node_name ≡ old.node_name)
        × ((j : PodKey)
            → lookup j (write_report report_running "default" web_pod moved).0.pods
              ≡ (if ("default", "web") == j then some new else lookup j moved.pods)))
check_owner-write_report_example =
    check_owner-write_report one_pod moved (some "node1") (some Role.node) report_running "default"
      web_pod refl refl owner-ok write-ok

check_owner-race_example :
    let t = (assign_pod_impl "default" "web" (some to_node2) one_pod).0 in
    let (t', r) = write_report report_running "default" web_pod t in
    (r ≡ ok tt)
    × ((detail : PodDetail) × (lookup ("default", "web") t.pods ≡ some detail)
        × (detail.node_name ≡ "node2")
        × (lookup ("default", "web") t'.pods
            ≡ some (reported_detail report_running web_pod detail)))
check_owner-race_example =
    check_owner-race one_pod agent report_running "default" web_pod "node2" refl owner-ok

abbrev scheduler : Peer
scheduler = mtls (some "scheduler") (some Role.scheduler)

serve-IsAllowed_example :
    IsAllowed scheduler one_pod
      (serve scheduler (assign_pod "default" "web" (some to_node2)) one_pod).0
serve-IsAllowed_example =
    serve-IsAllowed scheduler (assign_pod "default" "web" (some to_node2)) one_pod refl

create-ok : (create_pod_impl (some web_spec) empty_store).1 ≡ ok (web_on "")
unfolding create_pod_impl create_pod validate_dns1123_subdomain
create-ok = refl

create_pod_impl-get_example :
    let s' = (create_pod_impl (some web_spec) empty_store).0 in
    (lookup ("default", "web") empty_store.pods ≡ none)
    × (get_pod_impl "default" "web" s' ≡ (s', ok (web_on "")))
    × ((j : PodKey)
        → (("default", "web") == j) ≡ false
        → lookup j s'.pods ≡ lookup j empty_store.pods)
create_pod_impl-get_example =
    create_pod_impl-get empty_store (some web_spec) (web_on "") refl create-ok

delete_pod_impl-get_example :
    let (s', r) = delete_pod_impl "default" "web" one_pod in
    (r ≡ ok "web")
    × (get_pod_impl "default" "web" s' ≡ (s', err (pod_not_found "default" "web")))
    × ((j : PodKey) → (("default", "web") == j) ≡ false → lookup j s'.pods ≡ lookup j one_pod.pods)
    × (s'.pod_events
        ≡ one_pod.pod_events
          ++ record { event_type = EventType.deleted; pod = some (web_on "node1") } ∷ [])
delete_pod_impl-get_example = delete_pod_impl-get one_pod "default" "web" (web_on "node1") refl refl

name-ok : validate_dns1123_subdomain "default" "namespace" ≡ ok tt
unfolding validate_dns1123_subdomain
name-ok = refl

abbrev web_key : PodKey
web_key = ("default", "web")

pod_etcd_key-injective_example : web_key ≡ web_key
pod_etcd_key-injective_example = pod_etcd_key-injective web_key web_key name-ok name-ok refl

subscribe_pod_events_with_snapshot_lem_example :
    (pods : List PodDetail) × (subscribe_pod_events_with_snapshot one_pod
      ≡ (one_pod, ok (pods, length one_pod.pod_events)))
    × ((pod : PodDetail) → Member pod (values one_pod.pods) ↔ Member pod pods)
subscribe_pod_events_with_snapshot_lem_example = subscribe_pod_events_with_snapshot_lem one_pod refl
