-- ===== src/Api/Service/Tests.antt =====
-- api/src/service.rs at work: an agent registers its node, opens two desired-state streams, and one
-- of them ends; the command line lists the pods.
use barenetes.Base.{
  ◌≡◌, ◌<◌, refl, [], ◌∷◌, ok, ℕ, String, some, ltb, if◌then◌else◌, string_eq, arith,
}
use barenetes.Base.Map.{lookup}
use barenetes.Identity.{mtls, Role, check_role, check_identity}
use barenetes.Api.Validation.{validate_dns1123_subdomain}
use barenetes.Api.Store.{Store}
use barenetes.Api.Store.Nodes.{
  ready_code, not_ready_code, register_node, get_node, node_watch_started, node_watch_ended,
  set_node_status,
}
use barenetes.Api.Store.Pods.{list_pods}
use barenetes.Api.Store.Snapshots.{
  subscribe_desired_state_with_snapshot, subscribe_desired_state_events, drop_receiver,
}
use barenetes.Api.Service.Gate.{MayRead, serve-MayRead}
use barenetes.Api.Handlers.Cli.{list_pods_impl}
use barenetes.Api.Handlers.Agent.{update_node_status_impl, watch_desired_state_impl}
use barenetes.Api.Service.{
  list_pods as list_pods_request, pods_response, update_node_status, watch_desired_state, serve,
  handle, stream_dropped,
}
use barenetes.Api.Service.Streams.{is_ok, one_less}
use barenetes.Api.Service.Reach.{start, request, dropped, granted, Reach-status}
use barenetes.Api.Tests.{etcd, empty_store, one_pod, web_on, node1, agent}

abbrev registered : Store etcd
registered = (serve agent (update_node_status (some node1)) empty_store).0

abbrev watching : Store etcd
watching = (serve agent (watch_desired_state "node1") registered).0

abbrev watching_twice : Store etcd
watching_twice = (serve agent (watch_desired_state "node1") watching).0

abbrev after_registration : String → ℕ
after_registration =
    granted (update_node_status (some node1))
      (is_ok (serve agent (update_node_status (some node1)) empty_store).1) (λ _. 0)

abbrev open_streams : String → ℕ
open_streams =
    granted (watch_desired_state "node1")
      (is_ok (serve agent (watch_desired_state "node1") watching).1)
      (granted (watch_desired_state "node1")
        (is_ok (serve agent (watch_desired_state "node1") registered).1) after_registration)

two-open : 0 < open_streams "node1"
unfolding serve handle check_role update_node_status_impl check_identity register_node
    watch_desired_state_impl validate_dns1123_subdomain get_node
    subscribe_desired_state_with_snapshot subscribe_desired_state_events list_pods
    node_watch_started set_node_status
two-open = ground arith

one_left-lookup : lookup "node1" (stream_dropped "node1" watching_twice).nodes ≡ some node1
unfolding serve handle check_role update_node_status_impl check_identity register_node
    watch_desired_state_impl validate_dns1123_subdomain get_node
    subscribe_desired_state_with_snapshot subscribe_desired_state_events list_pods
    node_watch_started set_node_status stream_dropped drop_receiver node_watch_ended
one_left-lookup = refl

Reach-status_example :
    node1.status
    ≡ (if ltb 0 (one_less "node1" open_streams "node1") then ready_code else not_ready_code)
Reach-status_example =
    Reach-status "node1" node1
      (dropped "node1" two-open (
        request agent (watch_desired_state "node1") (
          request agent (watch_desired_state "node1")
            (request agent (update_node_status (some node1)) start))))
      one_left-lookup

listed-ok :
    (serve (mtls (some "barectl") (some Role.cli)) list_pods_request one_pod).1
    ≡ ok (pods_response (web_on "node1" ∷ []))
unfolding serve handle check_role list_pods_impl list_pods
listed-ok = refl

serve-MayRead_example :
    MayRead (mtls (some "barectl") (some Role.cli)) (pods_response (web_on "node1" ∷ []))
serve-MayRead_example =
    serve-MayRead (mtls (some "barectl") (some Role.cli)) list_pods_request one_pod
      (pods_response (web_on "node1" ∷ [])) listed-ok
