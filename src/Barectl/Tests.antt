-- ===== src/Barectl/Tests.antt =====
-- A pod from the flags of the command line.
use barenetes.Base.{String, List, [], ◌∷◌, ◌≡◌, refl, none, some, Result, ok, err}
use barenetes.Shared.{Resources, Port, Pod, PodWithSpec}
use barenetes.Barectl.{
  CliError, invalid_usage, PodManifest, CreatePodArgs, build_pod, resources, require_limits,
  pod_to_create,
}
use barenetes.Barectl.Limits.{pod_to_create_lem}
use barenetes.Scheduler.Basic.{BasicScheduler}
use barenetes.Scheduler.Basic.Place.{Float32, place, place_within}

abbrev no_file : String → Result CliError PodManifest
no_file path = err (invalid_usage "no file")

abbrev web_flags : CreatePodArgs
web_flags = record {
  file = none;
  name = some "web";
  namespace = none;
  image = some "nginx";
  ports = [];
  env = [];
  cpu_request = none;
  memory_request = none;
  cpu_limit = some 250;
  memory_limit = some 128;
}

abbrev web_pod : PodWithSpec
web_pod = record {
  pod = some (record {
    name = "web";
    status = 0;
    requests = none;
    limits = some (record { cpu = 250; memory = 128 });
  });
  spec = some (record {
    namespace = "default";
    containers = record { name = "web"; image = "nginx"; ports = []; env = [] } ∷ [];
  });
}

builds : pod_to_create no_file web_flags ≡ ok web_pod
unfolding pod_to_create build_pod resources require_limits
builds = refl

pod_to_create_lem_example :
    (x : Pod) × (r : Resources) × (web_pod.pod ≡ some x)
    × (x.limits ≡ some r)
    × ((F : Float32) (s : BasicScheduler) (ports : List Port)
        → place F s x ports ≡ place_within F s r ports)
pod_to_create_lem_example = pod_to_create_lem no_file web_flags builds
