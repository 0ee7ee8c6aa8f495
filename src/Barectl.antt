-- ===== src/Barectl.antt =====
-- barectl/src: how the command line builds a pod, from a manifest or from flags. Reading a file and
-- the YAML parser are a parameter. Numbers of type `i32` are bit patterns.
pub mod Limits
mod Tests
use barenetes.Base.{
  ℕ, String, Bool, true, false, Option, none, some, List, [], ◌∷◌, if◌then◌else◌, eqb, ltb, leb,
  ◌||◌, ◌&&◌, ◌==◌, string_eq, Result, ok, err, ◌>>=◌, ◌>>◌, ok_or, fail_if, format, ◌+◌,
}
use Prim.Native.Char.{Char, code}
use barenetes.Base.Decimal.{parse_number, max_u32}
use barenetes.Shared.{
  Resources, Port, Pod, PodSpec, PodWithSpec, Container, EnvVar, PodStatus, pod_status_code,
}

-- The errors that these functions make themselves.
pub data CliError : Type 0 where
  read_manifest parse_manifest invalid_usage : String → CliError

pub record PortManifest : Type 0 where
  pub container_port : ℕ
  pub host_port : ℕ
  pub protocol : String

pub record ContainerManifest : Type 0 where
  pub name : String
  pub image : String
  pub ports : List PortManifest
  pub env : List EnvVar

pub record ResourcesManifest : Type 0 where
  pub requests : Option Resources
  pub limits : Option Resources

pub record PodManifest : Type 0 where
  pub api_version : String
  pub kind : String
  pub name : String
  pub namespace : String
  pub containers : List ContainerManifest
  pub resources : Option ResourcesManifest

-- `to_ascii_uppercase` compared with a name in upper case.
abbrev same_letter : ℕ → ℕ → Bool
same_letter c u = eqb c u || (leb 97 c && (leb c 122 && eqb c (u + 32)))

abbrev is_upper : List ℕ → String → Bool
is_upper [] String.[] = true
is_upper (u ∷ us) (String.◌∷◌ c s) = same_letter (code c) u && is_upper us s
is_upper _ _ = false

-- `Protocol::Tcp` and `Protocol::Udp`, on the wire.
abbrev pub protocol_number : String → Option ℕ
protocol_number s =
    if is_upper (84 ∷ 67 ∷ 80 ∷ []) s
    then some 0
    else if is_upper (85 ∷ 68 ∷ 80 ∷ []) s
    then some 1
    else none

abbrev unsupported : String → String → CliError
unsupported protocol container = invalid_usage (
    format (
      "unsupported protocol \"" ∷ protocol ∷ "\" on container \"" ∷ container
      ∷ "\", expected \"TCP\" or \"UDP\"" ∷ []))

unfoldable port_from_manifest : PortManifest → String → Result CliError Port
port_from_manifest m container = elim (protocol_number m.protocol) [
  | none ↦ err (unsupported m.protocol container)
  | some protocol ↦
      ok (record { internal = m.container_port; external = m.host_port; protocol = protocol })
]

abbrev ports_from : List PortManifest → String → Result CliError (List Port)
ports_from [] container = ok []
ports_from (m ∷ ms) container =
    port_from_manifest m container >>= λ p. ports_from ms container >>= λ ps. ok (p ∷ ps)

unfoldable container_from_manifest : ContainerManifest → Result CliError Container
container_from_manifest m = ports_from m.ports m.name >>= λ ports.
    ok (record { name = m.name; image = m.image; ports = ports; env = m.env })

abbrev containers_from : List ContainerManifest → Result CliError (List Container)
containers_from [] = ok []
containers_from (m ∷ ms) =
    container_from_manifest m >>= λ c. containers_from ms >>= λ cs. ok (c ∷ cs)

abbrev no_containers : List ContainerManifest → Bool
no_containers [] = true
no_containers (_ ∷ _) = false

abbrev requests_of : Option ResourcesManifest → Option Resources
requests_of none = none
requests_of (some r) = r.requests

abbrev limits_of : Option ResourcesManifest → Option Resources
limits_of none = none
limits_of (some r) = r.limits

abbrev wrong_kind : String → CliError
wrong_kind kind =
    invalid_usage (format ("unsupported manifest kind \"" ∷ kind ∷ "\", expected \"Pod\"" ∷ []))

unfoldable pod_from_manifest : PodManifest → Result CliError PodWithSpec
pod_from_manifest m =
    fail_if (if m.kind == "Pod" then false else true) (wrong_kind m.kind)
    >> fail_if (no_containers m.containers)
        (invalid_usage "manifest spec must include at least one container")
    >> containers_from m.containers
    >>= λ containers. ok (record {
      pod = some (record {
        name = m.name;
        status = pod_status_code PodStatus.pending;
        requests = requests_of m.resources;
        limits = limits_of m.resources;
      });
      spec = some (record { namespace = m.namespace; containers = containers });
    })

-- The flags of `barectl create pod`.
pub record CreatePodArgs : Type 0 where
  pub file : Option String
  pub name : Option String
  pub namespace : Option String
  pub image : Option String
  pub ports : List Port
  pub env : List EnvVar
  pub cpu_request : Option ℕ
  pub memory_request : Option ℕ
  pub cpu_limit : Option ℕ
  pub memory_limit : Option ℕ

abbrev is_some : {A : Type 0} → Option A → Bool
is_some none = false
is_some (some _) = true

abbrev not_empty : {A : Type 0} → List A → Bool
not_empty [] = false
not_empty (_ ∷ _) = true

abbrev flags_used : CreatePodArgs → Bool
flags_used args =
    is_some args.name
    || (is_some args.namespace
        || (is_some args.image
            || (not_empty args.ports
                || (not_empty args.env
                    || (is_some args.cpu_request
                        || (is_some args.memory_request
                            || (is_some args.cpu_limit || is_some args.memory_limit)))))))

unfoldable resources : Option ℕ → Option ℕ → Result CliError (Option Resources)
resources none none = ok none
resources (some c) (some m) = ok (some (record { cpu = c; memory = m }))
resources _ _ = err (invalid_usage "cpu and memory must both be specified, or both omitted")

abbrev or_default_namespace : Option String → String
or_default_namespace none = "default"
or_default_namespace (some s) = s

abbrev pod_from_flags : CreatePodArgs → Result CliError PodWithSpec
pod_from_flags args =
    ok_or args.name (invalid_usage "--name is required unless --file is used") >>= λ name.
    ok_or args.image (invalid_usage "--image is required unless --file is used") >>= λ image.
    resources args.cpu_request args.memory_request >>= λ requests.
    resources args.cpu_limit args.memory_limit >>= λ limits. ok (record {
      pod = some (record {
        name = name;
        status = pod_status_code PodStatus.pending;
        requests = requests;
        limits = limits;
      });
      spec = some (record {
        namespace = or_default_namespace args.namespace;
        containers = record { name = name; image = image; ports = args.ports; env = args.env } ∷ [];
      });
    })

-- With the file's manifest, as `PodManifest::from_file` answers it.
unfoldable build_pod :
    (String → Result CliError PodManifest) → CreatePodArgs → Result CliError PodWithSpec
build_pod from_file args = elim args.file [
  | none ↦ pod_from_flags args
  | some path ↦
      fail_if (flags_used args) (
        invalid_usage
          "--file cannot be combined with --name/--namespace/--image/--port/--env/resource flags")
      >> (from_file path >>= pod_from_manifest)
]

abbrev has_limits : PodWithSpec → Bool
has_limits p = elim p.pod [ none ↦ false | some pod ↦ is_some pod.limits ]

abbrev name_or_empty : PodWithSpec → String
name_or_empty p = elim p.pod [ none ↦ "" | some pod ↦ pod.name ]

abbrev missing_limits : String → CliError
missing_limits name = invalid_usage (
    format (
      "pod \"" ∷ name
      ∷ "\" is missing resources.limits; the scheduler will never place it without one.\n  Flags:    add --cpu-limit <milli-cpu> --memory-limit <MB>, e.g. --cpu-limit 250 --memory-limit 128\n  Manifest: add a resources.limits block, e.g.\n              resources:\n                limits:\n                  cpu: 250\n                  memory: 128"
      ∷ []))

unfoldable require_limits : PodWithSpec → Result CliError (Unit {0})
require_limits p = if has_limits p then ok tt else err (missing_limits (name_or_empty p))

-- The pod that `create_pod` sends.
unfoldable pod_to_create :
    (String → Result CliError PodManifest) → CreatePodArgs → Result CliError PodWithSpec
pod_to_create from_file args = build_pod from_file args >>= λ pod. require_limits pod >> ok pod
