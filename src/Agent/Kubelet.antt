-- ===== src/Agent/Kubelet.antt =====
-- agent/src/kubelet.rs and cni.rs: applying and deleting a pod on the node. What is printed is left
-- out. The periods are in seconds.
pub mod Vlans
pub mod Names
use barenetes.Base.{
  ℕ, String, Bool, true, false, Option, none, some, List, [], ◌∷◌, if◌then◌else◌, eqb, ◌||◌, ◌==◌,
  not, string_eq, Result, ok, err, format,
}
use Prim.Native.Char.{Char, code}
use barenetes.Base.Decimal.{show, lacks}
use barenetes.Base.Action.{Action, ◌>>=◌, ◌>>◌, pure, lift, attempt}
use barenetes.Shared.{Container, Pod, PodSpec, PodWithSpec, Port, Resources}
use barenetes.Api.Status.{Status, invalid_argument, internal, unavailable}
use barenetes.Identity.{Peer, Role, check_role}
use barenetes.Cni.Workload.Validation.{
  WorkloadRef, NetworkRef, AddWorkloadNetworkRequest, WorkloadRequest, WorkloadNetwork,
}
use barenetes.Agent.{Platform, Agent, Task, on_system}
use barenetes.Agent.Vlan.{allocate_for, release, vlan_of}
use barenetes.Agent.Cgroup as Cgroup

abbrev pub default_namespace : String
default_namespace = "default"

abbrev default_grace_period : ℕ
default_grace_period = 30

abbrev rollback_grace_period : ℕ
rollback_grace_period = 5

abbrev pub pod_id : String → String → String
pod_id namespace pod_name = format (namespace ∷ "." ∷ pod_name ∷ [])

abbrev pub or_default : String → String
or_default String.[] = default_namespace
or_default (String.◌∷◌ c s) = String.◌∷◌ c s

abbrev pub resolve_pod_id : String → String → String
resolve_pod_id namespace pod_name = pod_id (or_default namespace) pod_name

-- `split_once('.')`: what stands before the first dot.
abbrev pub before_dot : String → Option String
before_dot String.[] = none
before_dot (String.◌∷◌ c s) =
    let rest = before_dot s in
    if eqb (code c) 46
    then some String.[]
    else elim rest [ none ↦ none | some t ↦ some (String.◌∷◌ c t) ]

abbrev pub namespace_of : String → String
namespace_of pod_id = elim (before_dot pod_id) [ none ↦ default_namespace | some s ↦ s ]

-- Container names must be set and unique.
abbrev has_name : String → List String → Bool
has_name n [] = false
has_name n (m ∷ names) = (n == m) || has_name n names

abbrev check_names : List String → List Container → Result Status (Unit {0})
check_names names [] = ok tt
check_names names (c ∷ containers) =
    let rest = check_names (c.name ∷ names) containers in
    if c.name == ""
    then err (invalid_argument "missing container name")
    else if has_name c.name names
    then err (invalid_argument (format ("duplicate container name " ∷ c.name ∷ [])))
    else rest

abbrev namespace_for : String → Result Status String
namespace_for String.[] = ok default_namespace
namespace_for (String.◌∷◌ c s) =
    if lacks 46 (String.◌∷◌ c s)
    then ok (String.◌∷◌ c s)
    else err (invalid_argument "namespace must not contain '.'")

-- `unwrap_or_default`.
abbrev spec_of : PodWithSpec → PodSpec
spec_of p = elim p.spec [ none ↦ record { namespace = ""; containers = [] } | some spec ↦ spec ]

abbrev core_of : PodWithSpec → Pod
core_of p = elim p.pod [
  | none ↦ record { name = ""; status = 0; requests = none; limits = none }
  | some core ↦ core
]

-- `strip_prefix(&prefix)`.
abbrev strip : String → String → Option String
strip String.[] s = some s
strip (String.◌∷◌ c p) String.[] = none
strip (String.◌∷◌ c p) (String.◌∷◌ d s) =
    let rest = strip p s in if eqb (code c) (code d) then rest else none

-- The checks on a request, and what they find.
abbrev Checked : Type 0
Checked = Pod × PodSpec × String

abbrev pub check_request : Option PodWithSpec → Result Status Checked
check_request none = err (invalid_argument "missing pod")
check_request (some p) =
    if (core_of p).name == ""
    then err (invalid_argument "missing pod name")
    else elim (check_names [] (spec_of p).containers) [
      | err e ↦ err e
      | ok _ ↦ elim (namespace_for (spec_of p).namespace) [
        | err e ↦ err e
        | ok namespace ↦ ok (core_of p, spec_of p, namespace)
      ]
    ]

abbrev failing : {A : Type 0} → (String → Status) → Result String A → Result Status A
failing f (ok a) = ok a
failing f (err e) = err (f e)

abbrev pub names_of : List Container → List String
names_of [] = []
names_of (c ∷ containers) = c.name ∷ names_of containers

-- The containers' names: an id that is not of the pod is passed over.
abbrev pub container_names : String → List String → List String
container_names prefix [] = []
container_names prefix (id ∷ ids) =
    let rest = container_names prefix ids in
    elim (strip prefix id) [ none ↦ rest | some name ↦ name ∷ rest ]

-- A task whose error is text, within one whose error is a status.
abbrev pub with_status : {S A : Type 0} → (String → Status) → Action S String A → Action S Status A
with_status f m s = ((m s).0, failing f (m s).1)

module _ (P : Platform) where
  abbrev client : Action P.System Status (Unit {0})
  client = with_status (λ e. unavailable (format ("cannot reach CNI daemon: " ∷ e ∷ []))) P.connect

  unfoldable pub add_network :
      WorkloadRef → NetworkRef → ℕ → String → List Port → Action P.System Status WorkloadNetwork
  add_network workload network pid interface ports = do
    client
    answer ← P.call_add (record {
      workload = some workload;
      network = some network;
      netns_path = format ("/proc/" ∷ show pid ∷ "/ns/net" ∷ []);
      interface_name = interface;
      port_mappings = ports;
    })
    lift (elim answer [ none ↦ err (internal "CNI returned no network") | some n ↦ ok n ])

  unfoldable pub delete_network : WorkloadRef → NetworkRef → Action P.System Status (Unit {0})
  delete_network workload network = do
    client
    success ← P.call_delete (record { workload = some workload; network = some network })
    lift (if success then ok tt else err (internal "CNI failed to delete workload network"))

  -- Every network of the pod, whether it was attached or not.
  unfoldable pub detach : String → String → ℕ → List String → Action P.System Status (Unit {0})
  detach id namespace vlan [] = pure tt
  detach id namespace vlan (name ∷ names) = do
    attempt (
        delete_network (record { workload_name = id; instance_name = namespace })
          (record { network_name = name; vlan_id = vlan }))
    detach id namespace vlan names

  -- The address of the first container is the pod's.
  unfoldable pub create_containers :
      List Container → String → String → ℕ → Option String → Action P.System Status (Option String)
  create_containers [] id namespace vlan pod_ip = pure pod_ip
  create_containers (c ∷ containers) id namespace vlan pod_ip = do
    pid ← P.run_container id c
    attached ←
        add_network (record { workload_name = id; instance_name = namespace })
          (record { network_name = c.name; vlan_id = vlan }) pid "eth0" c.ports
    let first = elim pod_ip as (λ _. Option String) [
      | none ↦ some attached.ip_address
      | some ip ↦ some ip
    ]
    create_containers containers id namespace vlan first

  unfoldable pub start :
      Pod → PodSpec → String → String → ℕ → Action P.System Status (Option String)
  start core spec namespace id vlan = do
    attempt (with_status internal (Cgroup.remove_pod P id))
    with_status (λ e. internal (format ("cannot set up the cgroup of " ∷ id ∷ ": " ∷ e ∷ [])))
        (Cgroup.create_pod P id core.limits)
    create_containers spec.containers id namespace vlan none

module _ {P : Platform} where
  unfoldable pub rollback : String → String → List Container → ℕ → Task P Status (Unit {0})
  rollback id namespace containers vlan = do
    on_system (detach P id namespace vlan (names_of containers))
    attempt (on_system (P.remove_containers id rollback_grace_period true))
    attempt (with_status internal (on_system (Cgroup.remove_pod P id)))
    attempt (with_status internal (release id))
    pure tt

  -- After the checks, with the pod's id.
  unfoldable pub apply_checked : Pod → PodSpec → String → String → Task P Status (Option String)
  apply_checked core spec namespace id = do
    vlan ←
        with_status (λ e. internal (format ("cannot allocate a vlan: " ∷ e ∷ []))) (allocate_for id)
    on_system (P.remove_containers id default_grace_period true)
    outcome ← attempt (on_system (start P core spec namespace id vlan))
    elim outcome [
      | ok pod_ip ↦ pure pod_ip
      | err e ↦ rollback id namespace spec.containers vlan >> lift (err e)
    ]

  unfoldable pub apply_pod : Peer → Option PodWithSpec → Task P Status (String × Option String)
  apply_pod peer request = do
    lift (check_role peer Role.node)
    (core, spec, namespace) ← lift (check_request request)
    pod_ip ← apply_checked core spec namespace (pod_id namespace core.name)
    pure (pod_id namespace core.name, pod_ip)

  abbrev pub vlan_or_zero : String → Agent P → ℕ
  vlan_or_zero id s = elim (vlan_of id s) [ none ↦ 0 | some vlan ↦ vlan ]

  -- After the checks.
  unfoldable pub delete_checked : String → ℕ → Bool → Task P Status Bool
  delete_checked id grace_period force = do
    vlan ← (λ s. (s, ok (vlan_or_zero id s)))
    ids ← on_system (P.pod_container_ids id)
    let names = container_names (format (id ∷ "-" ∷ [])) ids
    on_system (detach P id (namespace_of id) vlan names)
    on_system (P.remove_containers id grace_period force)
    attempt (with_status internal (on_system (Cgroup.remove_pod P id)))
    attempt (with_status internal (release id))
    pure true

  unfoldable pub delete_pod : Peer → String → Option ℕ → Bool → Task P Status Bool
  delete_pod peer id grace force = do
    lift (check_role peer Role.node)
    lift (if id == "" then err (invalid_argument "missing pod id") else ok tt)
    delete_checked id (elim grace [ none ↦ default_grace_period | some n ↦ n ]) force
