-- ===== src/Agent/Tests.antt =====
-- The agent on a node whose calls all succeed.
use barenetes.Base.{
  ℕ, String, [], ◌∷◌, ◌≡◌, refl, Bool, true, Option, none, some, ok, string_eq, ◌≤◌, ◌<◌, ◌*◌,
  arith,
}
use barenetes.Base.Map.{lookup}
use barenetes.Shared.{Pod, PodSpec, PodWithSpec}
use barenetes.Identity.{Peer, check_role}
use barenetes.Cni.Workload.Validation.{WorkloadNetwork}
use barenetes.Agent.{Platform, Agent}
use barenetes.Agent.Vlan.{allocate_for, claim, save}
use barenetes.Agent.Vlan.Allocations.{IsVlanMap}
use barenetes.Agent.Cgroup as Cgroup
use barenetes.Agent.Cgroup.Bounds.{cpu_quota_lem}
use barenetes.Agent.Kubelet.{
  apply_pod, apply_checked, delete_pod, start, create_containers, add_network, namespace_of,
  resolve_pod_id, or_default,
}
use barenetes.Agent.Kubelet.Vlans.{
  Respects, apply_checked_lem, delete_pod_lem, start_up, call, apply, Reach-IsVlanMap,
}
use barenetes.Agent.Kubelet.Names.{namespace_of-resolve_pod_id}

abbrev network : WorkloadNetwork
network = record {
  state = 1;
  interface_name = "eth0";
  ip_address = "10.2.1.2";
  gateway = "10.2.1.1";
  network_name = "web";
}

abbrev node : Platform
node = record {
  System = Unit {0};
  run_container = λ id c s. (s, ok 77);
  remove_containers = λ id grace force s. (s, ok tt);
  pod_container_ids = λ id s. (s, ok ("default.web-web" ∷ []));
  connect = λ s. (s, ok tt);
  call_add = λ request s. (s, ok (some network));
  call_delete = λ request s. (s, ok true);
  exists = λ path s. true;
  create_dir_all = λ path s. (s, ok tt);
  write = λ path text s. (s, ok tt);
  remove_leaves = λ path s. s;
  remove_dir = λ path s. (s, ok true);
  encode = λ m. ok "";
}

abbrev idle : Agent node
idle = record { system = tt; allocations = [] }

abbrev web : Pod
web = record {
  name = "web";
  status = 0;
  requests = none;
  limits = some (record { cpu = 250; memory = 128 });
}

abbrev web_spec : PodSpec
web_spec = record {
  namespace = "";
  containers = record { name = "web"; image = "nginx"; ports = []; env = [] } ∷ [];
}

abbrev web_pod : Option PodWithSpec
web_pod = some (record { pod = some web; spec = some web_spec })

apply_checked_lem_example :
    Respects "default.web" idle (apply_checked web web_spec "default" "default.web" idle).0
    × ((ip : Option String)
        → (apply_checked web web_spec "default" "default.web" idle).1 ≡ ok ip
        → (vlan : ℕ) × (lookup "default.web"
              (apply_checked web web_spec "default" "default.web" idle).0.allocations
            ≡ some vlan))
apply_checked_lem_example = apply_checked_lem web web_spec "default" "default.web" idle

-- The first pod gets VLAN 2 and the address of its container.
applies : (apply_pod Peer.plaintext web_pod idle).1 ≡ ok ("default.web", some "10.2.1.2")
unfolding apply_pod check_role apply_checked allocate_for claim save start Cgroup.create_pod
    Cgroup.pod_dir Cgroup.limit_files create_containers add_network
applies = refl

abbrev running : Agent node
running = record { system = tt; allocations = ("default.web", 2) ∷ [] }

delete_pod_lem_example :
    Respects "default.web" running (delete_pod Peer.plaintext "default.web" none true running).0
    × ((done : Bool)
        → (delete_pod Peer.plaintext "default.web" none true running).1 ≡ ok done
        → lookup "default.web"
            (delete_pod Peer.plaintext "default.web" none true running).0.allocations
          ≡ none)
delete_pod_lem_example = delete_pod_lem Peer.plaintext "default.web" none true running

Reach-IsVlanMap_example : IsVlanMap (apply_pod Peer.plaintext web_pod idle).0.allocations
Reach-IsVlanMap_example = Reach-IsVlanMap (call (start_up tt) (apply Peer.plaintext web_pod))

namespace_of-resolve_pod_id_example :
    namespace_of (resolve_pod_id "shop" "web.1") ≡ or_default "shop"
namespace_of-resolve_pod_id_example = namespace_of-resolve_pod_id "shop" "web.1" refl

cpu_quota_lem_example :
    ((1000 ≤ Cgroup.cpu_quota 250) × (Cgroup.cpu_quota 250 < 9223372036854775808))
    × ((10 ≤ 250 → Cgroup.cpu_quota 250 ≡ 250 * 100)
        × (Cgroup.memory_bytes 250 < 9223372036854775808))
cpu_quota_lem_example = cpu_quota_lem 250 (omega arith)
