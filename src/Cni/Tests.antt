-- ===== src/Cni/Tests.antt =====
-- The daemon on one host, with the pool of VLAN 5 on node 1.
use barenetes.Base.{
  ℕ, suc, String, List, [], ◌∷◌, ◌≡◌, ◌⊎◌, refl, sym, ap, ok-eq, ◌==◌, string_eq, if◌then◌else◌,
  Bool, true, none, some, Result, ok, err, inl, ◌↔◌, arith,
}
use barenetes.Base.Range.{IsFirstFree, AllUsed}
use barenetes.Base.SortedSet as S
use barenetes.Shared.{Port}
use barenetes.Cni.{Host, World, IoError, FilePath, path_eq, WorkloadRecord, data_error, other_error}
use barenetes.Cni.Addressing.{ipv4}
use barenetes.Cni.Files.Working.{FilesWork}
use barenetes.Cni.Pool.{
  IpPoolDirectory, IpPool, allocate, release, with_state, read_state, write_state,
}
use barenetes.Cni.Pool.Working.{stored}
use barenetes.Cni.Pool.Allocation.{allocate_lem, release-allocate, pool-disjoint}
use barenetes.Cni.State.{StateStore, path, load, port_is_used, save, delete}
use barenetes.Cni.Firewall.{
  validate_mappings, ensure_rule, add_mapping, add_mappings, delete_mapping, delete_mapping_rule,
  delete_mappings, ensure_mapping_rule, install, ensure_tenant_nat,
}
use barenetes.Cni.Firewall.Mappings.{AreMappings, validate_mappings_lem}
use barenetes.Cni.Workload.{
  add_workload_network, delete_workload_network, open_netns, create, check_ports, attach, connect,
  netns_matches, run_in_namespace, setup, disconnect, release_record_ip, resume,
}
use barenetes.Cni.System.{run, succeeds, resolve, mtu}
use barenetes.Cni.Vlan.{node_id, remote_nodes, ensure}
use barenetes.Cni.Workload.Quiet.{recorded}
use barenetes.Cni.Workload.Connection.{Unmoved, Joined, add_workload_network_lem}
use barenetes.Cni.Workload.Removal.{delete_workload_network_lem, delete-add}
use barenetes.Cni.Workload.Validation.{
  validate_add_request, validate_refs, validate_name, WorkloadRef, NetworkRef,
  AddWorkloadNetworkRequest, WorkloadRequest, WorkloadNetwork,
}
use barenetes.Cni.Reconcile.{rebuild_ip_pools}
use barenetes.Cni.Reconcile.Pools.{live_in, rebuild_ip_pools_lem}

data Content : Type 0 where
  of_pool : List ℕ → Content
  of_record : WorkloadRecord → Content

abbrev as_pool : Content → Result IoError (List ℕ)
as_pool (of_pool s) = ok s
as_pool (of_record r) = err (data_error "not a pool")

abbrev as_record : Content → Result IoError WorkloadRecord
as_record (of_pool s) = err (data_error "not a record")
as_record (of_record r) = ok r

-- Every command succeeds; the namespaces of the host and of the workload differ.
abbrev test_host : Host
test_host = record {
  Machine = Unit {0};
  status = λ program arguments m. (m, ok true);
  stdout = λ program arguments m. (m, ok (true, some ""));
  is_file = λ file m. true;
  syscall = λ name file m. (m, ok tt);
  open_fd = λ file m. (m, ok 3);
  fstat = λ fd m. (m, ok (4, 40));
  stat = λ file m. (m, ok (4, if file == "/proc/self/ns/net" then 41 else 40));
  fcntl = λ fd m. (m, ok tt);
  env = λ name. if name == "BARENETES_NODE_ID" then some "1" else none;
  Bytes = Content;
  size = λ b. 100;
  encode_pool = λ s. ok (of_pool s);
  decode_pool = as_pool;
  encode_record = λ r. ok (of_record r);
  decode_record = as_record;
  Hash = Unit {0};
  new_hash = tt;
  update_length = λ n h. h;
  update_text = λ s h. h;
  finalize = λ h. 171 ∷ 205 ∷ 0 ∷ 1 ∷ 2 ∷ 3 ∷ 4 ∷ 5 ∷ 6 ∷ 7 ∷ 8 ∷ 9 ∷ 10 ∷ [];
}

files_work : FilesWork test_host
files_work = record {
  calls = λ name file m. refl;
  pool_codec = λ s short. (of_pool s, refl, refl, refl);
  record_codec = λ r b e. ap as_record (sym (ok-eq e));
}

abbrev pools : IpPoolDirectory
pools = record { root = "cni" ∷ "lib" ∷ []; node = 1 }

abbrev other_pools : IpPoolDirectory
other_pools = record { root = "cni" ∷ "lib" ∷ []; node = 1 }

abbrev pool_5 : IpPool
pool_5 = record {
  directory = "vlan-5" ∷ "cni" ∷ "lib" ∷ [];
  first = ipv4 10 5 1 2;
  last = ipv4 10 5 1 254;
}

abbrev workloads : StateStore
workloads = record { directory = "workloads" ∷ "cni" ∷ "lib" ∷ [] }

abbrev empty_world : World test_host
empty_world = record { machine = tt; directories = []; files = [] }

abbrev http : Port
http = record { internal = 80; external = 8080; protocol = 0 }

abbrev web : WorkloadRef
web = record { workload_name = "default.web"; instance_name = "default" }

abbrev tenant : NetworkRef
tenant = record { network_name = "front"; vlan_id = 5 }

abbrev attach_web : AddWorkloadNetworkRequest
attach_web = record {
  workload = some web;
  network = some tenant;
  netns_path = "/proc/77/ns/net";
  interface_name = "";
  port_mappings = http ∷ [];
}

abbrev detach_web : WorkloadRequest
detach_web = record { workload = some web; network = some tenant }

abbrev is_address : String → Bool
is_address s = true

allocate_lem_example :
    ((a : ℕ) × ((allocate pool_5 empty_world).1 ≡ ok a)
      × IsFirstFree pool_5.first (suc pool_5.last) a []
      × (stored pool_5 (allocate pool_5 empty_world).0 ≡ ok (S.insert a [])))
    ⊎ (AllUsed pool_5.first (suc pool_5.last) []
        × ((allocate pool_5 empty_world).1 ≡ err (other_error "IP pool is exhausted"))
        × (stored pool_5 (allocate pool_5 empty_world).0 ≡ ok []))
allocate_lem_example = allocate_lem files_work pool_5 empty_world refl (omega arith) (omega arith)

allocates : (allocate pool_5 empty_world).1 ≡ ok (ipv4 10 5 1 2)
unfolding allocate with_state read_state write_state
allocates = refl

release-allocate_example :
    ((release pool_5 (ipv4 10 5 1 2) (allocate pool_5 empty_world).0).1 ≡ ok true)
    × (stored pool_5 (release pool_5 (ipv4 10 5 1 2) (allocate pool_5 empty_world).0).0 ≡ ok [])
release-allocate_example =
    release-allocate files_work pool_5 empty_world (ipv4 10 5 1 2) refl (omega arith) (omega arith)
      allocates

pool-disjoint_example : (tenant.vlan_id ≡ tenant.vlan_id) × (pools.node ≡ other_pools.node)
pool-disjoint_example =
    pool-disjoint pools other_pools tenant.vlan_id tenant.vlan_id (ipv4 10 5 1 9) (omega arith)
      (omega arith) refl refl (omega arith) (omega arith) (omega arith) (omega arith)

validate_mappings_lem_example : (validate_mappings (http ∷ []) ≡ ok tt) ↔ AreMappings (http ∷ [])
validate_mappings_lem_example = validate_mappings_lem (http ∷ [])

valid : validate_add_request attach_web ≡ ok (web, tenant, 77, "eth0")
unfolding validate_add_request validate_name
valid = refl

valid_refs : validate_refs detach_web.workload detach_web.network ≡ ok (web, tenant)
unfolding validate_refs validate_name
valid_refs = refl

abbrev web_file : FilePath
web_file = path test_host workloads "default.web" "default" "front"

add_workload_network_lem_example :
    ((e : IoError) × ((add_workload_network is_address attach_web pools workloads empty_world).1
        ≡ err e)
      × Unmoved pool_5 [] []
          (add_workload_network is_address attach_web pools workloads empty_world).0)
    ⊎ Joined pool_5 [] 5 web_file
        (add_workload_network is_address attach_web pools workloads empty_world)
add_workload_network_lem_example =
    add_workload_network_lem files_work pools workloads attach_web web tenant is_address 77 "eth0"
      empty_world valid refl refl refl (omega arith)

abbrev web_network : WorkloadNetwork
web_network = record {
  state = 1;
  interface_name = "eth0";
  ip_address = "10.5.1.2";
  gateway = "10.5.1.1";
  network_name = "front";
}

attaches :
    (add_workload_network is_address attach_web pools workloads empty_world).1 ≡ ok web_network
unfolding add_workload_network validate_add_request validate_name validate_refs validate_mappings
    load port_is_used node_id remote_nodes ensure run succeeds resolve mtu ensure_rule add_mapping
    add_mappings delete_mapping delete_mapping_rule delete_mappings ensure_mapping_rule install
    ensure_tenant_nat allocate release with_state read_state write_state save delete open_netns
    create check_ports attach connect netns_matches run_in_namespace setup disconnect
    release_record_ip resume
attaches = refl

detaches :
    (delete_workload_network detach_web pools workloads
      (add_workload_network is_address attach_web pools workloads empty_world).0).1
    ≡ ok true
unfolding add_workload_network delete_workload_network validate_add_request validate_name
    validate_refs validate_mappings load port_is_used node_id remote_nodes ensure run succeeds
    resolve mtu ensure_rule add_mapping add_mappings delete_mapping delete_mapping_rule
    delete_mappings ensure_mapping_rule install ensure_tenant_nat allocate release with_state
    read_state write_state save delete open_netns create check_ports attach connect netns_matches
    run_in_namespace setup disconnect release_record_ip resume
detaches = refl

delete-add_example :
    (stored pool_5
        (delete_workload_network detach_web pools workloads
          (add_workload_network is_address attach_web pools workloads empty_world).0).0
      ≡ ok [])
    × (recorded web_file
          (delete_workload_network detach_web pools workloads
            (add_workload_network is_address attach_web pools workloads empty_world).0).0
        ≡ ok none)
delete-add_example =
    delete-add files_work pools workloads is_address attach_web detach_web web tenant 77 "eth0"
      empty_world (omega arith) valid valid_refs refl refl refl (omega arith) attaches detaches

abbrev web_record : WorkloadRecord
web_record = record {
  workload_name = "default.web";
  instance_name = "default";
  network_name = "front";
  host_interface = "vabcd000102";
  interface_name = "eth0";
  ip_address = "10.5.1.7";
  gateway = "10.5.1.1";
  vlan_id = 5;
  port_mappings = [];
}

rebuild_ip_pools_lem_example :
    stored pool_5 (rebuild_ip_pools pools (web_record ∷ []) empty_world).0
    ≡ ok (live_in 5 (web_record ∷ []) [])
rebuild_ip_pools_lem_example =
    rebuild_ip_pools_lem files_work pools (web_record ∷ []) web_record (ipv4 10 5 1 7) empty_world
      (inl refl) refl refl refl (omega arith)

-- A record whose interface is there, with its address in the pool.
abbrev connected_world : World test_host
connected_world = record {
  machine = tt;
  directories = [];
  files =
      (web_file, of_record web_record)
      ∷ ("ip-pool.json" ∷ pool_5.directory, of_pool (ipv4 10 5 1 7 ∷ []))
      ∷ [];
}

delete_workload_network_lem_example :
    ((e : IoError) × ((delete_workload_network detach_web pools workloads connected_world).1
        ≡ err e)
      × ((delete_workload_network detach_web pools workloads connected_world).0.files
          ≡ connected_world.files))
    ⊎ (((delete_workload_network detach_web pools workloads connected_world).1 ≡ ok true)
        × (stored pool_5 (delete_workload_network detach_web pools workloads connected_world).0
            ≡ ok (S.remove (ipv4 10 5 1 7) (ipv4 10 5 1 7 ∷ [])))
        × (recorded web_file (delete_workload_network detach_web pools workloads connected_world).0
            ≡ ok none))
delete_workload_network_lem_example =
    delete_workload_network_lem files_work pools workloads detach_web web tenant connected_world
      (ipv4 10 5 1 7) valid_refs refl refl refl refl (omega arith) (omega arith) (omega arith)
