-- ===== src/Cni/Workload.antt =====
-- cni/src/network/workload.rs: connecting a workload to its network, and taking it off. The
-- messages are those of proto/cni/v1/cni.proto.
pub mod Validation
pub mod Quiet
pub mod Connection
pub mod Removal
pub mod Rollback
use barenetes.Base.{
  ℕ, String, Bool, true, false, Option, none, some, List, [], ◌∷◌, ◌++◌, if◌then◌else◌, ltb, eqb,
  ◌||◌, ◌&&◌, not, ◌%◌, ◌==◌, string_eq, Result, ok, err, format,
}
use barenetes.Base.Decimal.{show}
use barenetes.Base.Action.{Action, ◌>>=◌, ◌>>◌, pure, lift, attempt}
use barenetes.Shared.{Port, ports_eq}
use barenetes.Cni.{
  Host, World, Io, Command, IoError, ErrorKind, WorkloadRecord, on_machine, input_error, data_error,
  missing_error,
}
use barenetes.Cni.Addressing.{print_ipv4, parse_ipv4}
use barenetes.Cni.Pool.{IpPoolDirectory, pool, allocate, release}
use barenetes.Cni.State.{StateStore, stable_id, load, save, delete, port_is_used}
use barenetes.Cni.System.{succeeds, run, resolve, mtu}
use barenetes.Cni.Firewall.{bridge_name, validate_mappings, add_mappings, delete_mappings}
use barenetes.Cni.Vlan.{node_id, ensure}
use barenetes.Cni.Workload.Validation.{
  WorkloadRef, NetworkRef, AddWorkloadNetworkRequest, WorkloadRequest, WorkloadNetwork,
  NetworkState, network_state_code, take, drop_first, validate_add_request, validate_refs,
}

abbrev pub host_interface_name : (H : Host) → String → String → String → String
host_interface_name H workload instance_name network =
    format ("v" ∷ take 10 (stable_id H (workload ∷ instance_name ∷ network ∷ [])) ∷ [])

-- An open namespace: the descriptor.
unfoldable pub open_netns : (H : Host) → String → Command H ℕ
open_netns H path = do
  fd ← H.open_fd path
  opened ← H.fstat fd
  host ← H.stat "/proc/self/ns/net"
  let same = eqb opened.0 host.0 && eqb opened.1 host.1
  lift (if same then err (input_error "netns_path refers to the host network namespace") else ok tt)
  H.fcntl fd
  pure fd

unfoldable pub netns_matches : (H : Host) → ℕ → ℕ → Command H Bool
netns_matches H fd pid = do
  expected ← H.fstat fd
  actual ← H.stat (format ("/proc/" ∷ show pid ∷ "/ns/net" ∷ []))
  pure (eqb expected.0 actual.0 && eqb expected.1 actual.1)

unfoldable pub run_in_namespace : (H : Host) → ℕ → List String → Command H (Unit {0})
run_in_namespace H fd arguments = do
  ip ← resolve H "ip"
  run H "nsenter" (format ("--net=/proc/self/fd/" ∷ show fd ∷ []) ∷ "--" ∷ ip ∷ arguments)

abbrev pub record_to_network : WorkloadRecord → WorkloadNetwork
record_to_network r = record {
  state = network_state_code NetworkState.ready;
  interface_name = r.interface_name;
  ip_address = r.ip_address;
  gateway = r.gateway;
  network_name = r.network_name;
}

-- An address outside the pool is left alone.
unfoldable pub release_record_ip : {H : Host} → IpPoolDirectory → WorkloadRecord → Io H (Unit {0})
release_record_ip pools r = elim (parse_ipv4 r.ip_address) [
  | none ↦ lift (err (data_error "stored IP address is invalid"))
  | some address ↦ do
    released ← attempt (do p ← lift (pool pools r.vlan_id); release p address)
    elim released [
      | ok _ ↦ pure tt
      | err e ↦ elim e.kind [ ErrorKind.invalid_input ↦ pure tt | _ ↦ lift (err e) ]
    ]
]

-- The record and the request name the same interface, VLAN and mappings.
abbrev same_settings : WorkloadRecord → AddWorkloadNetworkRequest → NetworkRef → String → Bool
same_settings r request network interface =
    (r.interface_name == interface)
    && (eqb r.vlan_id network.vlan_id && (r.port_mappings == request.port_mappings))

-- Whether the device is there.
abbrev pub link_shown : (H : Host) → String → Command H Bool
link_shown H name = succeeds H "ip" ("link" ∷ "show" ∷ "dev" ∷ name ∷ [])

abbrev pub delete_link : (H : Host) → String → Command H (Unit {0})
delete_link H name = run H "ip" ("link" ∷ "delete" ∷ name ∷ [])

-- A record from before: the network if its interface is still there; else the record goes.
unfoldable pub resume :
    {H : Host}
    → IpPoolDirectory
    → StateStore
    → WorkloadRef
    → NetworkRef
    → WorkloadRecord
    → Io H (Option WorkloadNetwork)
resume {H} pools store workload network r = do
  shown ← on_machine (link_shown H r.host_interface)
  let renew = (do
    on_machine (add_mappings H r.ip_address r.port_mappings)
    pure (some (record_to_network r)))
  let discard = (do
    on_machine (delete_mappings H r.ip_address r.port_mappings)
    release_record_ip pools r
    delete store workload.workload_name workload.instance_name network.network_name
    pure none)
  if shown then renew else discard

unfoldable pub check_ports : {H : Host} → StateStore → List Port → Io H (Unit {0})
check_ports store [] = pure tt
check_ports store (m ∷ mappings) = do
  used ← port_is_used store m.protocol m.external
  lift (if used then err (input_error "host port is already used") else ok tt)
  check_ports store mappings

-- The closure `setup`: the pair of interfaces, one end in the namespace with its address and
-- route, the other on the bridge with its VLAN.
unfoldable pub setup :
    (H : Host)
    → ℕ
    → ℕ
    → String
    → String
    → String
    → String
    → String
    → String
    → String
    → Command H (Unit {0})
setup H netns pid interface host_interface peer_interface address gateway vlan interface_mtu = do
  run H "ip" (
      "link" ∷ "add" ∷ host_interface ∷ "mtu" ∷ interface_mtu ∷ "type" ∷ "veth" ∷ "peer" ∷ "name"
      ∷ peer_interface ∷ "mtu" ∷ interface_mtu ∷ [])
  same ← netns_matches H netns pid
  let moved = err (input_error "netns_path no longer refers to the requested namespace")
  lift (if same then ok tt else moved)
  run H "ip" ("link" ∷ "set" ∷ peer_interface ∷ "netns" ∷ show pid ∷ [])
  run_in_namespace H netns ("link" ∷ "set" ∷ "dev" ∷ peer_interface ∷ "name" ∷ interface ∷ [])
  run_in_namespace H netns ("address" ∷ "replace" ∷ address ∷ "dev" ∷ interface ∷ [])
  run_in_namespace H netns ("link" ∷ "set" ∷ "dev" ∷ interface ∷ "up" ∷ [])
  run_in_namespace H netns ("link" ∷ "set" ∷ "dev" ∷ "lo" ∷ "up" ∷ [])
  run_in_namespace H netns
      ("route" ∷ "replace" ∷ "default" ∷ "via" ∷ gateway ∷ "dev" ∷ interface ∷ [])
  run H "ip" ("link" ∷ "set" ∷ "dev" ∷ host_interface ∷ "master" ∷ bridge_name ∷ [])
  run H "bridge" ("vlan" ∷ "del" ∷ "dev" ∷ host_interface ∷ "vid" ∷ "1" ∷ [])
  run H "bridge" ("vlan" ∷ "add" ∷ "dev" ∷ host_interface ∷ "vid" ∷ vlan ∷ "pvid" ∷ "untagged" ∷ [])
  run H "ip" ("link" ∷ "set" ∷ "dev" ∷ host_interface ∷ "up" ∷ [])

abbrev pub prepare : (H : Host) → WorkloadRecord → ℕ → ℕ → String → Command H (Unit {0})
prepare H r netns pid interface_mtu =
    setup H netns pid r.interface_name r.host_interface
      (format ("p" ∷ drop_first r.host_interface ∷ [])) (format (r.ip_address ∷ "/16" ∷ []))
      r.gateway (show r.vlan_id) interface_mtu

-- What is done again when a step after the allocation fails.
abbrev undo_link : {H : Host} → IpPoolDirectory → ℕ → String → ℕ → Io H (Unit {0})
undo_link {H} pools vlan host_interface address = do
  attempt (on_machine (delete_link H host_interface))
  attempt (do p ← lift (pool pools vlan); release p address)
  pure tt

-- From the set-up on, with the address allocated: a failure undoes what was done.
unfoldable pub connect :
    {H : Host}
    → IpPoolDirectory
    → StateStore
    → WorkloadRecord
    → ℕ
    → ℕ
    → ℕ
    → String
    → Io H WorkloadNetwork
connect {H} pools store r address netns pid interface_mtu = do
  let undo = undo_link pools r.vlan_id r.host_interface address
  prepared ← attempt (on_machine (prepare H r netns pid interface_mtu))
  elim prepared [
    | err e ↦ undo >> lift (err e)
    | ok _ ↦ do
      mapped ← attempt (on_machine (add_mappings H r.ip_address r.port_mappings))
      elim mapped [
        | err e ↦ undo >> lift (err e)
        | ok _ ↦ do
          saved ← attempt (save store r)
          elim saved [
            | err e ↦ do
              attempt (on_machine (delete_mappings H r.ip_address r.port_mappings))
              undo
              lift (err e)
            | ok _ ↦ pure (record_to_network r)
          ]
      ]
  ]

abbrev pub new_record :
    Host → AddWorkloadNetworkRequest → WorkloadRef → NetworkRef → String → ℕ → ℕ → WorkloadRecord
new_record H request workload network interface address gateway = record {
  workload_name = workload.workload_name;
  instance_name = workload.instance_name;
  network_name = network.network_name;
  host_interface =
      host_interface_name H workload.workload_name workload.instance_name network.network_name;
  interface_name = interface;
  ip_address = print_ipv4 address;
  gateway = print_ipv4 gateway;
  vlan_id = network.vlan_id;
  port_mappings = request.port_mappings;
}

-- With the gateway in place: an address of the VLAN's pool, and the rest.
unfoldable pub attach :
    {H : Host}
    → IpPoolDirectory
    → StateStore
    → AddWorkloadNetworkRequest
    → WorkloadRef
    → NetworkRef
    → ℕ
    → String
    → ℕ
    → ℕ
    → Io H WorkloadNetwork
attach {H} pools store request workload network pid interface netns gateway = do
  p ← lift (pool pools network.vlan_id)
  address ← allocate p
  interface_mtu ← lift (mtu H)
  let r = new_record H request workload network interface address gateway
  connect pools store r address netns pid (show interface_mtu)

-- A new connection, from the check of the ports on.
unfoldable pub create :
    {H : Host}
    → (String → Bool)
    → IpPoolDirectory
    → StateStore
    → AddWorkloadNetworkRequest
    → WorkloadRef
    → NetworkRef
    → ℕ
    → String
    → ℕ
    → Io H WorkloadNetwork
create {H} is_address pools store request workload network pid interface netns = do
  check_ports store request.port_mappings
  node ← lift (node_id H is_address)
  gateway ← on_machine (ensure H (network.vlan_id % 256) node)
  attach pools store request workload network pid interface netns gateway

unfoldable pub add_workload_network :
    {H : Host}
    → (String → Bool)
    → AddWorkloadNetworkRequest
    → IpPoolDirectory
    → StateStore
    → Io H WorkloadNetwork
add_workload_network {H} is_address request pools store = do
  (workload, network, pid, interface) ← lift (validate_add_request request)
  netns ← on_machine (open_netns H request.netns_path)
  lift (validate_mappings request.port_mappings)
  found ← load store workload.workload_name workload.instance_name network.network_name
  let fresh = create is_address pools store request workload network pid interface netns
  elim found [
    | none ↦ fresh
    | some r ↦ do
      let differs = err (input_error "workload network already exists with different settings")
      lift (if same_settings r request network interface then ok tt else differs)
      resumed ← resume pools store workload network r
      elim resumed [ none ↦ fresh | some answer ↦ pure answer ]
  ]

abbrev pub get_workload_network : {H : Host} → WorkloadRequest → StateStore → Io H WorkloadNetwork
get_workload_network {H} request store = do
  (workload, network) ← lift (validate_refs request.workload request.network)
  found ← load store workload.workload_name workload.instance_name network.network_name
  r ←
      lift (elim found [
        | none ↦ err (missing_error "workload network does not exist")
        | some r ↦ ok r
      ])
  shown ← on_machine (link_shown H r.host_interface)
  let broken = network_state_code NetworkState.error
  pure (if shown then record_to_network r else record (record_to_network r) { state = broken })

-- The interface goes, if it is there, and the port mappings.
unfoldable pub disconnect : (H : Host) → WorkloadRecord → Command H (Unit {0})
disconnect H r = do
  shown ← link_shown H r.host_interface
  if shown then delete_link H r.host_interface else pure tt
  delete_mappings H r.ip_address r.port_mappings

unfoldable pub delete_workload_network :
    {H : Host} → WorkloadRequest → IpPoolDirectory → StateStore → Io H Bool
delete_workload_network {H} request pools store = do
  (workload, network) ← lift (validate_refs request.workload request.network)
  found ← load store workload.workload_name workload.instance_name network.network_name
  elim found [
    | none ↦ pure true
    | some r ↦ do
      on_machine (disconnect H r)
      release_record_ip pools r
      delete store workload.workload_name workload.instance_name network.network_name
      pure true
  ]
