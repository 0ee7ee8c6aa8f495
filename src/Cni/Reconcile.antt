-- ===== src/Cni/Reconcile.antt =====
-- cni/src/network/reconcile.rs, and `known_vlans` of ip_pool.rs: what the daemon does with what it
-- finds when it starts. The messages that it prints are left out.
pub mod Pools
use barenetes.Base.{
  ℕ, zero, suc, String, Bool, true, false, Option, none, some, List, [], ◌∷◌, ◌++◌, if◌then◌else◌,
  eqb, ltb, leb, ◌||◌, ◌&&◌, not, any, ◌==◌, string_eq, nat_eq, Result, ok, err,
}
use Prim.Native.Char.{Char, code}
use Prim.Native.String.{len}
use barenetes.Base.Decimal.{split, parse_number, max_u8}
use barenetes.Base.SortedSet as S
use barenetes.Base.Map.{Map, lookup, insert}
use barenetes.Base.Action.{◌>>=◌, ◌>>◌, pure, lift, attempt}
use barenetes.Cni.{
  Host, World, Io, Command, IoError, ErrorKind, FilePath, path_eq, WorkloadRecord, on_machine,
  missing_error,
}
use barenetes.Cni.Addressing.{parse_ipv4}
use barenetes.Cni.Files.{call, has_directory}
use barenetes.Cni.Pool.{IpPoolDirectory, PoolState, pool, reset}
use barenetes.Cni.State.{StateStore, records, delete}
use barenetes.Cni.System.{output, run, succeeds}
use barenetes.Cni.Firewall.{bridge_name, add_mappings, delete_mappings}
use barenetes.Cni.Vlan.{node_id, ensure}
use barenetes.Cni.Workload.{link_shown, delete_link}
use barenetes.Cni.Workload.Validation.{is_host_interface_name}

-- `strip_prefix("vlan-")` and `parse::<u8>`.
abbrev strip : List ℕ → String → Option String
strip [] s = some s
strip (c ∷ cs) String.[] = none
strip (c ∷ cs) (String.◌∷◌ d s) = let rest = strip cs s in if eqb (code d) c then rest else none

abbrev vlan_of_name : String → Option ℕ
vlan_of_name name = elim (strip (118 ∷ 108 ∷ 97 ∷ 110 ∷ 45 ∷ []) name) [
  | none ↦ none
  | some suffix ↦ parse_number max_u8 suffix
]

abbrev vlans_in : FilePath → List FilePath → List ℕ
vlans_in root [] = []
vlans_in root ([] ∷ directories) = vlans_in root directories
vlans_in root ((name ∷ parent) ∷ directories) =
    let rest = vlans_in root directories in
    if parent == root
    then elim (vlan_of_name name) [ none ↦ rest | some vlan ↦ vlan ∷ rest ]
    else rest

unfoldable pub known_vlans : {H : Host} → IpPoolDirectory → Io H (List ℕ)
known_vlans pools = do
  listed ← attempt (call "read_dir" pools.root)
  elim listed [
    | err e ↦ elim e.kind [ ErrorKind.not_found ↦ pure [] | _ ↦ lift (err e) ]
    | ok _ ↦ λ w. (
      w,
      ok (if has_directory pools.root w.directories then vlans_in pools.root w.directories else []),
    )
  ]

-- A record whose interface is gone goes; a check that fails keeps its record.
unfoldable drop_stale : {H : Host} → StateStore → List WorkloadRecord → Io H (List WorkloadRecord)
drop_stale store [] = pure []
drop_stale {H} store (r ∷ found) = do
  shown ← attempt (on_machine (link_shown H r.host_interface))
  let rest = drop_stale store found
  let keep = (do others ← rest; pure (r ∷ others))
  let forget = (do
    attempt (on_machine (delete_mappings H r.ip_address r.port_mappings))
    attempt (delete store r.workload_name r.instance_name r.network_name)
    rest)
  elim shown [ ok there ↦ if there then keep else forget | err _ ↦ keep ]

unfoldable drop_stale_records : {H : Host} → StateStore → Io H (List WorkloadRecord)
drop_stale_records store = do found ← records store; drop_stale store found

-- `allocated_by_vlan`, and the set of a VLAN in it.
abbrev pub allocated_in : ℕ → Map ℕ PoolState → PoolState
allocated_in vlan m = elim (lookup vlan m) [ none ↦ [] | some s ↦ s ]

abbrev pub group_from : Map ℕ PoolState → List WorkloadRecord → Map ℕ PoolState
group_from m [] = m
group_from m (r ∷ live) = elim (parse_ipv4 r.ip_address) [
  | none ↦ group_from m live
  | some a ↦ group_from (insert r.vlan_id (S.insert a (allocated_in r.vlan_id m)) m) live
]

abbrev pub add_all : List ℕ → List ℕ → List ℕ
add_all [] set = set
add_all (x ∷ xs) set = add_all xs (S.insert x set)

abbrev pub keys : Map ℕ PoolState → List ℕ
keys [] = []
keys ((k, s) ∷ m) = S.insert k (keys m)

unfoldable pub reset_each :
    {H : Host} → IpPoolDirectory → Map ℕ PoolState → List ℕ → Io H (Unit {0})
reset_each pools m [] = pure tt
reset_each pools m (vlan ∷ vlans) = do
  attempt (do p ← lift (pool pools vlan); reset p (allocated_in vlan m))
  reset_each pools m vlans

abbrev pub vlans_to_reset : Result IoError (List ℕ) → Map ℕ PoolState → List ℕ
vlans_to_reset (ok more) m = add_all more (keys m)
vlans_to_reset (err _) m = keys m

unfoldable pub rebuild_ip_pools :
    {H : Host} → IpPoolDirectory → List WorkloadRecord → Io H (Unit {0})
rebuild_ip_pools pools live = do
  let allocated = group_from [] live
  known ← attempt (known_vlans pools)
  reset_each pools allocated (vlans_to_reset known allocated)

-- `lines`, `trim` and what `bridge_ports` takes of a line.
abbrev is_space : Char → Bool
is_space c =
    (leb 9 (code c) && leb (code c) 13)
    || (eqb (code c) 32
        || (eqb (code c) 133
            || (eqb (code c) 160
                || (eqb (code c) 5760
                    || ((leb 8192 (code c) && leb (code c) 8202)
                        || (eqb (code c) 8232
                            || (eqb (code c) 8233
                                || (eqb (code c) 8239
                                    || (eqb (code c) 8287 || eqb (code c) 12288)))))))))

abbrev trim_start : String → String
trim_start String.[] = ""
trim_start (String.◌∷◌ c s) = let rest = trim_start s in if is_space c then rest else String.◌∷◌ c s

abbrev trim_end : String → String
trim_end String.[] = ""
trim_end (String.◌∷◌ c s) =
    let rest = trim_end s in if (rest == "") && is_space c then "" else String.◌∷◌ c rest

abbrev second : List String → Option String
second (_ ∷ s ∷ _) = some s
second _ = none

abbrev first : List String → String
first [] = ""
first (s ∷ _) = s

abbrev port_names : List String → List String
port_names [] = []
port_names (line ∷ lines) =
    let rest = port_names lines in
    elim (second (split 58 line)) [
      | none ↦ rest
      | some name ↦
          if first (split 64 (trim_end (trim_start name))) == ""
          then rest
          else first (split 64 (trim_end (trim_start name))) ∷ rest
    ]

unfoldable bridge_ports : (H : Host) → String → Command H (List String)
bridge_ports H bridge = do
  listing ← output H "ip" ("-o" ∷ "link" ∷ "show" ∷ "master" ∷ bridge ∷ [])
  pure (port_names (split 10 listing))

abbrev remove_each : (H : Host) → List WorkloadRecord → List String → Command H (Unit {0})
remove_each H live [] = pure tt
remove_each H live (port ∷ ports) = do
  let known = any (λ r. r.host_interface == port) live
  let orphan = is_host_interface_name port && not known
  attempt (if orphan then delete_link H port else pure tt)
  remove_each H live ports

unfoldable remove_orphan_interfaces : (H : Host) → List WorkloadRecord → Command H (Unit {0})
remove_orphan_interfaces H live = do ports ← bridge_ports H bridge_name; remove_each H live ports

abbrev live_vlans : List WorkloadRecord → List ℕ
live_vlans [] = []
live_vlans (r ∷ live) = S.insert r.vlan_id (live_vlans live)

abbrev ensure_each : (H : Host) → ℕ → List ℕ → Command H (Unit {0})
ensure_each H node [] = pure tt
ensure_each H node (vlan ∷ vlans) = do
  attempt (if ltb max_u8 vlan then pure 0 else ensure H vlan node)
  ensure_each H node vlans

unfoldable reinstall_vlan_networking :
    (H : Host) → (String → Bool) → List WorkloadRecord → Command H (Unit {0})
reinstall_vlan_networking H is_address live = do
  node ← lift (node_id H is_address)
  ensure_each H node (live_vlans live)

unfoldable reinstall_port_mappings : (H : Host) → List WorkloadRecord → Command H (Unit {0})
reinstall_port_mappings H [] = pure tt
reinstall_port_mappings H (r ∷ live) = do
  attempt (add_mappings H r.ip_address r.port_mappings)
  reinstall_port_mappings H live

unfoldable reconcile : {H : Host} → (String → Bool) → IpPoolDirectory → StateStore → Io H (Unit {0})
reconcile {H} is_address pools store = do
  live ← drop_stale_records store
  rebuild_ip_pools pools live
  on_machine (remove_orphan_interfaces H live)
  on_machine (reinstall_vlan_networking H is_address live)
  on_machine (reinstall_port_mappings H live)
