-- ===== src/Cni/Workload/Removal.antt =====
-- Taking a workload off its network, and the round trip with connecting it.
use barenetes.Base.{
  ℕ, String, ◌≡◌, ◌≢◌, sym, ap, ◌∙◌, Bool, true, none, some, ok, err, arith, Result-cases, inl, inr,
  ◌⊎◌, ok≢err, length, ◌≤◌, ◌<◌,
}
use barenetes.Base.SortedSet.{remove, length-insert, remove-insert}
use barenetes.Base.Map as M
use barenetes.Cni.{Host, World, IoError, FilePath, path_eq, WorkloadRecord, on_machine}
use barenetes.Cni.Addressing.{parse_ipv4}
use barenetes.Cni.Addressing.RoundTrip.{parse_ipv4-print_ipv4}
use barenetes.Cni.Files.Working.{FilesWork, with_directory}
use barenetes.Cni.Pool.{IpPoolDirectory, IpPool, PoolState, pool, pool_file, read_bytes}
use barenetes.Cni.Pool.Working.{stored, written}
use barenetes.Cni.Pool.Allocation.{release-run, pool_lem}
use barenetes.Cni.State.{StateStore, path, load, delete}
use barenetes.Cni.State.Names.{path≢pool_file}
use barenetes.Cni.State.Working.{delete_lem}
use barenetes.Cni.Workload.{
  release_record_ip, disconnect, delete_workload_network, add_workload_network,
}
use barenetes.Cni.Workload.Quiet.{recorded, load_lem}
use barenetes.Cni.Workload.Connection.{add_workload_network_lem}
use barenetes.Cni.Workload.Validation.{
  WorkloadRef, NetworkRef, WorkloadRequest, AddWorkloadNetworkRequest, WorkloadNetwork,
  validate_refs, validate_add_request,
}

-- What the stores hold once a record's file is gone and the pool's is written.
pool_after :
    {H : Host} (p : IpPool) (file : FilePath) (b : H.Bytes) (before : M.Map FilePath H.Bytes)
    (v : World H)
    → file ≢ pool_file p
    → v.files ≡ M.remove file (M.insert (pool_file p) b before)
    → stored p v ≡ read_bytes H b
pool_after p file b before v apart fs = ground (
  arith,
  fs,
  M.lookup-remove file (pool_file p) (M.insert (pool_file p) b before),
  M.lookup-insert_self (pool_file p) b before,
  path_eq.beq_iff file (pool_file p),
  apart,
)

record_after :
    {H : Host} (file : FilePath) (before : M.Map FilePath H.Bytes) (v : World H)
    → v.files ≡ M.remove file before
    → recorded file v ≡ ok none
record_after file before v fs = ground (arith, fs, M.lookup-remove_self file before)

module _ {H : Host} (F : FilesWork H) (pools : IpPoolDirectory) (store : StateStore) where
  release_record_ip-run :
      (r : WorkloadRecord) (w : World H) {p : IpPool} {s : PoolState} (a : ℕ)
      → parse_ipv4 r.ip_address ≡ some a
      → pool pools r.vlan_id ≡ ok p
      → stored p w ≡ ok s
      → p.first ≤ a
      → a ≤ p.last
      → length s < 1023
      → (b : H.Bytes) × (read_bytes H b ≡ ok (remove a s))
        × (release_record_ip pools r w ≡ (written p b (with_directory p.directory w), ok tt))
  unfolding release_record_ip
  release_record_ip-run r w {p} a parsed found h low high short =
      let (b, d, run) = release-run F p w a h low high short in
      (b, d, ground (arith, parsed, found, run))

  -- On a host whose files work, deleting a workload whose record names an address of its pool
  -- either fails, and then no file has changed, so that it can be tried again, or it answers
  -- true, and then the address is out of the pool and the record is gone. The pool's file holds
  -- a set of fewer than 1023 addresses before.
  pub delete_workload_network_lem :
      (request : WorkloadRequest) (workload : WorkloadRef) (network : NetworkRef) (w : World H)
      {p : IpPool} {s : PoolState} {r : WorkloadRecord} (a : ℕ)
      → validate_refs request.workload request.network ≡ ok (workload, network)
      → recorded (path H store workload.workload_name workload.instance_name network.network_name) w
        ≡ ok (some r)
      → parse_ipv4 r.ip_address ≡ some a
      → pool pools r.vlan_id ≡ ok p
      → stored p w ≡ ok s
      → p.first ≤ a
      → a ≤ p.last
      → length s < 1023
      → ((e : IoError) × ((delete_workload_network request pools store w).1 ≡ err e)
          × ((delete_workload_network request pools store w).0.files ≡ w.files))
        ⊎ (((delete_workload_network request pools store w).1 ≡ ok true)
            × (stored p (delete_workload_network request pools store w).0 ≡ ok (remove a s))
            × (recorded
                  (path H store workload.workload_name workload.instance_name network.network_name)
                  (delete_workload_network request pools store w).0
                ≡ ok none))
  unfolding delete_workload_network
  delete_workload_network_lem request workload network w {p} {s} {r} a valid here parsed found h low
        high short =
      elim (Result-cases (disconnect H r w.machine).1) [
        | inl (e, c) ↦
            inl (e, ground (arith, valid, loaded, here, c), ground (arith, valid, loaded, here, c))
        | inr (_, c) ↦
            let (b, d, run) = release_record_ip-run r w1 a parsed found h low high short in
            let (gone, answer, fs) =
              delete_lem F store workload.workload_name workload.instance_name network.network_name
                (written p b (with_directory p.directory w1)) in
            let after = written p b (with_directory p.directory w1) in
            let gone_world =
              (delete store workload.workload_name workload.instance_name network.network_name
                after).0 in
            removed b gone_world d fs (ground (arith, valid, loaded, here, c, run, answer))
      ]
    where
      file : FilePath
      file = path H store workload.workload_name workload.instance_name network.network_name

      loaded :
          load store workload.workload_name workload.instance_name network.network_name w
          ≡ (w, recorded file w)
      loaded = load_lem F store workload.workload_name workload.instance_name network.network_name w

      w1 : World H
      w1 = (on_machine (disconnect H r) w).0

      apart : file ≢ pool_file p
      apart =
          path≢pool_file H store workload.workload_name workload.instance_name network.network_name
            p

      removed :
          (b : H.Bytes) (v : World H)
          → read_bytes H b ≡ ok (remove a s)
          → v.files ≡ M.remove file (M.insert (pool_file p) b w.files)
          → delete_workload_network request pools store w ≡ (v, ok true)
          → ((e : IoError) × ((delete_workload_network request pools store w).1 ≡ err e)
              × ((delete_workload_network request pools store w).0.files ≡ w.files))
            ⊎ (((delete_workload_network request pools store w).1 ≡ ok true)
                × (stored p (delete_workload_network request pools store w).0 ≡ ok (remove a s))
                × (recorded file (delete_workload_network request pools store w).0 ≡ ok none))
      removed b v d fs run = inr (
        ap (λ x. x.1) run,
        ap (λ x. stored p x.0) run ∙ pool_after p file b w.files v apart fs ∙ d,
        ap (λ x. recorded file x.0) run ∙ record_after file (M.insert (pool_file p) b w.files) v fs,
      )

  -- On a host whose files work, when a valid workload without a record is added and then
  -- deleted, and both calls succeed, the pool of its VLAN holds the addresses that it held
  -- before, and there is no record again. The pool's file holds a set of fewer than 1022
  -- addresses before, and the node's number fits a byte.
  pub delete-add :
      (is_address : String → Bool) (request : AddWorkloadNetworkRequest) (leave : WorkloadRequest)
      (workload : WorkloadRef) (network : NetworkRef) (pid : ℕ) (interface : String) (w : World H)
      {p : IpPool} {s : PoolState} {answer : WorkloadNetwork} {done : Bool}
      → pools.node < 256
      → validate_add_request request ≡ ok (workload, network, pid, interface)
      → validate_refs leave.workload leave.network ≡ ok (workload, network)
      → recorded (path H store workload.workload_name workload.instance_name network.network_name) w
        ≡ ok none
      → pool pools network.vlan_id ≡ ok p
      → stored p w ≡ ok s
      → length s < 1022
      → (add_workload_network is_address request pools store w).1 ≡ ok answer
      → (delete_workload_network leave pools store
          (add_workload_network is_address request pools store w).0).1
        ≡ ok done
      → (stored p
            (delete_workload_network leave pools store
              (add_workload_network is_address request pools store w).0).0
          ≡ ok s)
        × (recorded
              (path H store workload.workload_name workload.instance_name network.network_name)
              (delete_workload_network leave pools store
                (add_workload_network is_address request pools store w).0).0
            ≡ ok none)
  delete-add is_address request leave workload network pid interface w {p} {s} node valid refs
        absent found h short added deleted =
      elim (add_workload_network_lem F pools store request workload network is_address pid interface
        w valid absent found h short) [
          | inl (e, failed, _) ↦ elim (ok≢err (sym added ∙ failed)) [ ]
          | inr j ↦
              let (v, low, high) = pool_lem pools network.vlan_id found in
              elim (delete_workload_network_lem leave workload network
                (add_workload_network is_address request pools store w).0 j.address refs
                j.recorded_now
                (ap parse_ipv4 j.printed
                  ∙ parse_ipv4-print_ipv4 j.address
                      (omega (arith, j.first_free.below, v, high, node)))
                (ap (pool pools) j.vlan_kept ∙ found) j.pool_now j.first_free.at_least
                (omega (arith, j.first_free.below))
                (omega (arith, length-insert j.address s, short))) [
                  | inl (e, failed, _) ↦ elim (ok≢err (sym deleted ∙ failed)) [ ]
                  | inr (_, now, gone) ↦
                      (now ∙ ap ok (remove-insert j.address s j.first_free.free), gone)
                ]
        ]
