-- ===== src/Cni/Workload/Connection.antt =====
-- Connecting a workload that has no record yet: all of it happens, or nothing that stays.
use barenetes.Base.{
  ℕ, suc, String, ◌≡◌, ◌≢◌, refl, sym, ap, ◌∙◌, subst, Bool, none, some, Result, ok, err, arith,
  Result-cases, inl, inr, ◌⊎◌, length, ◌<◌, ◌%◌,
}
use barenetes.Base.Decimal.{show}
use barenetes.Base.SortedSet.{insert}
use barenetes.Base.Map as M
use barenetes.Cni.{Host, World, IoError, FilePath, path_eq, WorkloadRecord, on_machine, other_error}
use barenetes.Cni.Addressing.{print_ipv4}
use barenetes.Cni.Files.Working.{FilesWork, with_directory}
use barenetes.Cni.Pool.{IpPoolDirectory, IpPool, PoolState, pool, pool_file, read_bytes}
use barenetes.Cni.Pool.Working.{stored, written, stored-written}
use barenetes.Base.Range.{IsFirstFree}
use barenetes.Cni.Pool.Allocation.{HasRange, allocate-run, pool_lem}
use barenetes.Cni.State.{StateStore, path, record_of}
use barenetes.Cni.State.Names.{path≢pool_file}
use barenetes.Cni.State.Working.{file_of}
use barenetes.Cni.System.{mtu}
use barenetes.Cni.Firewall.{validate_mappings}
use barenetes.Cni.Vlan.{node_id, ensure}
use barenetes.Cni.Workload.{
  open_netns, check_ports, new_record, attach, create, add_workload_network, record_to_network,
}
use barenetes.Cni.Workload.Quiet.{recorded, load_lem, check_ports-keeps}
use barenetes.Cni.Workload.Rollback.{connect-run}
use barenetes.Cni.Workload.Validation.{
  WorkloadRef, NetworkRef, AddWorkloadNetworkRequest, WorkloadNetwork, validate_add_request,
}

-- The addresses of the pool are these, and every other file is as it was.
pub record Unmoved {H : Host} (p : IpPool) (s : PoolState) (before : M.Map FilePath H.Bytes)
    (w' : World H) : Type 0 where
  pub pool_kept : stored p w' ≡ ok s
  pub others_kept :
      (file : FilePath) → file ≢ pool_file p → M.lookup file w'.files ≡ M.lookup file before

Unmoved-same :
    {H : Host} (p : IpPool) {s : PoolState} (w w' : World H)
    → stored p w ≡ ok s
    → w'.files ≡ w.files
    → Unmoved p s w.files w'
Unmoved-same p w w' h same = record {
  pool_kept = ground (arith, h, same);
  others_kept = λ file ne. ap (M.lookup file) same;
}

pub lookup-insert_other :
    {B : Type 0} (k j : FilePath) (b : B) (m : M.Map FilePath B)
    → j ≢ k
    → M.lookup j (M.insert k b m) ≡ M.lookup j m
lookup-insert_other k j b m ne = ground (arith, M.lookup-insert k j b m, path_eq.beq_iff k j)

Unmoved-insert :
    {H : Host} (p : IpPool) {s : PoolState} (w w' : World H) (a b : H.Bytes)
    → read_bytes H b ≡ ok s
    → w'.files ≡ M.insert (pool_file p) b (M.insert (pool_file p) a w.files)
    → Unmoved p s w.files w'
Unmoved-insert p w w' a b d same = record {
  pool_kept =
      ground
        (arith, d, same, M.lookup-insert_self (pool_file p) b (M.insert (pool_file p) a w.files));
  others_kept = λ file ne.
      ap (M.lookup file) same
      ∙ lookup-insert_other (pool_file p) file b (M.insert (pool_file p) a w.files) ne
      ∙ lookup-insert_other (pool_file p) file a w.files ne;
}

-- `ensure` reads the MTU, so it answers only where there is one.
ensure-mtu :
    (H : Host) (vlan node : ℕ) (machine : H.Machine) {gateway : ℕ}
    → (ensure H vlan node machine).1 ≡ ok gateway
    → (value : ℕ) × (mtu H ≡ ok value)
unfolding ensure
ensure-mtu H vlan node machine h = elim (Result-cases (mtu H)) [
  | inl (e, m) ↦ (0, ground (arith, h, m))
  | inr found ↦ found
]

-- The address that was found, with the record that says so.
pub record Connected {H : Host} (p : IpPool) (s : PoolState) (store : StateStore) (vlan : ℕ)
    (r : WorkloadRecord) (before : M.Map FilePath H.Bytes)
    (x : World H × Result IoError WorkloadNetwork) : Type 0 where
  pub address : ℕ
  pub first_free : IsFirstFree p.first (suc p.last) address s
  pub vlan_kept : r.vlan_id ≡ vlan
  pub printed : r.ip_address ≡ print_ipv4 address
  pub answer : x.1 ≡ ok (record_to_network r)
  pub pool_bytes : H.Bytes
  pub record_bytes : H.Bytes
  pub pool_read : read_bytes H pool_bytes ≡ ok (insert address s)
  pub record_read : record_of H record_bytes ≡ ok r
  pub files :
      x.0.files
      ≡ M.insert (file_of H store r) record_bytes (M.insert (pool_file p) pool_bytes before)

-- The same, by what the two stores hold.
pub record Joined {H : Host} (p : IpPool) (s : PoolState) (vlan : ℕ) (file : FilePath)
    (x : World H × Result IoError WorkloadNetwork) : Type 0 where
  pub address : ℕ
  pub entry : WorkloadRecord
  pub first_free : IsFirstFree p.first (suc p.last) address s
  pub vlan_kept : entry.vlan_id ≡ vlan
  pub printed : entry.ip_address ≡ print_ipv4 address
  pub answer : x.1 ≡ ok (record_to_network entry)
  pub pool_now : stored p x.0 ≡ ok (insert address s)
  pub recorded_now : recorded file x.0 ≡ ok (some entry)

Joined-Connected :
    {H : Host} (p : IpPool) (s : PoolState) (store : StateStore) (vlan : ℕ) (r : WorkloadRecord)
    (before : M.Map FilePath H.Bytes) (x : World H × Result IoError WorkloadNetwork)
    → Connected p s store vlan r before x
    → Joined p s vlan (file_of H store r) x
Joined-Connected {H} p s store vlan r before x c = record {
  address = c.address;
  entry = r;
  first_free = c.first_free;
  vlan_kept = c.vlan_kept;
  printed = c.printed;
  answer = c.answer;
  pool_now = ground (
    arith,
    c.files,
    c.pool_read,
    lookup-insert_other (file_of H store r) (pool_file p) c.record_bytes
        (M.insert (pool_file p) c.pool_bytes before)
        (λ e. path≢pool_file H store r.workload_name r.instance_name r.network_name p (sym e)),
    M.lookup-insert_self (pool_file p) c.pool_bytes before,
  );
  recorded_now = ground (
    arith,
    c.files,
    c.record_read,
    M.lookup-insert_self (file_of H store r) c.record_bytes
        (M.insert (pool_file p) c.pool_bytes before),
  );
}

module _ {H : Host} (F : FilesWork H) (pools : IpPoolDirectory) (store : StateStore)
    (request : AddWorkloadNetworkRequest) (workload : WorkloadRef) (network : NetworkRef) where
  -- The files are as before, or a record was saved with an address that was free.
  abbrev pub Outcome :
      IpPool → PoolState → World H → World H × Result IoError WorkloadNetwork → Type 0
  Outcome p s w x =
      ((e : IoError) × (x.1 ≡ err e) × Unmoved p s w.files x.0)
      ⊎ ((r : WorkloadRecord) × (file_of H store r
            ≡ path H store workload.workload_name workload.instance_name network.network_name)
          × Connected p s store network.vlan_id r w.files x)

  attach-run :
      (pid : ℕ) (interface : String) (netns gateway value : ℕ) (w : World H) {p : IpPool}
      {s : PoolState}
      → mtu H ≡ ok value
      → pool pools network.vlan_id ≡ ok p
      → stored p w ≡ ok s
      → length s < 1022
      → Outcome p s w (attach pools store request workload network pid interface netns gateway w)
  unfolding attach
  attach-run pid interface netns gateway value w {p} {s} m found h short =
      elim (allocate-run F p w h range (omega (arith, short))) [
        | inr (used, run) ↦ inl (
          other_error "IP pool is exhausted",
          ground (arith, found, run),
          Unmoved-same p w _ h (ground (arith, found, run)),
        )
        | inl (a, b, f, d, run) ↦
            let r = new_record H request workload network interface a gateway in
            let w1 = written p b (with_directory p.directory w) in
            elim (connect-run F pools store r a netns pid (show value) w1 found (record {
              low = f.at_least;
              high = ground (arith, f.below);
              new = f.free;
              held = stored-written F p b (with_directory p.directory w) ∙ d;
              short = short;
            })) [
              | inl (e, b', answer, back, fs) ↦ inl (
                e,
                ground (arith, found, run, m, answer),
                Unmoved-insert p w _ b b' back (ground (arith, found, run, m, fs)),
              )
              | inr (c, answer, saved, fs) ↦ inr (
                r,
                refl,
                record {
                  address = a;
                  first_free = f;
                  vlan_kept = refl;
                  printed = refl;
                  answer = ground (arith, found, run, m, answer);
                  pool_bytes = b;
                  record_bytes = c;
                  pool_read = d;
                  record_read = saved;
                  files = ground (arith, found, run, m, fs);
                },
              )
            ]
      ]
    where
      range : HasRange p
      range = let (v, low, high) = pool_lem pools network.vlan_id found in omega (arith, low, high)

  create-run :
      (is_address : String → Bool) (pid : ℕ) (interface : String) (netns : ℕ) (w : World H)
      {p : IpPool} {s : PoolState}
      → pool pools network.vlan_id ≡ ok p
      → stored p w ≡ ok s
      → length s < 1022
      → Outcome p s w (create is_address pools store request workload network pid interface netns w)
  unfolding create
  create-run is_address pid interface netns w {p} {s} found h short =
      let checked = check_ports-keeps F store request.port_mappings w in
      elim (Result-cases (check_ports store request.port_mappings w).1) [
        | inl (e, c) ↦ inl (e, ground (arith, c), Unmoved-same p w _ h (ground (arith, c, checked)))
        | inr (_, c) ↦ elim (Result-cases (node_id H is_address)) [
          | inl (e, n) ↦
              inl (e, ground (arith, c, n), Unmoved-same p w _ h (ground (arith, c, n, checked)))
          | inr (node, n) ↦
              elim (Result-cases (ensure H (network.vlan_id % 256) node w.machine).1) [
                | inl (e, g) ↦ inl (
                  e,
                  ground (arith, c, n, g, checked),
                  Unmoved-same p w _ h (ground (arith, c, n, g, checked)),
                )
                | inr (gateway, g) ↦
                    let (value, m) = ensure-mtu H (network.vlan_id % 256) node w.machine g in
                    let w1 = (on_machine (ensure H (network.vlan_id % 256) node) w).0 in
                    subst (Outcome p s w) (ground (arith, c, n, g, checked))
                      (attach-run pid interface netns gateway value w1 m found h short)
              ]
        ]
      ]

  -- On a host whose files work, whatever its commands do: adding a valid workload that has no
  -- record either fails, and then the pool of its VLAN holds the addresses it held and every
  -- other file is as it was, or it answers with the lowest address that was free, and then that
  -- address is in the pool and the record is saved. The pool's file holds a set of fewer than
  -- 1022 addresses before.
  pub add_workload_network_lem :
      (is_address : String → Bool) (pid : ℕ) (interface : String) (w : World H) {p : IpPool}
      {s : PoolState}
      → validate_add_request request ≡ ok (workload, network, pid, interface)
      → recorded (path H store workload.workload_name workload.instance_name network.network_name) w
        ≡ ok none
      → pool pools network.vlan_id ≡ ok p
      → stored p w ≡ ok s
      → length s < 1022
      → ((e : IoError) × ((add_workload_network is_address request pools store w).1 ≡ err e)
          × Unmoved p s w.files (add_workload_network is_address request pools store w).0)
        ⊎ Joined p s network.vlan_id
            (path H store workload.workload_name workload.instance_name network.network_name)
            (add_workload_network is_address request pools store w)
  unfolding add_workload_network
  add_workload_network_lem is_address pid interface w {p} {s} valid absent found h short =
      elim (Result-cases (open_netns H request.netns_path w.machine).1) [
        | inl (e, n) ↦
            inl (e, ground (arith, valid, n), Unmoved-same p w _ h (ground (arith, valid, n)))
        | inr (netns, n) ↦ elim (Result-cases (validate_mappings request.port_mappings)) [
          | inl (e, m) ↦
              inl
                (e, ground (arith, valid, n, m), Unmoved-same p w _ h (ground (arith, valid, n, m)))
          | inr (_, m) ↦
              let w1 = (on_machine (open_netns H request.netns_path) w).0 in
              let run = create-run is_address pid interface netns w1 found h short in
              settled _ (
                subst (Outcome p s w)
                  (ground (
                    arith,
                    valid,
                    n,
                    m,
                    absent,
                    load_lem F store workload.workload_name workload.instance_name
                        network.network_name w1,
                  ))
                  run)
        ]
      ]
    where
      settled :
          (x : World H × Result IoError WorkloadNetwork)
          → Outcome p s w x
          → ((e : IoError) × (x.1 ≡ err e) × Unmoved p s w.files x.0)
            ⊎ Joined p s network.vlan_id
                (path H store workload.workload_name workload.instance_name network.network_name)
                x
      settled x (inl failed) = inl failed
      settled x (inr (r, named, c)) = inr (
          subst (λ file. Joined p s network.vlan_id file x) named
            (Joined-Connected p s store network.vlan_id r w.files x c))
