-- ===== src/Cni/Workload/Rollback.antt =====
-- A connection that fails on the way leaves the pool and the records as they were.
use barenetes.Base.{
  ℕ, String, ◌≡◌, refl, ap, ◌∙◌, false, Result, ok, err, arith, Result-cases, inl, inr, ◌⊎◌, length,
  ◌≤◌, ◌<◌,
}
use barenetes.Base.SortedSet.{contains, insert, remove-insert, length-insert}
use barenetes.Base.Map as M
use barenetes.Cni.{Host, World, IoError, path_eq, WorkloadRecord, on_machine}
use barenetes.Cni.Files.Working.{FilesWork, with_directory}
use barenetes.Cni.Pool.{IpPoolDirectory, IpPool, PoolState, pool, pool_file, read_bytes}
use barenetes.Cni.Pool.Working.{stored}
use barenetes.Cni.Pool.Allocation.{release-run}
use barenetes.Cni.State.{StateStore, record_of}
use barenetes.Cni.State.Working.{file_of, save_lem}
use barenetes.Cni.Firewall.{add_mappings, delete_mappings}
use barenetes.Cni.Workload.{undo_link, delete_link, prepare, connect, record_to_network}
use barenetes.Cni.Workload.Validation.{WorkloadNetwork}

-- A pool with an address out, which can go back.
pub record Out {H : Host} (p : IpPool) (address : ℕ) (s : PoolState) (w : World H) : Type 0 where
  pub low : p.first ≤ address
  pub high : address ≤ p.last
  pub new : contains address s ≡ false
  pub held : stored p w ≡ ok (insert address s)
  pub short : length s < 1022

-- A run that failed and put the address back, and one that saved the record.
abbrev pub Undone :
    {H : Host} → IpPool → PoolState → World H → World H × Result IoError WorkloadNetwork → Type 0
Undone {H} p s w x =
    (e : IoError) × (b : H.Bytes) × (x.1 ≡ err e)
    × (read_bytes H b ≡ ok s)
    × (x.0.files ≡ M.insert (pool_file p) b w.files)

abbrev pub Saved :
    {H : Host}
    → StateStore
    → WorkloadRecord
    → World H
    → World H × Result IoError WorkloadNetwork
    → Type 0
Saved {H} store r w x =
    (b : H.Bytes) × (x.1 ≡ ok (record_to_network r))
    × (record_of H b ≡ ok r)
    × (x.0.files ≡ M.insert (file_of H store r) b w.files)

module _ {H : Host} (F : FilesWork H) (pools : IpPoolDirectory) {p : IpPool} {s : PoolState} where
  undo_link-run :
      (vlan : ℕ) (host_interface : String) (address : ℕ) (w : World H)
      → pool pools vlan ≡ ok p
      → Out p address s w
      → (b : H.Bytes) × (read_bytes H b ≡ ok s)
        × ((undo_link pools vlan host_interface address w).0.files
            ≡ M.insert (pool_file p) b w.files)
        × ((undo_link pools vlan host_interface address w).1 ≡ ok tt)
  undo_link-run vlan host_interface address w found o =
      let gone = (on_machine (delete_link H host_interface) w).0 in
      let (b, d, run) =
        release-run F p gone address o.held o.low o.high
          (omega (arith, length-insert address s, o.short)) in
      (
        b,
        d ∙ ap ok (remove-insert address s o.new),
        ground (arith, found, run),
        ground (arith, found, run),
      )

  pub connect-run :
      (store : StateStore) (r : WorkloadRecord) (address netns pid : ℕ) (mtu : String) (w : World H)
      → pool pools r.vlan_id ≡ ok p
      → Out p address s w
      → Undone p s w (connect pools store r address netns pid mtu w)
        ⊎ Saved store r w (connect pools store r address netns pid mtu w)
  unfolding connect
  connect-run store r address netns pid mtu w found o =
      elim (Result-cases (prepare H r netns pid mtu w.machine).1) [
        | inl (e, h) ↦
            let w1 = (on_machine (prepare H r netns pid mtu) w).0 in
            let (b, d, fs, done) =
              undo_link-run r.vlan_id r.host_interface address w1 found (moved w1 refl) in
            inl (e, b, ground (arith, h, done), d, ground (arith, h, done, fs))
        | inr (_, h) ↦
            let w1 = (on_machine (prepare H r netns pid mtu) w).0 in
            let map_ports = on_machine (add_mappings H r.ip_address r.port_mappings) in
            elim (Result-cases (map_ports w1).1) [
              | inl (e, g) ↦
                  let (b, d, fs, done) =
                    undo_link-run r.vlan_id r.host_interface address (map_ports w1).0 found
                      (moved (map_ports w1).0 refl) in
                  inl (e, b, ground (arith, h, g, done), d, ground (arith, h, g, done, fs))
              | inr (_, g) ↦ elim (save_lem F store r (map_ports w1).0) [
                | inl (e, k) ↦
                    let w3 =
                      (on_machine (delete_mappings H r.ip_address r.port_mappings)
                        (with_directory store.directory (map_ports w1).0)).0 in
                    let (b, d, fs, done) =
                      undo_link-run r.vlan_id r.host_interface address w3 found (moved w3 refl) in
                    inl (e, b, ground (arith, h, g, k, done), d, ground (arith, h, g, k, done, fs))
                | inr (b, d, k) ↦ inr (b, ground (arith, h, g, k), d, ground (arith, h, g, k))
              ]
            ]
      ]
    where
      moved : (w' : World H) → w'.files ≡ w.files → Out p address s w'
      moved w' same = record {
        low = o.low;
        high = o.high;
        new = o.new;
        held = ground (arith, o.held, same);
        short = o.short;
      }
