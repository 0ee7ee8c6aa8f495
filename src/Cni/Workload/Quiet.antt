-- ===== src/Cni/Workload/Quiet.antt =====
-- What the daemon reads, on a host whose files work.
use barenetes.Base.{
  ℕ, String, List, [], ◌∷◌, ◌≡◌, refl, Option, none, some, Result, ok, err, arith, Result-cases,
  Option-cases, inl, inr,
}
use barenetes.Base.Map.{lookup}
use barenetes.Shared.{Port}
use barenetes.Cni.{Host, World, IoError, FilePath, path_eq, WorkloadRecord}
use barenetes.Cni.Files.{read_dir}
use barenetes.Cni.Files.Working.{FilesWork, open_file_lem}
use barenetes.Cni.State.{StateStore, load_file, record_of, scan_used, port_is_used, load, path}
use barenetes.Cni.Workload.{check_ports}

-- The record that a file holds; no file is no record.
abbrev pub recorded : {H : Host} → FilePath → World H → Result IoError (Option WorkloadRecord)
recorded {H} file w = elim (lookup file w.files) [
  | none ↦ ok none
  | some b ↦ elim (record_of H b) [ ok r ↦ ok (some r) | err e ↦ err e ]
]

module _ {H : Host} (F : FilesWork H) where
  pub load_lem :
      (store : StateStore) (workload name network : String) (w : World H)
      → load store workload name network w ≡ (w, recorded (path H store workload name network) w)
  unfolding load
  load_lem store workload name network w =
      let file = path H store workload name network in
      elim (Option-cases (lookup file w.files)) [
        | inl e ↦ ground (arith, open_file_lem F file w, e)
        | inr (b, e) ↦ elim (Result-cases (record_of H b)) [
          | inl (x, r) ↦ ground (arith, open_file_lem F file w, F.calls "read" file w.machine, e, r)
          | inr (x, r) ↦ ground (arith, open_file_lem F file w, F.calls "read" file w.machine, e, r)
        ]
      ]

  load_file-keeps : (file : FilePath) (w : World H) → (load_file file w).0 ≡ w
  load_file-keeps file w =
      ground (arith, F.calls "open" file w.machine, F.calls "read" file w.machine)

  scan_used-keeps :
      (protocol host_port : ℕ) (files : List FilePath) (w : World H)
      → (scan_used protocol host_port files w).0 ≡ w
  scan_used-keeps protocol host_port [] w = refl
  scan_used-keeps protocol host_port (file ∷ files) w =
      ground (arith, load_file-keeps file w, scan_used-keeps protocol host_port files w)

  read_dir-keeps : (directory : FilePath) (w : World H) → (read_dir directory w).0 ≡ w
  read_dir-keeps directory w = ground (arith, F.calls "read_dir" directory w.machine)

  port_is_used-keeps :
      (store : StateStore) (protocol host_port : ℕ) (w : World H)
      → (port_is_used store protocol host_port w).0 ≡ w
  unfolding port_is_used
  port_is_used-keeps store protocol host_port w =
      elim (Result-cases (read_dir store.directory w).1) [
        | inl (e, h) ↦ ground (arith, read_dir-keeps store.directory w, h)
        | inr (files, h) ↦
            ground (
              arith,
              read_dir-keeps store.directory w,
              h,
              scan_used-keeps protocol host_port files w,
            )
      ]

  pub check_ports-keeps :
      (store : StateStore) (mappings : List Port) (w : World H)
      → (check_ports store mappings w).0 ≡ w
  unfolding check_ports
  check_ports-keeps store [] w = refl
  check_ports-keeps store (m ∷ mappings) w =
      ground (
        arith,
        port_is_used-keeps store m.protocol m.external w,
        check_ports-keeps store mappings w,
      )
