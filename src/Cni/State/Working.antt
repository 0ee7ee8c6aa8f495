-- ===== src/Cni/State/Working.antt =====
-- Saving and deleting a record, on a host whose files work.
use barenetes.Base.{
  String, ◌≡◌, Bool, true, false, ok, err, arith, Result-cases, Bool-cases, Option-cases, inl, inr,
  ◌⊎◌, ltb,
}
use barenetes.Base.Map.{lookup, insert, remove, remove_absent}
use barenetes.Cni.{Host, World, IoError, FilePath, path_eq, WorkloadRecord, input_error}
use barenetes.Cni.Files.Working.{FilesWork, with_directory}
use barenetes.Cni.State.{StateStore, record_of, save, delete, path, max_record_size}

-- The file of a record.
abbrev pub file_of : (H : Host) → StateStore → WorkloadRecord → FilePath
file_of H store r = path H store r.workload_name r.instance_name r.network_name

module _ {H : Host} (F : FilesWork H) where
  pub save_lem :
      (store : StateStore) (r : WorkloadRecord) (w : World H)
      → ((e : IoError) × (save store r w ≡ (with_directory store.directory w, err e)))
        ⊎ ((b : H.Bytes) × (record_of H b ≡ ok r)
            × (save store r w ≡ (
              record (with_directory store.directory w) {
                files = insert (file_of H store r) b w.files;
              },
              ok tt,
            )))
  unfolding save
  save_lem store r w = elim (Result-cases (H.encode_record r)) [
    | inl (e, h) ↦ inl (
      e,
      ground (
        arith,
        h,
        F.calls "create_dir_all" store.directory w.machine,
        F.calls "set_permissions" store.directory w.machine,
      ),
    )
    | inr (b, h) ↦ elim (Bool-cases (ltb max_record_size (H.size b))) [
      | inl large ↦ inl (
        input_error "workload state is too large",
        ground (
          arith,
          h,
          large,
          F.calls "create_dir_all" store.directory w.machine,
          F.calls "set_permissions" store.directory w.machine,
        ),
      )
      | inr small ↦ inr (
        b,
        ground (arith, small, F.record_codec r b h),
        ground (
          arith,
          h,
          small,
          F.calls "create_dir_all" store.directory w.machine,
          F.calls "set_permissions" store.directory w.machine,
          F.calls "tempfile" store.directory w.machine,
          F.calls "write" store.directory w.machine,
          F.calls "sync_all" store.directory w.machine,
          F.calls "rename" (file_of H store r) w.machine,
          F.calls "open" store.directory w.machine,
        ),
      )
    ]
  ]

  pub delete_lem :
      (store : StateStore) (workload name network : String) (w : World H)
      → (b : Bool) × ((delete store workload name network w).1 ≡ ok b)
        × ((delete store workload name network w).0.files
            ≡ remove (path H store workload name network) w.files)
  unfolding delete
  delete_lem store workload name network w =
      let file = path H store workload name network in
      elim (Option-cases (lookup file w.files)) [
        | inl e ↦ (
          false,
          ground (arith, F.calls "remove_file" file w.machine, e),
          ground (arith, F.calls "remove_file" file w.machine, e, remove_absent file w.files e),
        )
        | inr (b, e) ↦ (
          true,
          ground (
            arith,
            F.calls "remove_file" file w.machine,
            F.calls "open" store.directory w.machine,
            F.calls "sync_all" store.directory w.machine,
            e,
          ),
          ground (
            arith,
            F.calls "remove_file" file w.machine,
            F.calls "open" store.directory w.machine,
            F.calls "sync_all" store.directory w.machine,
            e,
          ),
        )
      ]
