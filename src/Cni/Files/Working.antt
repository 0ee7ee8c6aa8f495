-- ===== src/Cni/Files/Working.antt =====
-- The files of the daemon on a host where no call on them fails and what is encoded is read back.
use barenetes.Base.{ℕ, String, List, ◌≡◌, none, some, ok, err, length, ◌++◌, ◌<◌, ltb, false, arith}
use barenetes.Base.Map.{lookup, insert}
use barenetes.Cni.{Host, World, FilePath, path_eq, missing_error, WorkloadRecord}
use barenetes.Cni.Files.{ancestors, call, create_dir_all, open_file, persist, sync_directory}

-- A call that succeeds changes nothing that a later call or a command depends on.
pub record FilesWork (H : Host) : Type 0 where
  pub calls :
      (name : String) (path : FilePath) (machine : H.Machine)
      → H.syscall name path machine ≡ (machine, ok tt)
  pub pool_codec :
      (s : List ℕ)
      → length s < 1024
      → (b : H.Bytes) × (H.encode_pool s ≡ ok b)
        × (ltb 1048576 (H.size b) ≡ false)
        × (H.decode_pool b ≡ ok s)
  pub record_codec :
      (r : WorkloadRecord) (b : H.Bytes) → H.encode_record r ≡ ok b → H.decode_record b ≡ ok r

-- The world with a directory and those above it.
abbrev pub with_directory : {H : Host} → FilePath → World H → World H
with_directory path w = record w { directories = ancestors path ++ w.directories }

module _ {H : Host} (F : FilesWork H) where
  pub call_lem : (name : String) (path : FilePath) (w : World H) → call name path w ≡ (w, ok tt)
  call_lem name path w = ground (arith, F.calls name path w.machine)

  pub sync_directory_lem : (path : FilePath) (w : World H) → sync_directory path w ≡ (w, ok tt)
  sync_directory_lem path w =
      ground (arith, F.calls "open" path w.machine, F.calls "sync_all" path w.machine)

  pub create_dir_all_lem :
      (path : FilePath) (w : World H) → create_dir_all path w ≡ (with_directory path w, ok tt)
  create_dir_all_lem path w = ground (arith, F.calls "create_dir_all" path w.machine)

  pub open_file_lem :
      (path : FilePath) (w : World H)
      → open_file path w ≡ (
        w,
        elim (lookup path w.files) [
          | none ↦ err (missing_error "No such file or directory")
          | some bytes ↦ ok bytes
        ],
      )
  open_file_lem path w = ground (arith, F.calls "open" path w.machine)

  pub persist_lem :
      (path : FilePath) (bytes : H.Bytes) (w : World H)
      → persist path bytes w ≡ (record w { files = insert path bytes w.files }, ok tt)
  persist_lem path bytes w = ground (arith, F.calls "rename" path w.machine)
