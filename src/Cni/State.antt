-- ===== src/Cni/State.antt =====
-- cni/src/state.rs: the records of the workloads that are connected, a file for each.
pub mod Working
pub mod Names
use barenetes.Base.{
  ℕ, String, Bool, true, false, Option, none, some, List, [], ◌∷◌, if◌then◌else◌, ltb, eqb, ◌&&◌,
  any, ◌==◌, string_eq, Result, ok, err, format, ◌/◌, ◌%◌, zero, suc,
}
use Prim.Native.String.{len}
use Prim.Native.Char.{Char, code}
use barenetes.Base.Decimal.{show, split}
use barenetes.Base.Action.{◌>>=◌, ◌>>◌, pure, lift, attempt}
use barenetes.Shared.{Port}
use barenetes.Cni.{
  Host, World, Io, IoError, ErrorKind, FilePath, WorkloadRecord, input_error, data_error,
}
use barenetes.Cni.Files.{
  call, create_dir_all, open_file, remove_file, persist, sync_directory, read_dir,
}

abbrev pub max_record_size : ℕ
max_record_size = 65536

pub record StateStore : Type 0 where
  pub directory : FilePath

abbrev pub hex_digit : ℕ → String
hex_digit n =
    if ltb n 10
    then show n
    else if eqb n 10
    then "a"
    else if eqb n 11
    then "b"
    else if eqb n 12
    then "c"
    else if eqb n 13
    then "d"
    else if eqb n 14
    then "e"
    else "f"

abbrev pub hex : ℕ → List ℕ → List String
hex zero bytes = []
hex (suc count) [] = []
hex (suc count) (b ∷ bytes) = hex_digit (b / 16) ∷ hex_digit (b % 16) ∷ hex count bytes

abbrev pub feed : (H : Host) → List String → H.Hash → H.Hash
feed H [] hasher = hasher
feed H (part ∷ parts) hasher = feed H parts (H.update_text part (H.update_length (len part) hasher))

-- The first twelve bytes of the digest of the parts, each after its length.
abbrev pub stable_id : (H : Host) → List String → String
stable_id H parts = format (hex 12 (H.finalize (feed H parts H.new_hash)))

abbrev pub path : (H : Host) → StateStore → String → String → String → FilePath
path H store workload instance_name network =
    format (stable_id H (workload ∷ instance_name ∷ network ∷ []) ∷ ".json" ∷ []) ∷ store.directory

abbrev pub record_of : (H : Host) → H.Bytes → Result IoError WorkloadRecord
record_of H bytes =
    if ltb max_record_size (H.size bytes)
    then err (data_error "workload state is too large")
    else elim (H.decode_record bytes) [
      | ok r ↦ ok r
      | err e ↦ err (record { kind = ErrorKind.invalid_data; message = e.message })
    ]

abbrev pub read_record : {H : Host} → FilePath → H.Bytes → Io H WorkloadRecord
read_record {H} file bytes = call "read" file >> lift (record_of H bytes)

unfoldable pub load :
    {H : Host} → StateStore → String → String → String → Io H (Option WorkloadRecord)
load {H} store workload instance_name network = do
  opened ← attempt (open_file (path H store workload instance_name network))
  elim opened [
    | ok bytes ↦ do
      loaded ← read_record (path H store workload instance_name network) bytes
      pure (some loaded)
    | err e ↦ elim e.kind [ ErrorKind.not_found ↦ pure none | _ ↦ lift (err e) ]
  ]

unfoldable pub save : {H : Host} → StateStore → WorkloadRecord → Io H (Unit {0})
save {H} store r = do
  create_dir_all store.directory
  call "set_permissions" store.directory
  bytes ← lift (H.encode_record r)
  lift (
      if ltb max_record_size (H.size bytes)
      then err (input_error "workload state is too large")
      else ok tt)
  call "tempfile" store.directory
  call "set_permissions" store.directory
  call "write" store.directory
  call "sync_all" store.directory
  persist (path H store r.workload_name r.instance_name r.network_name) bytes
  sync_directory store.directory

unfoldable pub delete : {H : Host} → StateStore → String → String → String → Io H Bool
delete {H} store workload instance_name network = do
  removed ← attempt (remove_file (path H store workload instance_name network))
  elim removed [
    | ok _ ↦ sync_directory store.directory >> pure true
    | err e ↦ elim e.kind [ ErrorKind.not_found ↦ pure false | _ ↦ lift (err e) ]
  ]

-- `path.extension() == Some("json")`: the name ends in ".json" and something stands before.
abbrev last_part : List String → String
last_part [] = ""
last_part (s ∷ []) = s
last_part (s ∷ t ∷ ss) = last_part (t ∷ ss)

abbrev has_stem : List String → Bool
has_stem (s ∷ t ∷ u ∷ ss) = true
has_stem (s ∷ t ∷ []) = ltb 0 (len s)
has_stem _ = false

abbrev pub is_json : FilePath → Bool
is_json [] = false
is_json (name ∷ _) = has_stem (split 46 name) && (last_part (split 46 name) == "json")

abbrev pub publishes : ℕ → ℕ → Port → Bool
publishes protocol host_port mapping =
    eqb mapping.protocol protocol && eqb mapping.external host_port

abbrev pub load_file : {H : Host} → FilePath → Io H WorkloadRecord
load_file file = do bytes ← open_file file; read_record file bytes

abbrev pub seek : {H : Host} → ℕ → ℕ → FilePath → Io H Bool → Io H Bool
seek protocol host_port file rest = do
  r ← load_file file
  if any (publishes protocol host_port) r.port_mappings then pure true else rest

abbrev pub scan_used : {H : Host} → ℕ → ℕ → List FilePath → Io H Bool
scan_used protocol host_port [] = pure false
scan_used protocol host_port (file ∷ files) =
    let rest = scan_used protocol host_port files in
    if is_json file then seek protocol host_port file rest else rest

unfoldable pub port_is_used : {H : Host} → StateStore → ℕ → ℕ → Io H Bool
port_is_used store protocol host_port = do
  listed ← attempt (read_dir store.directory)
  elim listed [
    | ok files ↦ scan_used protocol host_port files
    | err e ↦ elim e.kind [ ErrorKind.not_found ↦ pure false | _ ↦ lift (err e) ]
  ]

-- A file that cannot be read is passed over.
abbrev collect : {H : Host} → FilePath → Io H (List WorkloadRecord) → Io H (List WorkloadRecord)
collect file others = do
  loaded ← attempt (load_file file)
  rest ← others
  pure (elim loaded [ ok r ↦ r ∷ rest | err _ ↦ rest ])

abbrev load_readable : {H : Host} → List FilePath → Io H (List WorkloadRecord)
load_readable [] = pure []
load_readable (file ∷ files) =
    let rest = load_readable files in if is_json file then collect file rest else rest

abbrev pub records : {H : Host} → StateStore → Io H (List WorkloadRecord)
records store = do
  listed ← attempt (read_dir store.directory)
  elim listed [
    | ok files ↦ load_readable files
    | err e ↦ elim e.kind [ ErrorKind.not_found ↦ pure [] | _ ↦ lift (err e) ]
  ]
