-- ===== src/Cni/Files.antt =====
-- The calls of `std::fs` and `tempfile` that the daemon's two stores make. A call may fail before
-- it does anything; what it does to the files is then nothing.
pub mod Working
use barenetes.Base.{
  String, Bool, true, false, Option, none, some, List, [], ◌∷◌, ◌++◌, if◌then◌else◌, ◌==◌, Result,
  ok, err,
}
use barenetes.Base.Map.{Map, lookup, insert, remove}
use barenetes.Base.Action.{◌>>=◌, ◌>>◌, pure, lift, modify}
use barenetes.Cni.{
  Host, World, Io, IoError, ErrorKind, FilePath, path_eq, on_machine, missing_error,
}

abbrev pub call : {H : Host} → String → FilePath → Io H (Unit {0})
call {H} name path = on_machine (H.syscall name path)

-- `create_dir_all`: the directory and those above it.
abbrev pub ancestors : FilePath → List FilePath
ancestors [] = []
ancestors (name ∷ p) = (name ∷ p) ∷ ancestors p

abbrev pub create_dir_all : {H : Host} → FilePath → Io H (Unit {0})
create_dir_all path = do
  call "create_dir_all" path
  modify (λ w. record w { directories = ancestors path ++ w.directories })

-- `File::open` and what is read from it.
abbrev pub open_file : {H : Host} → FilePath → Io H H.Bytes
open_file path = do
  call "open" path
  λ w. (
    w,
    elim (lookup path w.files) [
      | none ↦ err (missing_error "No such file or directory")
      | some bytes ↦ ok bytes
    ],
  )

-- `remove_file`.
abbrev pub remove_file : {H : Host} → FilePath → Io H (Unit {0})
remove_file path = do
  call "remove_file" path
  λ w. elim (lookup path w.files) [
    | none ↦ (w, err (missing_error "No such file or directory"))
    | some _ ↦ (record w { files = remove path w.files }, ok tt)
  ]

-- `NamedTempFile::persist`: the temporary file takes the place of the one at the path.
abbrev pub persist : {H : Host} → FilePath → H.Bytes → Io H (Unit {0})
persist path bytes = do
  call "rename" path
  modify (λ w. record w { files = insert path bytes w.files })

-- The directory's sync after a change of its entries.
abbrev pub sync_directory : {H : Host} → FilePath → Io H (Unit {0})
sync_directory directory = call "open" directory >> call "sync_all" directory

-- The files of a directory, in the order of the map, which the system leaves open.
abbrev entries_of : {B : Type 0} → FilePath → Map FilePath B → List FilePath
entries_of directory [] = []
entries_of directory (([], b) ∷ m) = entries_of directory m
entries_of directory ((name ∷ parent, b) ∷ m) =
    let rest = entries_of directory m in
    if parent == directory then (name ∷ parent) ∷ rest else rest

abbrev pub has_directory : FilePath → List FilePath → Bool
has_directory p [] = false
has_directory p (q ∷ qs) = if p == q then true else has_directory p qs

abbrev pub read_dir : {H : Host} → FilePath → Io H (List FilePath)
read_dir directory = do
  call "read_dir" directory
  λ w. (
    w,
    if has_directory directory w.directories
        then ok (entries_of directory w.files)
        else err (missing_error "No such file or directory"),
  )
