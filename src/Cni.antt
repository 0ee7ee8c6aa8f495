-- ===== src/Cni.antt =====
-- cni/src: the daemon that connects workloads to the tenant networks of its node. What it works
-- on: the files of its two state directories, and the machine that its commands change.
pub mod Addressing
pub mod Files
pub mod Pool
pub mod State
pub mod System
pub mod Firewall
pub mod Vlan
pub mod Workload
pub mod Reconcile
pub mod Handler
mod Tests
use barenetes.Base.{
  ℕ, String, Bool, true, false, Option, none, some, List, [], ◌∷◌, ◌≡◌, ◌↔◌, ◌&&◌, Result, ok, err,
  Equality, ◌==◌, string_eq, arith,
}
use barenetes.Base.Map.{Map}
use barenetes.Base.Action.{Action}
use barenetes.Shared.{Port}

-- `io::ErrorKind`, as far as the code tells the kinds apart, and `io::Error`.
pub data ErrorKind : Type 0 where
  invalid_input invalid_data not_found permission_denied other : ErrorKind

pub record IoError : Type 0 where
  pub kind : ErrorKind
  pub message : String

abbrev pub input_error : String → IoError
input_error message = record { kind = ErrorKind.invalid_input; message = message }

abbrev pub data_error : String → IoError
data_error message = record { kind = ErrorKind.invalid_data; message = message }

abbrev pub missing_error : String → IoError
missing_error message = record { kind = ErrorKind.not_found; message = message }

abbrev pub other_error : String → IoError
other_error message = record { kind = ErrorKind.other; message = message }

pub record WorkloadRecord : Type 0 where
  pub workload_name : String
  pub instance_name : String
  pub network_name : String
  pub host_interface : String
  pub interface_name : String
  pub ip_address : String
  pub gateway : String
  pub vlan_id : ℕ
  pub port_mappings : List Port

-- A path, its last component first.
abbrev pub FilePath : Type 0
FilePath = List String

abbrev pub path_beq : FilePath → FilePath → Bool
path_beq [] [] = true
path_beq (a ∷ p) (b ∷ q) = (a == b) && path_beq p q
path_beq _ _ = false

pub path_beq_iff : (p q : FilePath) → (path_beq p q ≡ true) ↔ (p ≡ q)
path_beq_iff [] [] = ground arith
path_beq_iff [] (b ∷ q) = ground arith
path_beq_iff (a ∷ p) [] = ground arith
path_beq_iff (a ∷ p) (b ∷ q) = ground (arith, string_eq.beq_iff a b, path_beq_iff p q)

instance abbrev pub path_eq : Equality FilePath
path_eq = record { beq = path_beq; beq_iff = path_beq_iff }

-- The system that the daemon runs on, as a parameter: the state of everything but the daemon's
-- files, the programs that it starts, with their exit status and what they print, the system calls
-- on a path that change no file's content, each of which may fail, the environment, which stays as
-- it is, and the files of /proc, each known by its device and inode numbers. `Bytes` is what files
-- hold, with the JSON codec, and `hash` is SHA-256 with what it was fed so far.
pub record Host : Type 1 where
  pub Machine : Type 0
  pub status : String → List String → Machine → Machine × Result IoError Bool
  pub stdout : String → List String → Machine → Machine × Result IoError (Bool × Option String)
  pub is_file : String → Machine → Bool
  pub syscall : String → FilePath → Machine → Machine × Result IoError (Unit {0})
  pub open_fd : String → Machine → Machine × Result IoError ℕ
  pub fstat : ℕ → Machine → Machine × Result IoError (ℕ × ℕ)
  pub stat : String → Machine → Machine × Result IoError (ℕ × ℕ)
  pub fcntl : ℕ → Machine → Machine × Result IoError (Unit {0})
  pub env : String → Option String
  pub Bytes : Type 0
  pub size : Bytes → ℕ
  pub encode_pool : List ℕ → Result IoError Bytes
  pub decode_pool : Bytes → Result IoError (List ℕ)
  pub encode_record : WorkloadRecord → Result IoError Bytes
  pub decode_record : Bytes → Result IoError WorkloadRecord
  pub Hash : Type 0
  pub new_hash : Hash
  pub update_length : ℕ → Hash → Hash
  pub update_text : String → Hash → Hash
  pub finalize : Hash → List ℕ

pub record World (H : Host) : Type 0 where
  pub machine : H.Machine
  pub directories : List FilePath
  pub files : Map FilePath H.Bytes

-- What a function of the daemon does, and what one does that leaves the files alone.
abbrev pub Io : Host → Type 0 → Type 0
Io H A = Action (World H) IoError A

abbrev pub Command : Host → Type 0 → Type 0
Command H A = Action H.Machine IoError A

abbrev pub on_machine : {H : Host} {A : Type 0} → Command H A → Io H A
on_machine m w = let (machine, r) = m w.machine in (record w { machine = machine }, r)
