-- ===== src/Cni/Workload/Validation.antt =====
-- The messages of proto/cni/v1/cni.proto, and the checks of cni/src/network/workload.rs on them.
use barenetes.Base.{
  ℕ, zero, suc, String, Bool, true, false, Option, none, some, List, [], ◌∷◌, if◌then◌else◌, ltb,
  leb, eqb, ◌||◌, ◌&&◌, not, ◌==◌, string_eq, Result, ok, err, ◌>>=◌, ◌>>◌, ok_or, fail_if,
}
use Prim.Native.Char.{Char, code}
use Prim.Native.String.{len}
use barenetes.Base.Decimal.{parse_number, max_u32, split}
use barenetes.Shared.{Port}
use barenetes.Cni.{IoError, input_error}

pub record WorkloadRef : Type 0 where
  pub workload_name : String
  pub instance_name : String

pub record NetworkRef : Type 0 where
  pub network_name : String
  pub vlan_id : ℕ

pub data NetworkState : Type 0 where
  unspecified ready error : NetworkState

abbrev pub network_state_code : NetworkState → ℕ
network_state_code NetworkState.unspecified = 0
network_state_code NetworkState.ready = 1
network_state_code NetworkState.error = 2

pub record WorkloadNetwork : Type 0 where
  pub state : ℕ
  pub interface_name : String
  pub ip_address : String
  pub gateway : String
  pub network_name : String

pub record AddWorkloadNetworkRequest : Type 0 where
  pub workload : Option WorkloadRef
  pub network : Option NetworkRef
  pub netns_path : String
  pub interface_name : String
  pub port_mappings : List Port

-- The requests to get and to delete have the same fields.
pub record WorkloadRequest : Type 0 where
  pub workload : Option WorkloadRef
  pub network : Option NetworkRef

-- `&s[..n]` and `&s[1..]` of text that is ASCII.
abbrev pub take : ℕ → String → String
take zero s = ""
take (suc n) String.[] = ""
take (suc n) (String.◌∷◌ c s) = String.◌∷◌ c (take n s)

abbrev pub drop_first : String → String
drop_first String.[] = ""
drop_first (String.◌∷◌ c s) = s

abbrev between : ℕ → ℕ → Char → Bool
between low high c = leb low (code c) && leb (code c) high

-- `is_ascii_alphanumeric() || byte == b'_' || byte == b'-'`.
abbrev interface_char : Char → Bool
interface_char c =
    between 48 57 c
    || (between 65 90 c || (between 97 122 c || (eqb (code c) 95 || eqb (code c) 45)))

abbrev name_char : Char → Bool
name_char c = eqb (code c) 46 || interface_char c

abbrev hex_char : Char → Bool
hex_char c = between 48 57 c || (between 65 70 c || between 97 102 c)

abbrev all_chars : (Char → Bool) → String → Bool
all_chars p String.[] = true
all_chars p (String.◌∷◌ c s) = p c && all_chars p s

abbrev starts_with_v : String → Bool
starts_with_v String.[] = false
starts_with_v (String.◌∷◌ c s) = eqb (code c) 118

abbrev pub is_host_interface_name : String → Bool
is_host_interface_name name =
    eqb (len name) 11 && (starts_with_v name && all_chars hex_char (drop_first name))

unfoldable pub validate_name : String → Result IoError (Unit {0})
validate_name value =
    if eqb (len value) 0 || (ltb 63 (len value) || not (all_chars name_char value))
    then err (input_error "invalid workload or network name")
    else ok tt

-- `FilePath::components`, after the root: empty parts and `.` do not count.
abbrev components : List String → List String
components [] = []
components (s ∷ ss) = let rest = components ss in if (s == "") || (s == ".") then rest else s ∷ rest

abbrev absolute : List String → Option (List String)
absolute [] = none
absolute (s ∷ ss) = if s == "" then some (components ss) else none

abbrev positive : Option ℕ → Option ℕ
positive none = none
positive (some n) = if eqb n 0 then none else some n

-- The process of /proc/<pid>/ns/net. A `..` is no number and no name of the others.
abbrev pid_of : Option (List String) → Option ℕ
pid_of (some (proc ∷ pid ∷ ns ∷ net ∷ [])) =
    if (proc == "proc") && ((ns == "ns") && (net == "net"))
    then positive (parse_number max_u32 pid)
    else none
pid_of _ = none

abbrev default_interface : String → String
default_interface String.[] = "eth0"
default_interface (String.◌∷◌ c s) = String.◌∷◌ c s

unfoldable pub validate_refs :
    Option WorkloadRef → Option NetworkRef → Result IoError (WorkloadRef × NetworkRef)
validate_refs workload network = ok_or workload (input_error "workload is required") >>= λ w.
    ok_or network (input_error "network is required") >>= λ n.
    validate_name w.workload_name
    >> validate_name w.instance_name
    >> validate_name n.network_name
    >> ok (w, n)

unfoldable pub validate_add_request :
    AddWorkloadNetworkRequest → Result IoError (WorkloadRef × NetworkRef × ℕ × String)
validate_add_request request = ok_or request.workload (input_error "workload is required") >>= λ w.
    ok_or request.network (input_error "network is required") >>= λ n.
    validate_name w.workload_name
    >> validate_name w.instance_name
    >> validate_name n.network_name
    >> fail_if (eqb n.vlan_id 0 || ltb 255 n.vlan_id)
        (input_error "network vlan_id must be between 1 and 255")
    >> fail_if
        (ltb 15 (len (default_interface request.interface_name))
          || not (all_chars interface_char (default_interface request.interface_name)))
        (input_error "invalid interface name")
    >> ok_or (pid_of (absolute (split 47 request.netns_path)))
        (input_error "netns_path must be /proc/<pid>/ns/net")
    >>= λ pid. ok (w, n, pid, default_interface request.interface_name)
