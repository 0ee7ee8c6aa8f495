-- ===== src/Cni/Firewall.antt =====
-- cni/src/network/firewall.rs: the rules of iptables.
pub mod Mappings
use barenetes.Base.{
  ℕ, String, Bool, true, false, Option, none, some, List, [], ◌∷◌, ◌++◌, if◌then◌else◌, ltb, eqb,
  ◌||◌, ◌&&◌, not, any, ◌==◌, string_eq, Result, ok, err, fail_if, format,
}
use barenetes.Base.Decimal.{show}
use barenetes.Base.Action.{◌>>=◌, ◌>>◌, pure, lift, attempt, each}
use barenetes.Shared.{Port, Protocol}
use barenetes.Cni.{Host, Command, IoError, input_error}
use barenetes.Cni.System.{succeeds, run}

abbrev iptables : String
iptables = "iptables"

abbrev forward_chain : String
forward_chain = "BARENETES-FORWARD"

abbrev pub prerouting_chain : String
prerouting_chain = "BARENETES-PREROUTING"

abbrev pub output_chain : String
output_chain = "BARENETES-OUTPUT"

abbrev tenant_interfaces : String
tenant_interfaces = "barenetes0.+"

-- `BRIDGE_NAME` of bridge.rs.
abbrev pub bridge_name : String
bridge_name = "barenetes0"

-- `rule[2] = action`.
abbrev pub set_action : String → List String → List String
set_action action (a ∷ b ∷ c ∷ rest) = a ∷ b ∷ action ∷ rest
set_action action rule = rule

-- The first "-C" becomes "-A", or "-I" with the position 1 after the chain.
abbrev appended : List String → List String
appended [] = []
appended (a ∷ rest) = let others = appended rest in if a == "-C" then "-A" ∷ rest else a ∷ others

abbrev at_front : List String → List String
at_front [] = "1" ∷ []
at_front (chain ∷ rest) = chain ∷ "1" ∷ rest

abbrev inserted : List String → List String
inserted [] = []
inserted (a ∷ rest) =
    let others = inserted rest in if a == "-C" then "-I" ∷ at_front rest else a ∷ others

-- `Protocol::try_from`.
abbrev pub protocol_of : ℕ → Option Protocol
protocol_of n = if eqb n 0 then some Protocol.tcp else if eqb n 1 then some Protocol.udp else none

abbrev pub port_ok : ℕ → Bool
port_ok n = not (eqb n 0) && not (ltb 65535 n)

abbrev pub known_protocol : ℕ → Bool
known_protocol n = elim (protocol_of n) [ none ↦ false | some _ ↦ true ]

-- The set of the host ports met so far, with their protocols.
abbrev pub has_port : ℕ × ℕ → List (ℕ × ℕ) → Bool
has_port p [] = false
has_port p (q ∷ ports) = (eqb p.0 q.0 && eqb p.1 q.1) || has_port p ports

abbrev pub validate_from : List (ℕ × ℕ) → List Port → Result IoError (Unit {0})
validate_from host_ports [] = ok tt
validate_from host_ports (m ∷ mappings) =
    let rest = validate_from ((m.protocol, m.external) ∷ host_ports) mappings in
    if not (port_ok m.external && port_ok m.internal)
    then err (input_error "ports must be between 1 and 65535")
    else if not (known_protocol m.protocol)
    then err (input_error "port protocol must be TCP or UDP")
    else if has_port (m.protocol, m.external) host_ports
    then err (input_error "duplicate host port mapping")
    else rest

unfoldable pub validate_mappings : List Port → Result IoError (Unit {0})
validate_mappings = validate_from []

-- `fn protocol`.
abbrev pub protocol_name : Port → Result IoError String
protocol_name mapping = elim (protocol_of mapping.protocol) [
  | some Protocol.tcp ↦ ok "tcp"
  | some Protocol.udp ↦ ok "udp"
  | none ↦ err (input_error "invalid port protocol")
]

abbrev pub mapping_rule : String → Bool → String → String → String → List String
mapping_rule chain ingress protocol host destination =
    "-t" ∷ "nat" ∷ "-C" ∷ chain ∷ (if ingress then "!" ∷ "-i" ∷ bridge_name ∷ [] else [])
    ++ ("-p" ∷ protocol ∷ "--dport" ∷ host ∷ "-j" ∷ "DNAT" ∷ "--to-destination" ∷ destination ∷ [])

-- The rules of a mapping, each as the check for it.
abbrev pub prerouting_rule : String → Port → String → List String
prerouting_rule address mapping protocol =
    mapping_rule prerouting_chain true protocol (show mapping.external)
      (format (address ∷ ":" ∷ show mapping.internal ∷ []))

abbrev pub output_rule : String → Port → String → List String
output_rule address mapping protocol =
    mapping_rule output_chain false protocol (show mapping.external)
      (format (address ∷ ":" ∷ show mapping.internal ∷ []))

module _ (H : Host) where
  unfoldable ensure_chain : String → String → Command H (Unit {0})
  ensure_chain table chain = do
    exists ← succeeds H iptables ("-t" ∷ table ∷ "-S" ∷ chain ∷ [])
    if exists then pure tt else run H iptables ("-t" ∷ table ∷ "-N" ∷ chain ∷ [])

  abbrev drop_jump : String → String → String → Command H (Unit {0})
  drop_jump table parent chain = do
    unscoped ← succeeds H iptables ("-t" ∷ table ∷ "-C" ∷ parent ∷ "-j" ∷ chain ∷ [])
    let delete = run H iptables ("-t" ∷ table ∷ "-D" ∷ parent ∷ "-j" ∷ chain ∷ [])
    if unscoped then delete else pure tt

  abbrev is_empty_list : List String → Bool
  is_empty_list [] = true
  is_empty_list (_ ∷ _) = false

  unfoldable ensure_jump : String → String → String → List String → Command H (Unit {0})
  ensure_jump table parent chain match_args = do
    let scoped_check = "-t" ∷ table ∷ "-C" ∷ parent ∷ match_args ++ ("-j" ∷ chain ∷ [])
    present ← succeeds H iptables scoped_check
    if present then run H iptables (set_action "-D" scoped_check) else pure tt
    if is_empty_list match_args then pure tt else drop_jump table parent chain
    run H iptables ("-t" ∷ table ∷ "-I" ∷ parent ∷ "1" ∷ match_args ++ ("-j" ∷ chain ∷ []))

  unfoldable pub ensure_rule : List String → Command H (Unit {0})
  ensure_rule check = do
    present ← succeeds H iptables check
    if present then pure tt else run H iptables (appended check)

  unfoldable ensure_rule_first : List String → Command H (Unit {0})
  ensure_rule_first check = do
    present ← succeeds H iptables check
    if present then pure tt else run H iptables (inserted check)

  abbrev forward : List String → List String
  forward rule = "-t" ∷ "filter" ∷ "-C" ∷ forward_chain ∷ rule

  unfoldable ensure_egress : Command H (Unit {0})
  ensure_egress = do
    run H "sysctl" ("-q" ∷ "-w" ∷ "net.ipv4.ip_forward=1" ∷ [])
    ensure_chain "nat" prerouting_chain
    ensure_jump "nat" "PREROUTING" prerouting_chain []
    ensure_chain "nat" output_chain
    ensure_jump "nat" "OUTPUT" output_chain ("-m" ∷ "addrtype" ∷ "--dst-type" ∷ "LOCAL" ∷ [])
    ensure_chain "filter" forward_chain
    ensure_jump "filter" "FORWARD" forward_chain []
    ensure_rule_first
        (forward ("-i" ∷ tenant_interfaces ∷ "-o" ∷ tenant_interfaces ∷ "-j" ∷ "DROP" ∷ []))
    ensure_rule
        (forward ("-m" ∷ "conntrack" ∷ "--ctstate" ∷ "ESTABLISHED,RELATED" ∷ "-j" ∷ "ACCEPT" ∷ []))
    ensure_rule (forward ("-i" ∷ tenant_interfaces ∷ "-j" ∷ "ACCEPT" ∷ []))
    ensure_rule (forward ("-o" ∷ tenant_interfaces ∷ "-j" ∷ "ACCEPT" ∷ []))
    ensure_rule (forward ("-i" ∷ bridge_name ∷ "-j" ∷ "ACCEPT" ∷ []))
    ensure_rule (forward ("-o" ∷ bridge_name ∷ "-j" ∷ "ACCEPT" ∷ []))

  unfoldable pub ensure_tenant_nat : ℕ → ℕ → Command H (Unit {0})
  ensure_tenant_nat vlan node = ensure_rule (
      "-t"
      ∷ "nat"
      ∷ "-C"
      ∷ "POSTROUTING"
      ∷ "-s"
      ∷ format ("10." ∷ show vlan ∷ "." ∷ show node ∷ ".0/24" ∷ [])
      ∷ "!"
      ∷ "-o"
      ∷ "barenetes0+"
      ∷ "-j"
      ∷ "MASQUERADE"
      ∷ [])

  unfoldable pub ensure_mapping_rule : List String → Command H (Unit {0})
  ensure_mapping_rule rule = do
    present ← succeeds H iptables rule
    if present then pure tt else run H iptables (set_action "-A" rule)

  unfoldable pub delete_mapping_rule : List String → Command H (Unit {0})
  delete_mapping_rule rule = do
    present ← succeeds H iptables rule
    if present then run H iptables (set_action "-D" rule) else pure tt

  unfoldable pub add_mapping : String → Port → Command H (Unit {0})
  add_mapping address mapping = do
    protocol ← lift (protocol_name mapping)
    ensure_mapping_rule (prerouting_rule address mapping protocol)
    ensure_mapping_rule (output_rule address mapping protocol)

  unfoldable pub delete_mapping : String → Port → Command H (Unit {0})
  delete_mapping address mapping = do
    protocol ← lift (protocol_name mapping)
    delete_mapping_rule (prerouting_rule address mapping protocol)
    delete_mapping_rule (output_rule address mapping protocol)

  -- What was installed goes again, whether that fails or not.
  abbrev undo : String → List Port → Command H (Unit {0})
  undo address [] = pure tt
  undo address (m ∷ installed) = attempt (delete_mapping address m) >> undo address installed

  unfoldable pub install : String → List Port → List Port → Command H (Unit {0})
  install address installed [] = pure tt
  install address installed (m ∷ mappings) = do
    added ← attempt (add_mapping address m)
    elim added [
      | ok _ ↦ install address (installed ++ m ∷ []) mappings
      | err e ↦ undo address installed >> lift (err e)
    ]

  unfoldable pub add_mappings : String → List Port → Command H (Unit {0})
  add_mappings address mappings = do lift (validate_mappings mappings); install address [] mappings

  unfoldable pub delete_mappings : String → List Port → Command H (Unit {0})
  delete_mappings address mappings = each (delete_mapping address) mappings
