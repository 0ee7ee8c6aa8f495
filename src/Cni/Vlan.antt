-- ===== src/Cni/Vlan.antt =====
-- cni/src/network/vlan.rs, bridge.rs, and `node_id` of overlay.rs: the bridge of the node, and an
-- interface of it for each VLAN, which holds the gateway's address. The parser of an IP address of
-- either version, for the list of remote nodes, is a parameter.
use barenetes.Base.{
  ℕ, String, Bool, true, none, some, List, [], ◌∷◌, if◌then◌else◌, Result, ok, err, format,
}
use barenetes.Base.Decimal.{show, parse_number, max_u8, split}
use barenetes.Base.Action.{◌>>=◌, ◌>>◌, pure, lift}
use barenetes.Cni.{Host, Command, IoError, ErrorKind, input_error, other_error}
use barenetes.Cni.Addressing.{gateway, print_ipv4}
use barenetes.Cni.System.{non_empty, mtu, succeeds, run}
use barenetes.Cni.Firewall.{bridge_name, ensure_tenant_nat}

abbrev pub interface_name : ℕ → String
interface_name vlan = format (bridge_name ∷ "." ∷ show vlan ∷ [])

abbrev no_root : IoError
no_root = record {
  kind = ErrorKind.permission_denied;
  message = "CNI network setup requires root privileges";
}

-- `split(',')`, each part an address.
abbrev all_addresses : (String → Bool) → List String → Result IoError (List String)
all_addresses is_address [] = ok []
all_addresses is_address (s ∷ ss) =
    let rest = all_addresses is_address ss in
    if is_address s
    then elim rest [ ok others ↦ ok (s ∷ others) | err e ↦ err e ]
    else err (input_error "invalid remote node IP")

module _ (H : Host) where
  unfoldable pub ensure : ℕ → ℕ → Command H ℕ
  ensure vlan node = do
    let name = interface_name vlan
    run H "bridge" ("vlan" ∷ "add" ∷ "dev" ∷ bridge_name ∷ "vid" ∷ show vlan ∷ "self" ∷ [])
    exists ← succeeds H "ip" ("link" ∷ "show" ∷ "dev" ∷ name ∷ [])
    let add = run H "ip" (
        "link"
        ∷ "add"
        ∷ "link"
        ∷ bridge_name
        ∷ "name"
        ∷ name
        ∷ "type"
        ∷ "vlan"
        ∷ "id"
        ∷ show vlan
        ∷ [])
    if exists then pure tt else add
    let address = format (print_ipv4 (gateway vlan node) ∷ "/16" ∷ [])
    run H "ip" ("address" ∷ "replace" ∷ address ∷ "dev" ∷ name ∷ [])
    interface_mtu ← lift (mtu H)
    run H "ip" ("link" ∷ "set" ∷ "dev" ∷ name ∷ "mtu" ∷ show interface_mtu ∷ [])
    run H "ip" ("link" ∷ "set" ∷ "dev" ∷ name ∷ "up" ∷ [])
    ensure_tenant_nat H vlan node
    pure (gateway vlan node)

  -- The user is root, or not.
  unfoldable ensure_bridge : Bool → Command H (Unit {0})
  ensure_bridge is_root = do
    if is_root then pure tt else lift (err no_root)
    shown ← succeeds H "ip" ("link" ∷ "show" ∷ "dev" ∷ bridge_name ∷ [])
    let add = succeeds H "ip" ("link" ∷ "add" ∷ "name" ∷ bridge_name ∷ "type" ∷ "bridge" ∷ [])
    added ← (if shown then pure true else add)
    let show_again = succeeds H "ip" ("link" ∷ "show" ∷ "dev" ∷ bridge_name ∷ [])
    there ← (if added then pure true else show_again)
    if there then pure tt else lift (err (other_error "failed to create CNI bridge"))
    value ← lift (mtu H)
    run H "ip" ("link" ∷ "set" ∷ "dev" ∷ bridge_name ∷ "mtu" ∷ show value ∷ [])
    run H "ip" ("link" ∷ "set" ∷ "dev" ∷ bridge_name ∷ "up" ∷ [])
    run H "ip"
        ("link" ∷ "set" ∷ "dev" ∷ bridge_name ∷ "type" ∷ "bridge" ∷ "vlan_filtering" ∷ "1" ∷ [])

  unfoldable pub remote_nodes : (String → Bool) → Result IoError (List String)
  remote_nodes is_address = elim (non_empty (H.env "BARENETES_REMOTE_NODE_IPS")) [
    | none ↦ ok []
    | some value ↦ all_addresses is_address (split 44 value)
  ]

  unfoldable pub node_id : (String → Bool) → Result IoError ℕ
  node_id is_address = elim (non_empty (H.env "BARENETES_NODE_ID")) [
    | none ↦ elim (remote_nodes is_address) [
      | ok [] ↦ ok 0
      | ok (_ ∷ _) ↦ err (input_error "BARENETES_NODE_ID is required with remote nodes")
      | err e ↦ err e
    ]
    | some value ↦ elim (parse_number max_u8 value) [
      | none ↦ err (input_error "BARENETES_NODE_ID must be between 0 and 255")
      | some node ↦ ok node
    ]
  ]
