-- ===== src/Identity.antt =====
-- proto/src/tls_identity.rs: who calls a method, by the certificate of the mTLS connection. The
-- X.509 parser is a parameter; of a certificate that it reads, the code looks at the first common
-- name and the first organizational unit, each if it is a string, and at the alternative names.
use barenetes.Base.{
  String, Bool, true, false, Option, none, some, List, [], ◌∷◌, if◌then◌else◌, ◌==◌, string_eq,
  Result, ok, err, format,
}
use barenetes.Api.Status.{Status, permission_denied}

pub data Role : Type 0 where
  api scheduler cli node : Role

pub parse : String → Option Role
parse raw =
    if raw == "api"
    then some Role.api
    else if raw == "scheduler"
    then some Role.scheduler
    else if raw == "cli"
    then some Role.cli
    else if raw == "node"
    then some Role.node
    else none

abbrev pub as_str : Role → String
as_str Role.api = "api"
as_str Role.scheduler = "scheduler"
as_str Role.cli = "cli"
as_str Role.node = "node"

-- The derived `PartialEq`.
abbrev pub role_beq : Role → Role → Bool
role_beq Role.api Role.api = true
role_beq Role.scheduler Role.scheduler = true
role_beq Role.cli Role.cli = true
role_beq Role.node Role.node = true
role_beq _ _ = false

pub data Peer : Type 0 where
  plaintext : Peer
  mtls : Option String → Option Role → Peer

pub data GeneralName : Type 0 where
  dns_name : String → GeneralName
  other_name : GeneralName

pub record Certificate : Type 0 where
  pub common_name : Option String
  pub organizational_unit : Option String
  pub alternative_names : Option (List GeneralName)

pub record X509 : Type 1 where
  pub Leaf : Type 0
  pub parse_certificate : Leaf → Option Certificate

abbrev pub first_dns : List GeneralName → Option String
first_dns [] = none
first_dns (dns_name dns ∷ names) = some dns
first_dns (other_name ∷ names) = first_dns names

pub identity_of : Certificate → Option String
identity_of cert = elim cert.common_name [
  | some cn ↦ some cn
  | none ↦ elim cert.alternative_names [ none ↦ none | some names ↦ first_dns names ]
]

pub role_of : Certificate → Option Role
unfolding parse
role_of cert = elim cert.organizational_unit [ none ↦ none | some ou ↦ parse ou ]

-- The TLS information of the request and its peer certificates, either of which may be missing.
unfoldable pub peer : (X : X509) → Option (Option (List X.Leaf)) → Peer
unfolding identity_of role_of
peer X none = plaintext
peer X (some none) = plaintext
peer X (some (some [])) = plaintext
peer X (some (some (leaf ∷ _))) = elim (X.parse_certificate leaf) [
  | none ↦ mtls none none
  | some cert ↦ mtls (identity_of cert) (role_of cert)
]

abbrev pub identity_mismatch : String → String → Status
identity_mismatch peer_name node_name = permission_denied (
    format (
      "mTLS peer identity \"" ∷ peer_name ∷ "\" does not match claimed node name \"" ∷ node_name
      ∷ "\"" ∷ []))

abbrev pub missing_identity : String → Status
missing_identity node_name = permission_denied (
    format (
      "mTLS peer certificate has no usable CN/SAN identity; refusing to trust its claim to be node \""
      ∷ node_name ∷ "\"" ∷ []))

abbrev pub role_denial : String → String → String
role_denial peer_role expected_role = format (
    "mTLS peer role \"" ∷ peer_role ∷ "\" is not authorized to call this RPC (requires role \""
    ∷ expected_role ∷ "\")" ∷ [])

abbrev pub role_denied : String → String → Status
role_denied peer_role expected_role = permission_denied (role_denial peer_role expected_role)

unfoldable pub check_identity : Peer → String → Result Status (Unit {0})
check_identity plaintext node_name = ok tt
check_identity (mtls (some identity) _) node_name =
    if identity == node_name then ok tt else err (identity_mismatch identity node_name)
check_identity (mtls none _) node_name = err (missing_identity node_name)

unfoldable pub check_role : Peer → Role → Result Status (Unit {0})
check_role plaintext expected = ok tt
check_role (mtls _ (some role)) expected =
    if role_beq role expected then ok tt else err (role_denied (as_str role) (as_str expected))
check_role (mtls _ none) expected = err (role_denied "<none>" (as_str expected))
