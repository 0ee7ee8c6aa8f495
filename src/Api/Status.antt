-- ===== src/Api/Status.antt =====
-- api/src/errors.rs: the gRPC statuses that the handlers answer with, and `StoreError` of
-- api/src/store.rs.
use Prim.Native.String.{◌++◌ as str_append}
use barenetes.Base.{String}

pub data Status : Type 0 where
  invalid_argument not_found already_exists permission_denied unavailable internal : String → Status

abbrev pub pod_not_found : String → String → Status
pod_not_found namespace name =
    not_found
      (str_append "pod " (str_append namespace (str_append "/" (str_append name " not found"))))

abbrev pub node_not_found : String → Status
node_not_found name = not_found (str_append "node " (str_append name " not found"))

abbrev pub missing_node : String → Status
missing_node name = invalid_argument (str_append "missing node " name)

abbrev pub pod_already_exists : String → String → Status
pod_already_exists namespace name =
    already_exists (
      str_append "pod " (str_append namespace (str_append "/" (str_append name " already exists"))))

pub data StoreError : Type 0 where
  connection decode : String → StoreError

abbrev pub to_status : StoreError → Status
to_status (connection msg) = unavailable msg
to_status (decode msg) = internal msg
