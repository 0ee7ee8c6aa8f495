-- ===== src/Cni/Handler.antt =====
-- cni/src/runtime/handler.rs: the three calls of the service. A call takes the lock, which may be
-- poisoned, works on a blocking thread, and turns an error into a status.
use barenetes.Base.{String, Bool, Option, some, ok, err, if◌then◌else◌}
use barenetes.Base.Action.{Action, ◌>>=◌, pure}
use barenetes.Api.Status.{Status, invalid_argument, not_found, internal}
use barenetes.Cni.{Host, World, Io, IoError, ErrorKind, other_error}
use barenetes.Cni.Pool.{IpPoolDirectory}
use barenetes.Cni.State.{StateStore}
use barenetes.Cni.Workload.{add_workload_network, get_workload_network, delete_workload_network}
use barenetes.Cni.Workload.Validation.{AddWorkloadNetworkRequest, WorkloadRequest, WorkloadNetwork}

pub record CniRpcService : Type 0 where
  pub pools : IpPoolDirectory
  pub state : StateStore
  pub poisoned : Bool

abbrev status_from_io : IoError → Status
status_from_io e = elim e.kind [
  | ErrorKind.invalid_input ↦ invalid_argument e.message
  | ErrorKind.not_found ↦ not_found e.message
  | _ ↦ internal "workload network operation failed"
]

-- The operation under the lock.
abbrev pub locked : {H : Host} {A : Type 0} → CniRpcService → Io H A → Action (World H) Status A
locked service operation w =
    if service.poisoned
    then (w, err (status_from_io (other_error "CNI operation lock is poisoned")))
    else ((operation w).0, elim (operation w).1 [ ok a ↦ ok a | err e ↦ err (status_from_io e) ])

module _ {H : Host} (service : CniRpcService) where
  unfoldable add :
      (String → Bool) → AddWorkloadNetworkRequest → Action (World H) Status (Option WorkloadNetwork)
  add is_address request = do
    network ← locked service (add_workload_network is_address request service.pools service.state)
    pure (some network)

  unfoldable pub remove : WorkloadRequest → Action (World H) Status Bool
  remove request = locked service (delete_workload_network request service.pools service.state)

  unfoldable get : WorkloadRequest → Action (World H) Status (Option WorkloadNetwork)
  get request = do
    network ← locked service (get_workload_network request service.state)
    pure (some network)
