-- ===== src/Api/Handlers.antt =====
-- api/src/handlers: the methods of the gRPC service. A handler is a method of the store that fails
-- with a status.
pub mod Cli
pub mod Scheduler
pub mod Agent
use barenetes.Base.{Option, none, some, Result, ok, err}
use barenetes.Api.Status.{Status, StoreError, to_status}
use barenetes.Api.Store.{Etcd, Store, Action, Method}

abbrev pub Handler : Etcd → Type 0 → Type 0
Handler E A = Action (Store E) Status A

-- `map_err(|e| e.to_status())`.
abbrev pub reply : {E : Etcd} {A : Type 0} → Method E A → Handler E A
reply m s = let (s', r) = m s in (s', elim r [ ok a ↦ ok a | err e ↦ err (to_status e) ])
