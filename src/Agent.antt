-- ===== src/Agent.antt =====
-- agent/src: the agent of a node. The node is a parameter: the client of containerd, whose methods
-- stand for those of containerd.rs, the connection to the CNI daemon, and the file system. What an
-- agent keeps between calls is the VLAN of each pod.
pub mod Vlan
pub mod Cgroup
pub mod Kubelet
mod Tests
use barenetes.Base.{ℕ, String, Bool, Option, List, Result}
use barenetes.Base.Map.{Map}
use barenetes.Base.Action.{Action}
use barenetes.Shared.{Container}
use barenetes.Api.Status.{Status}
use barenetes.Cni.{FilePath}
use barenetes.Cni.Workload.Validation.{AddWorkloadNetworkRequest, WorkloadRequest, WorkloadNetwork}

pub record Platform : Type 1 where
  pub System : Type 0
  -- containerd.rs
  pub run_container : String → Container → System → System × Result Status ℕ
  pub remove_containers : String → ℕ → Bool → System → System × Result Status (Unit {0})
  pub pod_container_ids : String → System → System × Result Status (List String)
  -- the client that tonic generates for the CNI daemon
  pub connect : System → System × Result String (Unit {0})
  pub call_add :
      AddWorkloadNetworkRequest → System → System × Result Status (Option WorkloadNetwork)
  pub call_delete : WorkloadRequest → System → System × Result Status Bool
  -- std::fs, with the error's text
  pub exists : FilePath → System → Bool
  pub create_dir_all : FilePath → System → System × Result String (Unit {0})
  pub write : FilePath → String → System → System × Result String (Unit {0})
  pub remove_leaves : FilePath → System → System
  pub remove_dir : FilePath → System → System × Result String Bool
  -- serde_json on the map of VLANs
  pub encode : Map String ℕ → Result String String

pub record Agent (P : Platform) : Type 0 where
  pub system : P.System
  pub allocations : Map String ℕ

abbrev pub Task : Platform → Type 0 → Type 0 → Type 0
Task P Error A = Action (Agent P) Error A

abbrev pub on_system :
    {P : Platform} {Error A : Type 0} → (P.System → P.System × Result Error A) → Task P Error A
on_system f s = let (system, r) = f s.system in (record s { system = system }, r)
