-- ===== src/Agent/Cgroup.antt =====
-- agent/src/cgroup.rs: the cgroup of a pod, and the limits that are written to it. A limit is the
-- bit pattern of an `i32`.
pub mod Bounds
use barenetes.Base.{
  ℕ, String, Bool, true, false, Option, none, some, List, [], ◌∷◌, if◌then◌else◌, ltb, eqb, ◌||◌,
  ◌&&◌, not, Result, ok, err, format, ◌+◌, ◌*◌, ◌/◌, ◌≤◌, ◌<◌, ◌≡◌, arith,
}
use Prim.Native.Char.{Char, code}
use barenetes.Base.Int32.{i32_positive}
use barenetes.Base.Decimal.{show, lacks}
use barenetes.Base.Action.{Action, ◌>>=◌, ◌>>◌, pure, lift, modify}
use barenetes.Shared.{Resources}
use barenetes.Cni.{FilePath}
use barenetes.Agent.{Platform}

abbrev pub cgroup_root : FilePath
cgroup_root = "cgroup" ∷ "fs" ∷ "sys" ∷ []

abbrev pub slice : String
slice = "barenetes"

-- `CPU_PERIOD` and `CPU_MIN_QUOTA`.
abbrev pub cpu_period : ℕ
cpu_period = 100000

abbrev pub cpu_min_quota : ℕ
cpu_min_quota = 1000

abbrev pub pod_path : String → String
pod_path pod_id = format ("/" ∷ slice ∷ "/" ∷ pod_id ∷ [])

abbrev pub only_dots : String → Bool
only_dots String.[] = true
only_dots (String.◌∷◌ c s) = eqb (code c) 46 && only_dots s

-- No path out of the slice: not empty, no `/`, not only dots.
unfoldable pub pod_dir : String → Result String FilePath
pod_dir pod_id =
    if not (lacks 47 pod_id) || only_dots pod_id
    then err (format (pod_id ∷ " is not a usable cgroup name" ∷ []))
    else ok (pod_id ∷ slice ∷ cgroup_root)

abbrev positive : ℕ → Option ℕ
positive n = if i32_positive n then some n else none

abbrev pub cpu_quota : ℕ → ℕ
cpu_quota cpu =
    if ltb (cpu * cpu_period / 1000) cpu_min_quota then cpu_min_quota else cpu * cpu_period / 1000

abbrev pub cpu_max : ℕ → String
cpu_max cpu = format (show (cpu_quota cpu) ∷ " " ∷ show cpu_period ∷ [])

abbrev pub memory_bytes : ℕ → ℕ
memory_bytes memory = memory * 1024 * 1024

abbrev pub cpu_limit : Option Resources → Option ℕ
cpu_limit none = none
cpu_limit (some limits) = positive limits.cpu

abbrev pub memory_limit : Option Resources → Option ℕ
memory_limit none = none
memory_limit (some limits) = positive limits.memory

unfoldable pub limit_files : Option Resources → List (String × String)
limit_files limits =
    (
      "cpu.max",
      elim (cpu_limit limits) [
        | none ↦ format ("max " ∷ show cpu_period ∷ [])
        | some cpu ↦ cpu_max cpu
      ],
    )
    ∷ (
      "memory.max",
      elim (memory_limit limits) [ none ↦ "max" | some memory ↦ show (memory_bytes memory) ],
    )
    ∷ ("memory.swap.max", elim (memory_limit limits) [ none ↦ "max" | some _ ↦ "0" ])
    ∷ []

-- `filter(|limits| limits.cpu > 0 || limits.memory > 0)`.
abbrev pub enforced : Option Resources → Option Resources
enforced none = none
enforced (some limits) =
    if i32_positive limits.cpu || i32_positive limits.memory then some limits else none

abbrev is_none : Option Resources → Bool
is_none none = true
is_none (some _) = false

module _ (P : Platform) where
  abbrev mkdir : FilePath → Action P.System String (Unit {0})
  mkdir path = P.create_dir_all path

  abbrev delegate : FilePath → Action P.System String (Unit {0})
  delegate cgroup = P.write ("cgroup.subtree_control" ∷ cgroup) "+cpu +memory"

  abbrev write_each : FilePath → List (String × String) → Action P.System String (Unit {0})
  write_each pod [] = pure tt
  write_each pod (f ∷ files) = P.write (f.0 ∷ pod) f.1 >> write_each pod files

  abbrev set_up : FilePath → Option Resources → Action P.System String (Unit {0})
  set_up pod limits = do
    there ← (λ s. (s, ok (P.exists ("cgroup.controllers" ∷ cgroup_root) s)))
    let no_hierarchy = err "resource limits need a cgroup v2 hierarchy mounted at /sys/fs/cgroup"
    lift (if there then ok tt else no_hierarchy)
    mkdir (slice ∷ cgroup_root)
    delegate cgroup_root
    delegate (slice ∷ cgroup_root)
    mkdir pod
    write_each pod (limit_files limits)

  unfoldable pub create_pod : String → Option Resources → Action P.System String (Unit {0})
  create_pod pod_id limits = do
    pod ← lift (pod_dir pod_id)
    left_over ← (λ s. (s, ok (P.exists pod s)))
    let idle = is_none (enforced limits) && not left_over
    if idle then pure tt else set_up pod (enforced limits)

  -- A directory that is not there counts as removed.
  unfoldable pub remove_pod : String → Action P.System String (Unit {0})
  remove_pod pod_id = do
    pod ← lift (pod_dir pod_id)
    modify (P.remove_leaves pod)
    P.remove_dir pod
    pure tt
