-- ===== src/Agent/Vlan.antt =====
-- agent/src/vlan.rs: the VLAN of each pod. What is in memory changes first, and the file after it.
pub mod Allocations
use barenetes.Base.{
  ℕ, String, Bool, true, false, Option, none, some, List, [], ◌∷◌, if◌then◌else◌, Result, ok, err,
  string_eq,
}
use barenetes.Base.Map.{Map, lookup, insert, remove}
use barenetes.Base.Range.{find_free}
use barenetes.Base.Action.{◌>>=◌, ◌>>◌, pure, lift, modify}
use barenetes.Cni.{FilePath}
use barenetes.Agent.{Platform, Agent, Task, on_system}

abbrev pub first_vlan : ℕ
first_vlan = 2

abbrev pub last_vlan : ℕ
last_vlan = 4094

abbrev pub used_vlans : Map String ℕ → List ℕ
used_vlans [] = []
used_vlans ((pod, vlan) ∷ m) = vlan ∷ used_vlans m

abbrev pub vlans_directory : FilePath
vlans_directory = "agent" ∷ "barenetes" ∷ "lib" ∷ "var" ∷ []

unfoldable pub save : {P : Platform} → Task P String (Unit {0})
save {P} s =
    (do
      on_system (P.create_dir_all vlans_directory)
      bytes ← lift (P.encode s.allocations)
      on_system (P.write ("vlans.json" ∷ vlans_directory) bytes))
      s

-- The lowest VLAN that no pod has.
abbrev pub free_vlan : Map String ℕ → Option ℕ
free_vlan m = find_free 4093 first_vlan (used_vlans m)

unfoldable pub claim : {P : Platform} → String → ℕ → Task P String ℕ
claim pod_id vlan = do
  modify (λ s. record s { allocations = insert pod_id vlan s.allocations })
  save
  pure vlan

unfoldable pub allocate_for : {P : Platform} → String → Task P String ℕ
allocate_for pod_id s = elim (lookup pod_id s.allocations) [
  | some vlan ↦ (s, ok vlan)
  | none ↦ elim (free_vlan s.allocations) [
    | none ↦ (s, err "no free vlan left")
    | some vlan ↦ claim pod_id vlan s
  ]
]

unfoldable pub release : {P : Platform} → String → Task P String (Unit {0})
release pod_id s = elim (lookup pod_id s.allocations) [
  | none ↦ (s, ok tt)
  | some _ ↦ (do modify (λ t. record t { allocations = remove pod_id t.allocations }); save) s
]

abbrev pub vlan_of : {P : Platform} → String → Agent P → Option ℕ
vlan_of pod_id s = lookup pod_id s.allocations
