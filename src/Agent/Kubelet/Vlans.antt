-- ===== src/Agent/Kubelet/Vlans.antt =====
-- The VLANs of the pods that are applied and deleted.
use barenetes.Base.{
  ℕ, String, Bool, true, Option, none, some, List, [], ◌∷◌, ◌≡◌, ◌≢◌, refl, sym, ap, ◌∙◌, subst,
  format, Result, ok, string_eq, arith, inl, inr, Bool-cases, ◌==◌, Result-cases,
}
use barenetes.Base.Map.{lookup, remove, lookup-remove, lookup-remove_self}
use barenetes.Shared.{Container, Pod, PodSpec, PodWithSpec}
use barenetes.Api.Status.{Status}
use barenetes.Identity.{Peer, Role, check_role}
use barenetes.Cni.Workload.Validation.{WorkloadRef, NetworkRef}
use barenetes.Agent.{Platform, Agent}
use barenetes.Agent.Vlan.{allocate_for}
use barenetes.Agent.Vlan.Allocations.{
  IsVlanMap, remove-IsVlanMap, allocate_for-IsVlanMap, allocate_for-lookup, allocate_for-others,
  release-allocations,
}
use barenetes.Agent.Cgroup as Cgroup
use barenetes.Agent.Kubelet.{
  delete_network, detach, names_of, rollback, start, apply_checked, apply_pod, delete_checked,
  delete_pod, check_request, pod_id, container_names, vlan_or_zero, namespace_of,
}

detach-ok :
    (P : Platform) (id namespace : String) (vlan : ℕ) (names : List String) (system : P.System)
    → (detach P id namespace vlan names system).1 ≡ ok tt
unfolding detach
detach-ok P id namespace vlan [] system = refl
detach-ok P id namespace vlan (name ∷ names) system =
    let workload : WorkloadRef = record { workload_name = id; instance_name = namespace } in
    let network : NetworkRef = record { network_name = name; vlan_id = vlan } in
    detach-ok P id namespace vlan names (delete_network P workload network system).0

-- What a call for a pod leaves: the VLANs are sound, and the other pods keep theirs.
pub record Respects {P : Platform} (id : String) (s s' : Agent P) : Type 0 where
  pub sound : IsVlanMap s.allocations → IsVlanMap s'.allocations
  pub others :
      (other : String) → id ≢ other → lookup other s'.allocations ≡ lookup other s.allocations

module _ {P : Platform} where
  Respects-refl : (id : String) (s s' : Agent P) → s'.allocations ≡ s.allocations → Respects id s s'
  Respects-refl id s s' same = record {
    sound = λ h. subst IsVlanMap (sym same) h;
    others = λ other ne. ap (lookup other) same;
  }

  Respects-allocate_for : (id : String) (s : Agent P) → Respects id s (allocate_for id s).0
  Respects-allocate_for id s = record {
    sound = allocate_for-IsVlanMap id s;
    others = λ other ne. allocate_for-others id other s ne;
  }

  Respects-remove :
      (id : String) (s s' : Agent P) → s'.allocations ≡ remove id s.allocations → Respects id s s'
  Respects-remove id s s' gone = record {
    sound = λ h. subst IsVlanMap (sym gone) (remove-IsVlanMap id s.allocations h);
    others = λ other ne.
        ap (lookup other) gone
        ∙ ground (arith, lookup-remove id other s.allocations, string_eq.beq_iff id other, ne);
  }

  Respects-trans :
      (id : String) (s s' s'' : Agent P) → Respects id s s' → Respects id s' s'' → Respects id s s''
  Respects-trans id s s' s'' a b = record {
    sound = λ h. b.sound (a.sound h);
    others = λ other ne. b.others other ne ∙ a.others other ne;
  }

  rollback-allocations :
      (id namespace : String) (containers : List Container) (vlan : ℕ) (s : Agent P)
      → ((rollback id namespace containers vlan s).0.allocations ≡ remove id s.allocations)
        × ((rollback id namespace containers vlan s).1 ≡ ok tt)
  unfolding rollback
  rollback-allocations id namespace containers vlan s =
      let gone = (detach P id namespace vlan (names_of containers) s.system).0 in
      let down = (P.remove_containers id 5 true gone).0 in
      let t : Agent P = record s { system = (Cgroup.remove_pod P id down).0 } in
      (
        ground (
          arith,
          detach-ok P id namespace vlan (names_of containers) s.system,
          release-allocations id t,
        ),
        ground (arith, detach-ok P id namespace vlan (names_of containers) s.system),
      )

  -- However applying a pod ends, the other pods keep their VLANs, and the map of VLANs stays
  -- sound; when it succeeds, the pod has a VLAN.
  pub apply_checked_lem :
      (core : Pod) (spec : PodSpec) (namespace id : String) (s : Agent P)
      → Respects id s (apply_checked core spec namespace id s).0
        × ((ip : Option String)
            → (apply_checked core spec namespace id s).1 ≡ ok ip
            → (vlan : ℕ) × (lookup id (apply_checked core spec namespace id s).0.allocations
                ≡ some vlan))
  unfolding apply_checked
  apply_checked_lem core spec namespace id s = elim (Result-cases (allocate_for id s).1) [
    | inl (e, a) ↦ (kept (ground (arith, a)), λ ip answered. (0, ground (arith, a, answered)))
    | inr (vlan, a) ↦
        let s1 = (allocate_for id s).0 in
        elim (Result-cases (P.remove_containers id 30 true s1.system).1) [
          | inl (e, r) ↦
              (kept (ground (arith, a, r)), λ ip answered. (0, ground (arith, a, r, answered)))
          | inr (_, r) ↦
              let cleared = (P.remove_containers id 30 true s1.system).0 in
              let started = start P core spec namespace id vlan cleared in
              let s3 : Agent P = record s1 { system = started.0 } in
              let (gone, done) = rollback-allocations id namespace spec.containers vlan s3 in
              elim (Result-cases started.1) [
                | inl (e, b) ↦ (
                  Respects-trans id s s1 _ (Respects-allocate_for id s)
                      (Respects-remove id s1 _ (ground (arith, a, r, b, gone, done))),
                  λ ip answered. (0, ground (arith, a, r, b, done, answered)),
                )
                | inr (ip, b) ↦ (
                  kept (ground (arith, a, r, b)),
                  λ _ answered. (vlan, ground (arith, a, r, b, allocate_for-lookup id s a)),
                )
              ]
        ]
  ]
    where
      kept : {s' : Agent P} → s'.allocations ≡ (allocate_for id s).0.allocations → Respects id s s'
      kept {s'} same =
          Respects-trans id s (allocate_for id s).0 s' (Respects-allocate_for id s)
            (Respects-refl id (allocate_for id s).0 s' same)

  apply_pod_sound :
      (peer : Peer) (request : Option PodWithSpec) (s : Agent P)
      → IsVlanMap s.allocations
      → IsVlanMap (apply_pod peer request s).0.allocations
  unfolding apply_pod
  apply_pod_sound peer request s h = elim (Result-cases (check_role peer Role.node)) [
    | inl (e, c) ↦ subst (λ m. IsVlanMap m) (ground (arith, c)) h
    | inr (_, c) ↦ elim (Result-cases (check_request request)) [
      | inl (e, r) ↦ subst (λ m. IsVlanMap m) (ground (arith, c, r)) h
      | inr ((core, spec, namespace), r) ↦
          let id = pod_id namespace core.name in
          subst (λ m. IsVlanMap m) (ground (arith, c, r))
            ((apply_checked_lem core spec namespace id s).0.sound h)
    ]
  ]

  delete_checked_lem :
      (id : String) (period : ℕ) (force : Bool) (s : Agent P)
      → Respects id s (delete_checked id period force s).0
        × ((done : Bool)
            → (delete_checked id period force s).1 ≡ ok done
            → lookup id (delete_checked id period force s).0.allocations ≡ none)
  unfolding delete_checked
  delete_checked_lem id period force s = elim (Result-cases (P.pod_container_ids id s.system).1) [
    | inl (e, i) ↦
        (Respects-refl id s _ (ground (arith, i)), λ done answered. ground (arith, i, answered))
    | inr (ids, i) ↦
        let listed = (P.pod_container_ids id s.system).0 in
        let names = container_names (format (id ∷ "-" ∷ [])) ids in
        let vlan = vlan_or_zero id s in
        let off = detach-ok P id (namespace_of id) vlan names listed in
        let apart = (detach P id (namespace_of id) vlan names listed).0 in
        elim (Result-cases (P.remove_containers id period force apart).1) [
          | inl (e, r) ↦ (
            Respects-refl id s _ (ground (arith, i, off, r)),
            λ done answered. ground (arith, i, off, r, answered),
          )
          | inr (_, r) ↦
              let removed = (P.remove_containers id period force apart).0 in
              let t : Agent P = record s { system = (Cgroup.remove_pod P id removed).0 } in
              let gone = release-allocations id t in
              (
                Respects-remove id s _ (ground (arith, i, off, r, gone)),
                λ done answered.
                    ground (arith, i, off, r, gone, lookup-remove_self id s.allocations),
              )
        ]
  ]

  -- However deleting a pod ends, the other pods keep their VLANs, and the map of VLANs stays
  -- sound; when it succeeds, the pod has no VLAN.
  pub delete_pod_lem :
      (peer : Peer) (id : String) (grace : Option ℕ) (force : Bool) (s : Agent P)
      → Respects id s (delete_pod peer id grace force s).0
        × ((done : Bool)
            → (delete_pod peer id grace force s).1 ≡ ok done
            → lookup id (delete_pod peer id grace force s).0.allocations ≡ none)
  unfolding delete_pod
  delete_pod_lem peer id grace force s = elim (Result-cases (check_role peer Role.node)) [
    | inl (e, c) ↦
        (Respects-refl id s _ (ground (arith, c)), λ done answered. ground (arith, c, answered))
    | inr (_, c) ↦ elim (Bool-cases (id == "")) [
      | inl empty ↦ (
        Respects-refl id s _ (ground (arith, c, empty)),
        λ done answered. ground (arith, c, empty, answered),
      )
      | inr named ↦
          let period : ℕ = elim grace [ none ↦ 30 | some n ↦ n ] in
          subst
            (λ (x : Agent P × Result Status Bool).
              Respects id s x.0
              × ((done : Bool) → x.1 ≡ ok done → lookup id x.0.allocations ≡ none))
            (ground (arith, c, named)) (delete_checked_lem id period force s)
    ]
  ]

-- One call that the agent serves, and what a run of calls from an empty map reaches.
pub data Step {P : Platform} (s : Agent P) : Agent P → Type 0 where
  apply : (peer : Peer) (request : Option PodWithSpec) → Step s (apply_pod peer request s).0
  delete :
      (peer : Peer) (id : String) (grace : Option ℕ) (force : Bool)
      → Step s (delete_pod peer id grace force s).0

pub data Reach {P : Platform} : Agent P → Type 0 where
  start_up : (system : P.System) → Reach (record { system = system; allocations = [] })
  call : {s s' : Agent P} → Reach s → Step s s' → Reach s'

-- Whatever pods an agent that starts without VLANs applies and deletes, and whatever its node
-- answers: every VLAN that it holds is between 2 and 4094, and no two pods share one.
pub Reach-IsVlanMap : {P : Platform} {s : Agent P} → Reach s → IsVlanMap s.allocations
Reach-IsVlanMap (start_up system) = record {
  distinct = tt;
  in_range = λ pod vlan h. cc;
  own = λ pod other vlan h g. cc;
}
Reach-IsVlanMap (call {s = s} r (apply peer request)) =
    apply_pod_sound peer request s (Reach-IsVlanMap r)
Reach-IsVlanMap (call {s = s} r (delete peer id grace force)) =
    (delete_pod_lem peer id grace force s).0.sound (Reach-IsVlanMap r)
