-- ===== src/Api/Service/Impersonation.antt =====
-- api/src/handlers/agent.rs: whose pods an agent may report on, and what may come between the check
-- and the write.
use barenetes.Base.{
  String, ◌≡◌, ◌≢◌, refl, sym, ap, ◌∙◌, Option, none, some, ◌==◌, string_eq, pair_eq, arith, inl,
  inr, subst, Bool-cases, Option-cases, Result-cases, ok, if◌then◌else◌,
}
use barenetes.Base.Map.{lookup, insert, lookup-insert, lookup-insert_self}
use barenetes.Shared.{Pod, PodSpec, PodDetail, PodWithSpec, AssignOutcome}
use barenetes.Identity.{Peer, mtls, Role, check_identity}
use barenetes.Api.Store.{Etcd, Store, PodKey}
use barenetes.Api.Store.Pods.{get_pod, update_pod_status}
use barenetes.Api.Handlers.Scheduler.{placed_on_node, assign_pod_impl}
use barenetes.Api.Handlers.Scheduler.Assign.{assign_pod_impl-found}
use barenetes.Api.Service.Liveness.{assign_pod_impl-Same}
use barenetes.Api.Handlers.Agent.{
  UpdatePodStatusRequest, check_owner, write_report, update_pod_status_impl, reported_pod,
  reported_detail,
}

check_identity-same :
    (identity : Option String) (role : Option Role) (name : String)
    → check_identity (mtls identity role) name ≡ ok tt
    → identity ≡ some name
unfolding check_identity
check_identity-same none role name h = ground (arith, h)
check_identity-same (some i) role name h = ground (arith, h, string_eq.beq_iff i name)

-- The request is about this pod: its namespace, and the pod that it names.
pub record IsAbout (request : UpdatePodStatusRequest) (ns : String) (pod : Pod) : Type 0 where
  pub core : PodWithSpec
  pub spec : PodSpec
  pub requested : request.pod ≡ some core
  pub specified : core.spec ≡ some spec
  pub named : core.pod ≡ some pod
  pub within : spec.namespace ≡ ns

no_spec :
    (core : Option Pod) (ns : String) (pod : Pod)
    → reported_pod (record { pod = core; spec = none }) ≢ ok (ns, pod)
unfolding reported_pod
no_spec none ns pod h = cc
no_spec (some p) ns pod h = elim (Bool-cases (p.name == "")) [
  | inl e ↦ ground (arith, h, e)
  | inr e ↦ ground (arith, h, e)
]

reported_pod-spec :
    (core : PodWithSpec) (ns : String) (pod : Pod)
    → core.spec ≡ none
    → reported_pod core ≢ ok (ns, pod)
reported_pod-spec core ns pod e h =
    no_spec core.pod ns pod
      (subst (λ o. reported_pod (record { pod = core.pod; spec = o }) ≡ ok (ns, pod)) e h)

reported_pod-pod :
    (core : PodWithSpec) (ns : String) (pod : Pod)
    → core.pod ≡ none
    → reported_pod core ≢ ok (ns, pod)
unfolding reported_pod
reported_pod-pod core ns pod e h = ground (arith, h, e)

reported_pod-IsAbout :
    (request : UpdatePodStatusRequest) (core : PodWithSpec) (ns : String) (pod : Pod)
    → request.pod ≡ some core
    → reported_pod core ≡ ok (ns, pod)
    → IsAbout request ns pod
unfolding reported_pod
reported_pod-IsAbout request core ns pod r h = elim (Option-cases core.spec) [
  | inl e ↦ absurd (reported_pod-spec core ns pod e h)
  | inr (spec, e) ↦ elim (Option-cases core.pod) [
    | inl f ↦ absurd (reported_pod-pod core ns pod f h)
    | inr (p, f) ↦ record {
      core = core;
      spec = spec;
      requested = r;
      specified = e;
      named = ground (arith, h, e, f);
      within = ground (arith, h, e, f);
    }
  ]
]

module _ {E : Etcd} (s : Store E) (m : s.client ≡ none) (request : UpdatePodStatusRequest) where
  check_owner-ok :
      (p : Peer) (ns : String) (pod : Pod)
      → (check_owner p request s).1 ≡ ok (ns, pod)
      → IsAbout request ns pod
        × ((check_owner p request s).0 ≡ s)
        × ((detail : PodDetail) × (lookup (ns, pod.name) s.pods ≡ some detail)
            × (check_identity p detail.node_name ≡ ok tt))
  unfolding check_owner get_pod
  check_owner-ok p ns pod h = elim (Option-cases request.pod) [
    | inl e ↦ ground (arith, h, e)
    | inr (core, e) ↦ elim (Result-cases (reported_pod core)) [
      | inl (_, f) ↦ ground (arith, h, e, f)
      | inr (found, f) ↦ elim (Option-cases (lookup (found.0, found.1.name) s.pods)) [
        | inl g ↦ ground (arith, h, e, f, g, m)
        | inr (detail, g) ↦ elim (Result-cases (check_identity p detail.node_name)) [
          | inl (_, k) ↦ ground (arith, h, e, f, g, k, m)
          | inr (_, k) ↦
              let same : found ≡ (ns, pod) = ground (arith, h, e, f, g, k, m) in
              (
                reported_pod-IsAbout request core ns pod e (f ∙ ap ok same),
                ground (arith, e, f, g, k, m),
                (detail, ap (λ x. lookup (x.0, x.1.name) s.pods) (sym same) ∙ g, k),
              )
        ]
      ]
    ]
  ]

  write_report-found :
      (ns : String) (pod : Pod) (detail : PodDetail)
      → lookup (ns, pod.name) s.pods ≡ some detail
      → ((write_report request ns pod s).1 ≡ ok tt)
        × ((write_report request ns pod s).0.pods
            ≡ insert (ns, pod.name) (reported_detail request pod detail) s.pods)
  unfolding write_report update_pod_status
  write_report-found ns pod detail e = (ground (arith, m, e), ground (arith, m, e))

  write_report-ok :
      (ns : String) (pod : Pod)
      → (write_report request ns pod s).1 ≡ ok tt
      → (detail : PodDetail) × (lookup (ns, pod.name) s.pods ≡ some detail)
  unfolding write_report update_pod_status
  write_report-ok ns pod h = elim (Option-cases (lookup (ns, pod.name) s.pods)) [
    | inl e ↦ ground (arith, m, e, h)
    | inr found ↦ found
  ]

-- In memory, for an agent whose certificate names a node: a report that passes the check is
-- about a pod that the request names and that is assigned to that node, and the check changes
-- nothing. Whatever came between, a write that succeeds leaves that pod on the node that it has
-- by then, and no other pod changes.
pub check_owner-write_report :
    {E : Etcd} (s t : Store E) (identity : Option String) (role : Option Role)
    (request : UpdatePodStatusRequest) (ns : String) (pod : Pod)
    → s.client ≡ none
    → t.client ≡ none
    → (check_owner (mtls identity role) request s).1 ≡ ok (ns, pod)
    → (write_report request ns pod t).1 ≡ ok tt
    → IsAbout request ns pod
      × ((check_owner (mtls identity role) request s).0 ≡ s)
      × ((detail : PodDetail) × (lookup (ns, pod.name) s.pods ≡ some detail)
          × (identity ≡ some detail.node_name))
      × ((old : PodDetail) × (new : PodDetail) × (lookup (ns, pod.name) t.pods ≡ some old)
          × (new.node_name ≡ old.node_name)
          × ((j : PodKey)
              → lookup j (write_report request ns pod t).0.pods
                ≡ (if (ns, pod.name) == j then some new else lookup j t.pods)))
check_owner-write_report s t identity role request ns pod m n checked written =
    let (about, kept, (detail, stored, mine)) =
      check_owner-ok s m request (mtls identity role) ns pod checked in
    let (old, there) = write_report-ok t n request ns pod written in
    let (_, pods) = write_report-found t n request ns pod old there in
    let new = reported_detail request pod old in
    (
      about,
      kept,
      (detail, stored, check_identity-same identity role detail.node_name mine),
      (old, new, there, refl, λ j. ap (lookup j) pods ∙ lookup-insert (ns, pod.name) j new t.pods),
    )

update_pod_status_impl-halves :
    {E : Etcd} (s : Store E) (p : Peer) (request : UpdatePodStatusRequest)
    → (update_pod_status_impl p request s).1 ≡ ok tt
    → (ns : String) × (pod : Pod) × ((check_owner p request s).1 ≡ ok (ns, pod))
      × (update_pod_status_impl p request s
          ≡ write_report request ns pod (check_owner p request s).0)
unfolding update_pod_status_impl
update_pod_status_impl-halves s p request h = elim (Result-cases (check_owner p request s).1) [
  | inl (_, e) ↦ ground (arith, h, e)
  | inr ((ns, pod), e) ↦ (ns, pod, e, ground (arith, e))
]

-- In memory, a status report over mTLS that is accepted, with nothing between its check and its
-- write, is about a pod that the request names and that is assigned to the node that the
-- certificate names; that pod stays on its node, and no other pod changes.
pub update_pod_status_impl-own :
    {E : Etcd} (s : Store E) (identity : Option String) (role : Option Role)
    (request : UpdatePodStatusRequest)
    → s.client ≡ none
    → (update_pod_status_impl (mtls identity role) request s).1 ≡ ok tt
    → let s' = (update_pod_status_impl (mtls identity role) request s).0 in
      (ns : String) × (reported : Pod) × (pod : PodDetail) × (pod' : PodDetail) × IsAbout request ns
        reported
      × (lookup (ns, reported.name) s.pods ≡ some pod)
      × (identity ≡ some pod.node_name)
      × (pod'.node_name ≡ pod.node_name)
      × ((j : PodKey)
          → lookup j s'.pods ≡ (if (ns, reported.name) == j then some pod' else lookup j s.pods))
update_pod_status_impl-own s identity role request m h =
    let (ns, reported, checked, halves) =
      update_pod_status_impl-halves s (mtls identity role) request h in
    let (about, kept, (pod, stored, mine)) =
      check_owner-ok s m request (mtls identity role) ns reported checked in
    let run = halves ∙ ap (write_report request ns reported) kept in
    let (_, pods) = write_report-found s m request ns reported pod stored in
    let pod' = reported_detail request reported pod in
    (
      ns,
      reported,
      pod,
      pod',
      about,
      stored,
      check_identity-same identity role pod.node_name mine,
      refl,
      λ j.
          ap (λ x. lookup j x.0.pods) run
          ∙ ap (lookup j) pods
          ∙ lookup-insert (ns, reported.name) j pod' s.pods,
    )

placed_on_node-node :
    (node : String) (detail : PodDetail) → (placed_on_node node detail).node_name ≡ node
placed_on_node-node node detail = ground arith

-- In memory, when the scheduler assigns the pod to another node between the check of an agent's
-- report and its write, the report is accepted all the same, and lies on the pod of that node.
pub check_owner-race :
    {E : Etcd} (s : Store E) (p : Peer) (request : UpdatePodStatusRequest) (ns : String) (pod : Pod)
    (other : String)
    → s.client ≡ none
    → (check_owner p request s).1 ≡ ok (ns, pod)
    → let t = (assign_pod_impl ns pod.name (some (AssignOutcome.node_name other)) s).0 in
      let (t', r) = write_report request ns pod t in
      (r ≡ ok tt)
      × ((detail : PodDetail) × (lookup (ns, pod.name) t.pods ≡ some detail)
          × (detail.node_name ≡ other)
          × (lookup (ns, pod.name) t'.pods ≡ some (reported_detail request pod detail)))
check_owner-race s p request ns pod other m checked =
    let (_, _, (detail, stored, _)) = check_owner-ok s m request p ns pod checked in
    let moved = some (AssignOutcome.node_name other) in
    let t = (assign_pod_impl ns pod.name moved s).0 in
    let client = (assign_pod_impl-Same s m ns pod.name moved).client ∙ m in
    let (_, pods, _) =
      assign_pod_impl-found s ns pod.name (AssignOutcome.node_name other) detail m stored in
    let placed = placed_on_node other detail in
    let there = ap (lookup (ns, pod.name)) pods ∙ lookup-insert_self (ns, pod.name) placed s.pods in
    let (done, reported) = write_report-found t client request ns pod placed there in
    (
      done,
      (
        placed,
        there,
        placed_on_node-node other detail,
        ap (lookup (ns, pod.name)) reported
            ∙ lookup-insert_self (ns, pod.name) (reported_detail request pod placed) t.pods,
      ),
    )
