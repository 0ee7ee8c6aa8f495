-- ===== src/Api/Service/Gate.antt =====
-- api/src/service.rs and handlers/agent.rs: who may call what.
use barenetes.Base.{
  String, ◌≡◌, ◌≢◌, refl, sym, ap, ◌∙◌, subst, true, false, none, some, string_eq, pair_eq, arith,
  ◌⊎◌, inl, inr, Bool-cases, Result-cases, ok, err,
}
use barenetes.Identity.{Peer, plaintext, mtls, Role, check_role, role_beq, role_denial, as_str}
use barenetes.Api.Status.{permission_denied}
use barenetes.Api.Store.{Etcd, Store}
use barenetes.Api.Handlers.{Handler}
use barenetes.Api.Handlers.Cli.{
  create_pod_impl, delete_pod_impl, get_pod_impl, list_pods_impl, get_node_impl, list_nodes_impl,
}
use barenetes.Api.Handlers.Scheduler.{watch_pods_impl, watch_nodes_impl, assign_pod_impl}
use barenetes.Api.Handlers.Agent.{
  update_pod_status_impl, update_node_status_impl, watch_desired_state_impl,
}
use barenetes.Api.Service.{
  Request, Response, create_pod, delete_pod, get_pod as get_pod_request,
  list_pods as list_pods_request, get_node as get_node_request, list_nodes as list_nodes_request,
  watch_pods, watch_nodes, assign_pod, update_pod_status, update_node_status, watch_desired_state,
  pod_response, pods_response, node_response, nodes_response, name_response, empty_response,
  pod_stream, node_stream, desired_stream, role_for, answer, handle, serve,
}
use barenetes.Api.Service.Effects.{
  KeepsKeys, KeepsNodes, KeepsReports, KeepsKeys-refl, KeepsNodes-refl, KeepsReports-refl,
}
use barenetes.Api.Service.Authority.{KeepsCluster, KeepsOthers, handle-KeepsOthers}

-- A connection without TLS has every role, a certificate only the one that it names.
abbrev HasRole : Peer → Role → Type 0
HasRole plaintext role = Unit
HasRole (mtls _ own) role = own ≡ some role

role_beq-same : (a b : Role) → role_beq a b ≡ true → a ≡ b
role_beq-same a b h = ground (arith, h)

role_beq-other : (a b : Role) → role_beq a b ≡ false → a ≢ b
role_beq-other a b h e = ground (arith, h, e)

check_role_lem :
    (p : Peer) (role : Role)
    → (HasRole p role × (check_role p role ≡ ok tt))
      ⊎ ((¬ HasRole p role) × ((msg : String) × (check_role p role ≡ err (permission_denied msg))))
unfolding check_role
check_role_lem plaintext role = inl (tt, refl)
check_role_lem (mtls _ none) role = inr (λ e. cc, (role_denial "<none>" (as_str role), refl))
check_role_lem (mtls i (some own)) role = elim (Bool-cases (role_beq own role)) [
  | inl same ↦ inl (ap some (role_beq-same own role same), rw (same, check_role) refl)
  | inr other ↦ inr (
    λ e. role_beq-other own role other (ground (arith, e)),
    (role_denial (as_str own) (as_str role), rw (other, check_role) refl),
  )
]

-- The handler runs for a peer that has the method's role; any other peer is denied.
serve-cases :
    {E : Etcd} (p : Peer) (r : Request) (s : Store E)
    → (HasRole p (role_for r) × (serve p r s ≡ handle p r s))
      ⊎ ((¬ HasRole p (role_for r))
          × ((msg : String) × (serve p r s ≡ (s, err (permission_denied msg)))))
unfolding serve
serve-cases p r s = elim (check_role_lem p (role_for r)) [
  | inl (has, e) ↦ inl (has, rw (e, serve) refl)
  | inr (lacks, (msg, e)) ↦ inr (lacks, (msg, rw (e, serve) refl))
]

-- What a peer may have changed, by the roles that it has.
abbrev pub IsAllowed : {E : Etcd} → Peer → Store E → Store E → Type 0
IsAllowed p s s' =
    (HasRole p Role.cli ⊎ KeepsKeys s.pods s'.pods)
    × (HasRole p Role.scheduler ⊎ KeepsNodes s.pods s'.pods)
    × (HasRole p Role.node ⊎ (KeepsReports s.pods s'.pods × KeepsCluster s s'))

module _ {E : Etcd} (p : Peer) (s : Store E) where
  IsAllowed-refl : IsAllowed p s s
  IsAllowed-refl = (
    inr (KeepsKeys-refl s.pods),
    inr (KeepsNodes-refl s.pods),
    inr (KeepsReports-refl s.pods, (refl, refl)),
  )

  allowed : (role : Role) (s' : Store E) → HasRole p role → KeepsOthers role s s' → IsAllowed p s s'
  allowed Role.cli s' has (nodes, reports, rest) = (inl has, inr nodes, inr (reports, rest))
  allowed Role.scheduler s' has (keys, reports, rest) = (inr keys, inl has, inr (reports, rest))
  allowed Role.node s' has (keys, nodes) = (inr keys, inr nodes, inl has)
  allowed Role.api s' has (keys, nodes, reports, rest) = (inr keys, inr nodes, inr (reports, rest))

-- In memory, a request of a peer that does not have the CLI's role neither adds nor removes a
-- pod; of one that does not have the scheduler's, it moves no pod to another node or off one;
-- and of one that does not have a node's, it changes neither what agents reported of a pod (its
-- containers, address and usage), nor a node, nor the count of the streams that are open for
-- one.
pub serve-IsAllowed :
    {E : Etcd} (p : Peer) (r : Request) (s : Store E)
    → s.client ≡ none
    → IsAllowed p s (serve p r s).0
serve-IsAllowed p r s m = elim (serve-cases p r s) [
  | inl (has, e) ↦
      subst (IsAllowed p s) (ap (λ x. x.0) (sym e))
        (allowed p s (role_for r) _ has (handle-KeepsOthers s m p r))
  | inr (_, (msg, e)) ↦ subst (IsAllowed p s) (ap (λ x. x.0) (sym e)) (IsAllowed-refl p s)
]

-- Whom an answer is for: the CLI reads pods and nodes, the scheduler watches them, and an agent
-- watches its desired state. An answer without content may go to the scheduler or to an agent.
abbrev pub MayRead : Peer → Response → Type 0
MayRead p (pod_response _) = HasRole p Role.cli
MayRead p (pods_response _) = HasRole p Role.cli
MayRead p (node_response _) = HasRole p Role.cli
MayRead p (nodes_response _) = HasRole p Role.cli
MayRead p (name_response _) = HasRole p Role.cli
MayRead p (pod_stream _ _) = HasRole p Role.scheduler
MayRead p (node_stream _ _) = HasRole p Role.scheduler
MayRead p (desired_stream _ _) = HasRole p Role.node
MayRead p empty_response = HasRole p Role.scheduler ⊎ HasRole p Role.node

answer-MayRead :
    {E : Etcd} {A : Type 0} (p : Peer) (h : Handler E A) (f : A → Response) (s : Store E)
    (x : Response)
    → ((a : A) → MayRead p (f a))
    → (answer h f s).1 ≡ ok x
    → MayRead p x
answer-MayRead p h f s x all e = elim (Result-cases (h s).1) [
  | inl (_, g) ↦ ground (arith, e, g)
  | inr (a, g) ↦ let same : f a ≡ x = ground (arith, e, g) in subst (MayRead p) same (all a)
]

handle-MayRead :
    {E : Etcd} (p : Peer) (r : Request) (s : Store E) (x : Response)
    → HasRole p (role_for r)
    → (handle p r s).1 ≡ ok x
    → MayRead p x
unfolding handle
handle-MayRead p (create_pod pod) s x has e =
    answer-MayRead p (create_pod_impl pod) pod_response s x (λ _. has) e
handle-MayRead p (delete_pod ns name) s x has e =
    answer-MayRead p (delete_pod_impl ns name) name_response s x (λ _. has) e
handle-MayRead p (get_pod_request ns name) s x has e =
    answer-MayRead p (get_pod_impl ns name) pod_response s x (λ _. has) e
handle-MayRead p list_pods_request s x has e =
    answer-MayRead p list_pods_impl pods_response s x (λ _. has) e
handle-MayRead p (get_node_request name) s x has e =
    answer-MayRead p (get_node_impl name) node_response s x (λ _. has) e
handle-MayRead p list_nodes_request s x has e =
    answer-MayRead p list_nodes_impl nodes_response s x (λ _. has) e
handle-MayRead p watch_pods s x has e =
    answer-MayRead p watch_pods_impl (λ r. pod_stream r.0 r.1) s x (λ _. has) e
handle-MayRead p watch_nodes s x has e =
    answer-MayRead p watch_nodes_impl (λ r. node_stream r.0 r.1) s x (λ _. has) e
handle-MayRead p (assign_pod ns name o) s x has e =
    answer-MayRead p (assign_pod_impl ns name o) (λ _. empty_response) s x (λ _. inl has) e
handle-MayRead p (update_pod_status q) s x has e =
    answer-MayRead p (update_pod_status_impl p q) (λ _. empty_response) s x (λ _. inr has) e
handle-MayRead p (update_node_status n) s x has e =
    answer-MayRead p (update_node_status_impl p n) (λ _. empty_response) s x (λ _. inr has) e
handle-MayRead p (watch_desired_state name) s x has e =
    answer-MayRead p (watch_desired_state_impl p name) (λ r. desired_stream r.0 r.1) s x (λ _. has)
      e

-- An answer that is no error reached a peer that it is for: what the CLI reads, what the
-- scheduler watches and what an agent watches each go to a peer of that role, and an answer
-- without content to the scheduler or to an agent.
pub serve-MayRead :
    {E : Etcd} (p : Peer) (r : Request) (s : Store E) (x : Response)
    → (serve p r s).1 ≡ ok x
    → MayRead p x
serve-MayRead p r s x e = elim (serve-cases p r s) [
  | inl (has, run) ↦ handle-MayRead p r s x has (ap (λ y. y.1) (sym run) ∙ e)
  | inr (_, (msg, run)) ↦ ground (arith, run, e)
]
