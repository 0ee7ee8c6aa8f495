-- ===== src/Api/Service/Reach.antt =====
-- api/src/service.rs: a run of the service on a store in memory, as a sequence of requests and of
-- streams that end.
use barenetes.Base.{
  ◌<◌, ltb, ap, if◌then◌else◌, ℕ, String, Bool, false, none, some, ◌≡◌, ◌∙◌, refl, sym, subst,
  Option, Option-cases, string_eq, pair_eq, arith, ◌⊎◌, inl, inr, Result, ok, err,
}
use barenetes.Shared.{Node, Pod}
use barenetes.Identity.{Peer, check_role}
use barenetes.Api.Status.{Status}
use barenetes.Api.Store.{Etcd, Store, new_store}
use barenetes.Api.Store.Nodes.{
  watcher_count, ready_code, not_ready_code, get_node, node_watch_started, register_node,
}
use barenetes.Base.Map.{lookup}
use barenetes.Api.Store.Snapshots.{drop_receiver, subscribe_desired_state_with_snapshot}
use barenetes.Api.Handlers.Agent.{
  UpdatePodStatusRequest, write_report, update_node_status_impl, watch_desired_state_impl,
}
use barenetes.Api.Service.{
  Request, create_pod, delete_pod, get_pod, list_pods, get_node as get_node_request, list_nodes,
  watch_pods, watch_nodes, assign_pod, update_pod_status, update_node_status, watch_desired_state,
  role_for, handle, serve, stream_dropped,
}
use barenetes.Api.Service.Streams.{
  is_ok, one_more, one_less, Same-count, stream_dropped-count, watch_desired_state_impl-count,
}
use barenetes.Api.Service.Liveness.{
  IsLive, assign_pod_impl-Same, create_pod_impl-Same, delete_pod_impl-Same, drop_receiver-Same,
  get_node_impl-Same, get_pod_impl-Same, list_nodes_impl-Same, list_pods_impl-Same, subscribe-Same,
  update_pod_status_impl-Same, write_report-Same, watch_nodes_impl-Same, watch_pods_impl-Same,
}
use barenetes.Api.Service.Ready.{
  Same-IsLive, node_watch_ended-IsLive, node_watch_started-IsLive, register_node-IsLive,
}

register_node-count :
    {E : Etcd} (s : Store E)
    → s.client ≡ none
    → (node : Node) (j : String) → watcher_count j (register_node node s).0 ≡ watcher_count j s
unfolding register_node
register_node-count s m node j = ground (arith, m)

module _ {E : Etcd} (s : Store E) (v : IsLive s) where
  update_node_status_impl-cases :
      (p : Peer) (r : Option Node)
      → ((update_node_status_impl p r s).0 ≡ s)
        ⊎ ((n : Node) × ((update_node_status_impl p r s).0 ≡ (register_node n s).0))
  unfolding update_node_status_impl
  update_node_status_impl-cases p none = inl refl
  update_node_status_impl-cases p (some n) = elim (refused p n) [
    | inl e ↦ inl e
    | inr e ↦ inr (n, e)
  ]
    where
      refused :
          (p : Peer) (n : Node)
          → ((update_node_status_impl p (some n) s).0 ≡ s)
            ⊎ ((update_node_status_impl p (some n) s).0 ≡ (register_node n s).0)
      refused p n = ground arith

  watch_desired_state_impl-cases :
      (p : Peer) (name : String)
      → let t = (subscribe_desired_state_with_snapshot name s).0 in
        let u = (node_watch_started name t).0 in
        let s' = (watch_desired_state_impl p name s).0 in
        (s' ≡ s) ⊎ ((s' ≡ t) ⊎ ((s' ≡ u) ⊎ (s' ≡ drop_receiver name u)))
  unfolding watch_desired_state_impl get_node
  watch_desired_state_impl-cases p name = ground (arith, v.memory)

  drop_receiver-IsLive : (name : String) → IsLive (drop_receiver name s)
  drop_receiver-IsLive name = Same-IsLive s v _ (drop_receiver-Same s v.memory name)

  stream_dropped-IsLive : (name : String) → IsLive (stream_dropped name s)
  unfolding stream_dropped
  stream_dropped-IsLive name = node_watch_ended-IsLive _ (drop_receiver-IsLive name) name

module _ {E : Etcd} (s : Store E) (v : IsLive s) where
  update_node_status_impl-IsLive :
      (p : Peer) (r : Option Node) → IsLive (update_node_status_impl p r s).0
  update_node_status_impl-IsLive p r = elim (update_node_status_impl-cases s v p r) [
    | inl e ↦ subst IsLive (sym e) v
    | inr (n, e) ↦ subst IsLive (sym e) (register_node-IsLive s v n)
  ]

  watch_desired_state_impl-IsLive :
      (p : Peer) (name : String) → IsLive (watch_desired_state_impl p name s).0
  watch_desired_state_impl-IsLive p name =
      let t = Same-IsLive s v _ (subscribe-Same s v.memory name) in
      let u = node_watch_started-IsLive _ t name in
      elim (watch_desired_state_impl-cases s v p name) [
        | inl e ↦ subst IsLive (sym e) v
        | inr (inl e) ↦ subst IsLive (sym e) t
        | inr (inr (inl e)) ↦ subst IsLive (sym e) u
        | inr (inr (inr e)) ↦ subst IsLive (sym e) (drop_receiver-IsLive _ u name)
      ]

  handle-IsLive : (p : Peer) (r : Request) → IsLive (handle p r s).0
  unfolding handle
  handle-IsLive p (create_pod pod) = Same-IsLive s v _ (create_pod_impl-Same s v.memory pod)
  handle-IsLive p (delete_pod ns name) = Same-IsLive s v _ (delete_pod_impl-Same s v.memory ns name)
  handle-IsLive p (get_pod ns name) = Same-IsLive s v _ (get_pod_impl-Same s v.memory ns name)
  handle-IsLive p list_pods = Same-IsLive s v _ (list_pods_impl-Same s v.memory)
  handle-IsLive p (get_node_request name) = Same-IsLive s v _ (get_node_impl-Same s v.memory name)
  handle-IsLive p list_nodes = Same-IsLive s v _ (list_nodes_impl-Same s v.memory)
  handle-IsLive p watch_pods = Same-IsLive s v _ (watch_pods_impl-Same s v.memory)
  handle-IsLive p watch_nodes = Same-IsLive s v _ (watch_nodes_impl-Same s v.memory)
  handle-IsLive p (assign_pod ns name o) =
      Same-IsLive s v _ (assign_pod_impl-Same s v.memory ns name o)
  handle-IsLive p (update_pod_status r) =
      Same-IsLive s v _ (update_pod_status_impl-Same s v.memory p r)
  handle-IsLive p (update_node_status n) = update_node_status_impl-IsLive p n
  handle-IsLive p (watch_desired_state name) = watch_desired_state_impl-IsLive p name

  serve-IsLive : (p : Peer) (r : Request) → IsLive (serve p r s).0
  unfolding serve
  serve-IsLive p r = elim (gate (check_role p (role_for r)) refl) [
    | inl e ↦ subst IsLive (sym e) v
    | inr e ↦ subst IsLive (sym e) (handle-IsLive p r)
  ]
    where
      gate :
          (c : Result Status (Unit {0}))
          → check_role p (role_for r) ≡ c
          → ((serve p r s).0 ≡ s) ⊎ ((serve p r s).0 ≡ (handle p r s).0)
      gate (ok _) e = inr (rw (e, serve) refl)
      gate (err _) e = inl (rw (e, serve) refl)

-- The node whose stream a request asks for.
abbrev pub watched : Request → Option String
watched (watch_desired_state name) = some name
watched _ = none

-- The streams that are open once a request has been answered.
abbrev pub granted : Request → Bool → (String → ℕ) → String → ℕ
granted r accepted open_streams j = elim (watched r) [
  | none ↦ open_streams j
  | some name ↦ if accepted then one_more name open_streams j else open_streams j
]

-- A run, and how many desired-state streams are open for each node: one more for each request of
-- one that is accepted, one less for each that ends. A status report is written in its request,
-- or at any time after its check.
pub data Reach {E : Etcd} : Store E → (String → ℕ) → Type 0 where
  start : Reach (new_store E none) (λ _. 0)
  request :
      {s : Store E} {o : String → ℕ} (p : Peer) (r : Request)
      → Reach s o
      → Reach (serve p r s).0 (granted r (is_ok (serve p r s).1) o)
  report_written :
      {s : Store E} {o : String → ℕ} (request : UpdatePodStatusRequest) (ns : String) (pod : Pod)
      → Reach s o
      → Reach (write_report request ns pod s).0 o
  dropped :
      {s : Store E} {o : String → ℕ} (name : String)
      → 0 < o name
      → Reach s o
      → Reach (stream_dropped name s) (one_less name o)

module _ {E : Etcd} (s : Store E) (v : IsLive s) (j : String) where
  handle-count :
      (p : Peer) (r : Request)
      → watcher_count j (handle p r s).0
        ≡ granted r (is_ok (handle p r s).1) (λ k. watcher_count k s) j
  unfolding handle
  handle-count p (create_pod pod) = Same-count s _ (create_pod_impl-Same s v.memory pod) j
  handle-count p (delete_pod ns name) = Same-count s _ (delete_pod_impl-Same s v.memory ns name) j
  handle-count p (get_pod ns name) = Same-count s _ (get_pod_impl-Same s v.memory ns name) j
  handle-count p list_pods = Same-count s _ (list_pods_impl-Same s v.memory) j
  handle-count p (get_node_request name) = Same-count s _ (get_node_impl-Same s v.memory name) j
  handle-count p list_nodes = Same-count s _ (list_nodes_impl-Same s v.memory) j
  handle-count p watch_pods = Same-count s _ (watch_pods_impl-Same s v.memory) j
  handle-count p watch_nodes = Same-count s _ (watch_nodes_impl-Same s v.memory) j
  handle-count p (assign_pod ns name o) =
      Same-count s _ (assign_pod_impl-Same s v.memory ns name o) j
  handle-count p (update_pod_status r) =
      Same-count s _ (update_pod_status_impl-Same s v.memory p r) j
  handle-count p (update_node_status n) = elim (update_node_status_impl-cases s v p n) [
    | inl e ↦ ap (watcher_count j) e
    | inr (m, e) ↦ ap (watcher_count j) e ∙ register_node-count s v.memory m j
  ]
  handle-count p (watch_desired_state name) =
      ground (arith, watch_desired_state_impl-count s v p name j)

  serve-count :
      (p : Peer) (r : Request)
      → watcher_count j (serve p r s).0
        ≡ granted r (is_ok (serve p r s).1) (λ k. watcher_count k s) j
  unfolding serve
  serve-count p r = gate (check_role p (role_for r)) refl
    where
      denied :
          (o : Option String)
          → watcher_count j s ≡ elim o [
            | none ↦ watcher_count j s
            | some name ↦
                if false then one_more name (λ k. watcher_count k s) j else watcher_count j s
          ]
      denied none = refl
      denied (some name) = refl

      gate :
          (c : Result Status (Unit {0}))
          → check_role p (role_for r) ≡ c
          → watcher_count j (serve p r s).0
            ≡ granted r (is_ok (serve p r s).1) (λ k. watcher_count k s) j
      gate (ok _) e = rw (e, serve) (handle-count p r)
      gate (err _) e = rw (e, serve) (denied (watched r))

granted-cong :
    (r : Request) (b : Bool) (o o' : String → ℕ) (j : String)
    → o j ≡ o' j
    → granted r b o j ≡ granted r b o' j
granted-cong r b o o' j e = elim (Option-cases (watched r)) [
  | inl none_watched ↦ rw (none_watched, granted) e
  | inr (name, f) ↦ rw (f, granted) (ground (arith, e))
]

Reach-count :
    {E : Etcd} {s : Store E} {o : String → ℕ}
    → Reach s o
    → IsLive s × ((j : String) → watcher_count j s ≡ o j)
Reach-count start = (
  record { memory = refl; counted = λ name c e. cc; known = λ name e. cc; status = λ name n e. cc },
  λ j. refl,
)
Reach-count (request {s} {o} p r h) =
    let (v, counts) = Reach-count h in
    (
      serve-IsLive s v p r,
      λ j. serve-count s v j p r ∙ granted-cong r _ (λ k. watcher_count k s) o j (counts j),
    )
Reach-count (report_written {s} {o} r ns pod h) =
    let (v, counts) = Reach-count h in
    let same = write_report-Same s v.memory r ns pod in
    (Same-IsLive s v _ same, λ j. Same-count s _ same j ∙ counts j)
Reach-count (dropped {s} {o} name positive h) =
    let (v, counts) = Reach-count h in
    (
      stream_dropped-IsLive s v name,
      λ j. stream_dropped-count s v name j ∙ ground (arith, counts j),
    )

-- Whatever requests a service in memory gets, from whatever peers, and whichever open streams
-- end, in any order, also between the check of a status report and its write: a node is READY
-- if a desired-state stream is open for it and NOT_READY otherwise.
pub Reach-status :
    {E : Etcd} {s : Store E} {o : String → ℕ} (name : String) (n : Node)
    → Reach s o
    → lookup name s.nodes ≡ some n
    → n.status ≡ (if ltb 0 (o name) then ready_code else not_ready_code)
Reach-status {s} {o} name n h e =
    let (v, counts) = Reach-count h in
    v.status name n e ∙ elim (Option-cases (lookup name s.node_watchers)) [
      | inl f ↦ ground (arith, counts name, f)
      | inr (c, f) ↦ ground (arith, counts name, f, v.counted name c f)
    ]
