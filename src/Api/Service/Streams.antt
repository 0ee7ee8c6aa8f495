-- ===== src/Api/Service/Streams.antt =====
-- api/src/service.rs: the count of the desired-state streams that are open for each node, on its
-- own, against the count that the store keeps.
use barenetes.Base.{
  ℕ, String, ◌≡◌, ap, ◌∙◌, Bool, true, false, none, some, ◌+◌, ◌-◌, ◌==◌, string_eq, eqb, arith,
  ◌⊎◌, inl, inr, Option-cases, Bool-cases, Result, ok, err, if◌then◌else◌,
}
use barenetes.Base.Map.{lookup, insert, remove, lookup-insert, lookup-remove}
use barenetes.Shared.{Node, NodeStatus}
use barenetes.Identity.{Peer}
use barenetes.Api.Store.{Etcd, Store}
use barenetes.Api.Store.Pods.{list_pods}
use barenetes.Api.Store.Nodes.{get_node, node_watch_started, node_watch_ended, watcher_count}
use barenetes.Api.Store.Snapshots.{
  subscribe_desired_state_events, subscribe_desired_state_with_snapshot,
}
use barenetes.Api.Handlers.Agent.{watch_desired_state_impl}
use barenetes.Api.Service.{stream_dropped}
use barenetes.Api.Service.Liveness.{IsLive, Same, drop_receiver-Same, subscribe-Same}
use barenetes.Api.Service.Ready.{
  Same-IsLive, set_node_status-rest, node_watch_started-first, node_watch_started-again,
}

abbrev pub is_ok : {A B : Type 0} → Result A B → Bool
is_ok (ok _) = true
is_ok (err _) = false

pub Same-count :
    {E : Etcd} (s s' : Store E) → Same s s' → (j : String) → watcher_count j s' ≡ watcher_count j s
Same-count s s' same j = ap (λ w. elim (lookup j w) [ none ↦ 0 | some c ↦ c ]) same.node_watchers

abbrev pub one_more : String → (String → ℕ) → String → ℕ
one_more name open_streams j = if name == j then open_streams j + 1 else open_streams j

abbrev pub one_less : String → (String → ℕ) → String → ℕ
one_less name open_streams j = if name == j then open_streams j - 1 else open_streams j

module _ {E : Etcd} (s : Store E) (v : IsLive s) where
  node_watch_ended-count :
      (name j : String)
      → watcher_count j (node_watch_ended name s) ≡ one_less name (λ k. watcher_count k s) j
  unfolding node_watch_ended
  node_watch_ended-count name j = elim (Option-cases (lookup name s.node_watchers)) [
    | inl e ↦ rw (e, node_watch_ended) (ground (arith, string_eq.beq_iff name j, e))
    | inr (c, e) ↦ elim (Bool-cases (eqb (c - 1) 0)) [
      | inl last ↦
          let s0 = record s { node_watchers = remove name s.node_watchers } in
          let (_, counts, _) = set_node_status-rest s0 v.memory name NodeStatus.not_ready in
          rw (e, last, node_watch_ended)
            (ground (
              arith,
              ap (lookup j) counts ∙ lookup-remove name j s.node_watchers,
              string_eq.beq_iff name j,
              e,
              last,
            ))
      | inr more ↦
          rw (e, more, node_watch_ended)
            (ground
              (arith, lookup-insert name j (c - 1) s.node_watchers, string_eq.beq_iff name j, e))
    ]
  ]

  node_watch_started-counts :
      (name : String) (n : Node)
      → lookup name s.nodes ≡ some n
      → (node_watch_started name s).0.node_watchers
        ≡ insert name (watcher_count name s + 1) s.node_watchers
  node_watch_started-counts name n f = elim (Bool-cases (eqb (watcher_count name s) 0)) [
    | inl first ↦ (node_watch_started-first s v name n f first).1
    | inr more ↦ (node_watch_started-again s v name n f more).1
  ]

  node_watch_started-answer :
      (name : String) (n : Node)
      → lookup name s.nodes ≡ some n
      → (node_watch_started name s).1 ≡ ok true
  unfolding node_watch_started get_node
  node_watch_started-answer name n f = elim (Bool-cases (eqb (watcher_count name s) 0)) [
    | inl first ↦
        let (_, _, answer) = set_node_status-rest s v.memory name NodeStatus.ready in
        ground (arith, v.memory, f, first, answer)
    | inr more ↦ ground (arith, v.memory, f, more)
  ]

  node_watch_started-count :
      (name j : String) (n : Node)
      → lookup name s.nodes ≡ some n
      → watcher_count j (node_watch_started name s).0 ≡ one_more name (λ k. watcher_count k s) j
  node_watch_started-count name j n f = ground (
    arith,
    ap (lookup j) (node_watch_started-counts name n f)
        ∙ lookup-insert name j (watcher_count name s + 1) s.node_watchers,
    string_eq.beq_iff name j,
  )

module _ {E : Etcd} (s : Store E) (v : IsLive s) where
  pub stream_dropped-count :
      (name j : String)
      → watcher_count j (stream_dropped name s) ≡ one_less name (λ k. watcher_count k s) j
  unfolding stream_dropped
  stream_dropped-count name j =
      let same = drop_receiver-Same s v.memory name in
      node_watch_ended-count _ (Same-IsLive s v _ same) name j
      ∙ ground (arith, Same-count s _ same j)

  subscribe-answer : (name : String) → is_ok (subscribe_desired_state_with_snapshot name s).1 ≡ true
  unfolding subscribe_desired_state_with_snapshot subscribe_desired_state_events list_pods
  subscribe-answer name = ground (arith, v.memory)

  -- A stream that is granted is counted, and a refusal changes nothing.
  pub watch_desired_state_impl-outcome :
      (p : Peer) (name : String)
      → let t = (subscribe_desired_state_with_snapshot name s).0 in
        let (s', r) = watch_desired_state_impl p name s in
        ((is_ok r ≡ false) × (s' ≡ s))
        ⊎ ((is_ok r ≡ true)
            × (s' ≡ (node_watch_started name t).0)
            × ((n : Node) × (lookup name s.nodes ≡ some n)))
  unfolding watch_desired_state_impl get_node
  watch_desired_state_impl-outcome p name = elim (Option-cases (lookup name s.nodes)) [
    | inl e ↦ inl (ground (arith, v.memory, e))
    | inr (n, e) ↦
        let sub = subscribe-Same s v.memory name in
        let answer =
          node_watch_started-answer _ (Same-IsLive s v _ sub) name n
            (ap (lookup name) sub.nodes ∙ e) in
        let split : ((is_ok (watch_desired_state_impl p name s).1 ≡ false)
              × ((watch_desired_state_impl p name s).0 ≡ s))
            ⊎ ((is_ok (watch_desired_state_impl p name s).1 ≡ true)
                × ((watch_desired_state_impl p name s).0
                    ≡ (node_watch_started name
                        (subscribe_desired_state_with_snapshot name s).0).0)) =
          ground (arith, v.memory, e, subscribe-answer name, answer) in
        elim split [ inl a ↦ inl a | inr (b, c) ↦ inr (b, c, (n, e)) ]
  ]

  -- The count follows the streams that are granted.
  pub watch_desired_state_impl-count :
      (p : Peer) (name j : String)
      → let (s', r) = watch_desired_state_impl p name s in
        watcher_count j s'
        ≡ (if is_ok r then one_more name (λ k. watcher_count k s) j else watcher_count j s)
  watch_desired_state_impl-count p name j =
      let sub = subscribe-Same s v.memory name in
      elim (watch_desired_state_impl-outcome p name) [
        | inl (refused, e) ↦ rw refused (ap (watcher_count j) e)
        | inr (granted, e, (n, f)) ↦ rw granted (
            ap (watcher_count j) e
            ∙ node_watch_started-count _ (Same-IsLive s v _ sub) name j n
                (ap (lookup name) sub.nodes ∙ f)
            ∙ ground (arith, Same-count s _ sub j))
      ]
