-- ===== src/Api/Service/Ready.antt =====
-- api/src/store.rs, for a store in memory: the methods that write the status of a node.
use barenetes.Base.{
  ℕ, String, ◌≡◌, refl, sym, ◌∙◌, ap, true, false, Option, none, some, ◌<◌, if◌then◌else◌, ◌==◌,
  eqb, ◌+◌, ◌-◌, string_eq, pair_eq, arith, ◌⊎◌, inl, inr, Option-cases, Bool-cases, ok,
}
use barenetes.Base.Map.{Map, lookup, insert, remove, lookup-insert, lookup-remove}
use barenetes.Shared.{Node, NodeStatus, node_status_code}
use barenetes.Api.Store.{Etcd, Store}
use barenetes.Api.Store.Pods.{}
use barenetes.Api.Store.Nodes.{
  ready_code, not_ready_code, with_status, known_status, watcher_count, register_node,
  node_watch_started, node_watch_ended, set_node_status, get_node,
}
use barenetes.Api.Store.Snapshots.{}
use barenetes.Api.Handlers.Cli.{}
use barenetes.Api.Service.Liveness.{IsLive, Same}

keep :
    {V : Type 0} (name j : String) (o : Option V) (m : Map String V)
    → lookup name m ≡ o
    → lookup j m ≡ (if name == j then o else lookup j m)
keep name j o m e = ground (arith, string_eq.beq_iff name j)

abbrev status_for : Option ℕ → ℕ
status_for none = not_ready_code
status_for (some _) = ready_code

-- `s'` has at `name` the node that was written and the count `o`, and all else as before.
record Written {E : Etcd} (s s' : Store E) (name : String) (n : Node) (o : Option ℕ) : Type 0 where
  client : s'.client ≡ none
  nodes : (j : String) → lookup j s'.nodes ≡ (if name == j then some n else lookup j s.nodes)
  counts :
      (j : String) → lookup j s'.node_watchers ≡ (if name == j then o else lookup j s.node_watchers)
  positive : (c : ℕ) → o ≡ some c → 0 < c
  agrees : n.status ≡ status_for o

module _ {E : Etcd} (s : Store E) (m : s.client ≡ none) where
  -- A status that is set is the node's status, whatever it was before.
  set_node_status-nodes :
      (name : String) (status : NodeStatus) (n : Node) (j : String)
      → lookup name s.nodes ≡ some n
      → lookup j (set_node_status name status s).0.nodes
        ≡ (if name == j then some (with_status (node_status_code status) n) else lookup j s.nodes)
  unfolding set_node_status
  set_node_status-nodes name status n j e =
      elim (Bool-cases (eqb n.status (node_status_code status))) [
        | inl same ↦
            ap (lookup j) (same_nodes same) ∙ keep name j _ s.nodes (e ∙ ap some (known same))
        | inr other ↦ ap (lookup j) (new_nodes other) ∙ lookup-insert name j _ s.nodes
      ]
    where
      known :
          eqb n.status (node_status_code status) ≡ true
          → n ≡ with_status (node_status_code status) n
      known same = ground (arith, same)

      same_nodes :
          eqb n.status (node_status_code status) ≡ true
          → (set_node_status name status s).0.nodes ≡ s.nodes
      same_nodes same = ground (arith, m, e, same)

      new_nodes :
          eqb n.status (node_status_code status) ≡ false
          → (set_node_status name status s).0.nodes
            ≡ insert name (with_status (node_status_code status) n) s.nodes
      new_nodes other = ground (arith, m, e, other)

  pub set_node_status-rest :
      (name : String) (status : NodeStatus)
      → ((set_node_status name status s).0.client ≡ none)
        × ((set_node_status name status s).0.node_watchers ≡ s.node_watchers)
        × (((set_node_status name status s).1 ≡ ok true)
            ⊎ ((set_node_status name status s).1 ≡ ok false))
  unfolding set_node_status
  set_node_status-rest name status = (ground (arith, m), ground (arith, m), ground (arith, m))

module _ {E : Etcd} (s : Store E) (v : IsLive s) where
  pub Same-IsLive : (s' : Store E) → Same s s' → IsLive s'
  Same-IsLive s' e = record {
    memory = e.client ∙ v.memory;
    counted = λ name c h. v.counted name c (rw (sym e.node_watchers) h);
    known = λ name h. rw e.nodes (v.known name (rw (sym e.node_watchers) h));
    status = λ name n h. rw e.node_watchers (v.status name n (rw (sym e.nodes) h));
  }

  Written-IsLive :
      (s' : Store E) (name : String) (n : Node) (o : Option ℕ) → Written s s' name n o → IsLive s'
  Written-IsLive s' name n o w = record {
    memory = w.client;
    counted = λ j c h. ground (arith, w.counts j, w.positive c, v.counted j c);
    known = λ j h. ground (arith, w.counts j, w.nodes j, v.known j);
    status = λ j m h. ground (arith, w.counts j, w.nodes j, v.status j m, w.agrees);
  }

  known_status-agrees :
      (name : String)
      → known_status (lookup name s.nodes) ≡ status_for (lookup name s.node_watchers)
  known_status-agrees name = elim (Option-cases (lookup name s.nodes)) [
    | inl e ↦ ground (arith, v.known name, e)
    | inr (n, e) ↦ ground (arith, v.status name n e, e)
  ]

  pub register_node-IsLive : (node : Node) → IsLive (register_node node s).0
  unfolding register_node
  register_node-IsLive node =
      Written-IsLive _ node.name written (lookup node.name s.node_watchers) (record {
        client = ground (arith, v.memory);
        nodes = λ j. ap (lookup j) stored ∙ lookup-insert node.name j written s.nodes;
        counts = λ j. ap (lookup j) counts ∙ keep node.name j _ s.node_watchers refl;
        positive = v.counted node.name;
        agrees = known_status-agrees node.name;
      })
    where
      written : Node
      written = with_status (known_status (lookup node.name s.nodes)) node

      stored : (register_node node s).0.nodes ≡ insert node.name written s.nodes
      stored = ground (arith, v.memory)

      counts : (register_node node s).0.node_watchers ≡ s.node_watchers
      counts = ground (arith, v.memory)

  pub node_watch_ended-IsLive : (name : String) → IsLive (node_watch_ended name s)
  unfolding node_watch_ended
  node_watch_ended-IsLive name = elim (Option-cases (lookup name s.node_watchers)) [
    | inl e ↦ rw (e, node_watch_ended) v
    | inr (c, e) ↦ elim (Option-cases (lookup name s.nodes)) [
      | inl f ↦ ground (arith, v.known name, e, f)
      | inr (n, f) ↦ elim (Bool-cases (eqb (c - 1) 0)) [
        | inl last ↦
            let s0 = record s { node_watchers = remove name s.node_watchers } in
            let (client, counts, _) = set_node_status-rest s0 v.memory name NodeStatus.not_ready in
            rw (e, last, node_watch_ended)
              (Written-IsLive _ name (with_status not_ready_code n) none (record {
                client = client;
                nodes = λ j. set_node_status-nodes s0 v.memory name NodeStatus.not_ready n j f;
                counts = λ j. ap (lookup j) counts ∙ lookup-remove name j s.node_watchers;
                positive = λ c h. cc;
                agrees = refl;
              }))
        | inr more ↦
            rw (e, more, node_watch_ended)
              (Written-IsLive _ name n (some (c - 1)) (record {
                client = v.memory;
                nodes = λ j. keep name j _ s.nodes f;
                counts = λ j. lookup-insert name j (c - 1) s.node_watchers;
                positive = λ d h. ground (arith, more);
                agrees = ground (arith, v.status name n f, e);
              }))
      ]
    ]
  ]

  pub node_watch_started-first :
      (name : String) (n : Node)
      → lookup name s.nodes ≡ some n
      → eqb (watcher_count name s) 0 ≡ true
      → ((node_watch_started name s).0.nodes ≡ (set_node_status name NodeStatus.ready s).0.nodes)
        × ((node_watch_started name s).0.node_watchers
            ≡ insert name (watcher_count name s + 1) s.node_watchers)
  unfolding node_watch_started get_node
  node_watch_started-first name n f first =
      let (client, counts, answer) = set_node_status-rest s v.memory name NodeStatus.ready in
      (
        ground (arith, v.memory, f, first, answer),
        ground (arith, v.memory, f, first, answer, counts),
      )

  pub node_watch_started-again :
      (name : String) (n : Node)
      → lookup name s.nodes ≡ some n
      → eqb (watcher_count name s) 0 ≡ false
      → ((node_watch_started name s).0.nodes ≡ s.nodes)
        × ((node_watch_started name s).0.node_watchers
            ≡ insert name (watcher_count name s + 1) s.node_watchers)
  unfolding node_watch_started get_node
  node_watch_started-again name n f more =
      (ground (arith, v.memory, f, more), ground (arith, v.memory, f, more))

  pub node_watch_started-IsLive : (name : String) → IsLive (node_watch_started name s).0
  unfolding node_watch_started get_node
  node_watch_started-IsLive name = elim (Option-cases (lookup name s.nodes)) [
    | inl e ↦ Same-IsLive _ (record {
      client = ground (arith, v.memory, e);
      nodes = ground (arith, v.memory, e);
      node_watchers = ground (arith, v.memory, e);
    })
    | inr (n, f) ↦ elim (Bool-cases (eqb (watcher_count name s) 0)) [
      | inl first ↦
          let (client, counts, answer) = set_node_status-rest s v.memory name NodeStatus.ready in
          Written-IsLive _ name (with_status ready_code n) (some (watcher_count name s + 1))
            (record {
              client = ground (arith, v.memory, f, first, client, answer);
              nodes = λ j.
                  ap (lookup j) (node_watch_started-first name n f first).0
                  ∙ set_node_status-nodes s v.memory name NodeStatus.ready n j f;
              counts = λ j.
                  ap (lookup j) (node_watch_started-first name n f first).1
                  ∙ lookup-insert name j _ s.node_watchers;
              positive = λ d h. ground arith;
              agrees = refl;
            })
      | inr more ↦ Written-IsLive _ name n (some (watcher_count name s + 1)) (record {
        client = ground (arith, v.memory, f, more);
        nodes =
            λ j. ap (lookup j) (node_watch_started-again name n f more).0 ∙ keep name j _ s.nodes f;
        counts = λ j.
            ap (lookup j) (node_watch_started-again name n f more).1
            ∙ lookup-insert name j _ s.node_watchers;
        positive = λ d h. ground arith;
        agrees = ground (arith, v.status name n f, more);
      })
    ]
  ]
