-- ===== src/Api/Store/Nodes.antt =====
-- api/src/store.rs: the methods of `Store` on nodes, and the count of the desired-state streams
-- that are open for each, which decides the status.
use barenetes.Base.{
  ℕ, String, Bool, true, false, Option, none, some, List, [], ◌∷◌, ◌+◌, ◌-◌, if◌then◌else◌, ok, err,
  eqb, string_eq,
}
use barenetes.Base.Map.{lookup, insert, remove}
use barenetes.Shared.{Node, NodeStatus, node_status_code, EventType}
use barenetes.Api.Status.{StoreError}
use barenetes.Api.Store.{
  Etcd, Store, Action, Method, ◌>>=◌, ◌>>◌, pure, lift, modify, ask, in_etcd, decoded, decodable,
  values, publish_node_event, nodes_prefix, node_etcd_key,
}

abbrev pub with_status : ℕ → Node → Node
with_status status n = record n { status = status }

-- `NodeStatus::NotReady as i32` and `NodeStatus::Ready as i32`.
abbrev pub not_ready_code : ℕ
not_ready_code = node_status_code NodeStatus.not_ready

abbrev pub ready_code : ℕ
ready_code = node_status_code NodeStatus.ready

-- ADDED for a node that was not known, MODIFIED for one that was.
abbrev pub registered_as : {A : Type 0} → Option A → EventType
registered_as none = EventType.added
registered_as (some _) = EventType.modified

-- The status that a stored record has: NOT_READY where there is none, or it does not decode.
abbrev pub kept_status : (E : Etcd) → Option (E.Bytes × ℕ) → ℕ
kept_status E none = not_ready_code
kept_status E (some kv) = elim (E.decode_node kv.0) [ ok n ↦ n.status | err _ ↦ not_ready_code ]

abbrev pub known_status : Option Node → ℕ
known_status none = not_ready_code
known_status (some n) = n.status

-- The read and the write under `node_op_lock`.
register_session : (E : Etcd) → Node → Action E.Server StoreError (Node × EventType)
register_session E node = do
  found ← ask (E.get (node_etcd_key node.name))
  ask (E.put (node_etcd_key node.name) (E.encode_node (with_status (kept_status E found) node)))
  pure (with_status (kept_status E found) node, registered_as found)

-- The node as it was written, if it was there with another status.
status_session : (E : Etcd) → String → ℕ → Action E.Server StoreError (Option Node)
status_session E name status = do
  found ← ask (E.get (node_etcd_key name))
  elim found [
    | none ↦ pure none
    | some kv ↦ elim (E.decode_node kv.0) [
      | err _ ↦ pure none
      | ok n ↦
          let write : Action E.Server StoreError (Option Node) = do
            ask (E.put (node_etcd_key name) (E.encode_node (with_status status n)))
            pure (some (with_status status n))
          in if eqb n.status status then pure none else write
    ]
  ]

-- The loop of `reset_node_liveness`: a failed write ends it.
reset_all : (E : Etcd) → List E.Bytes → Action E.Server StoreError (Unit {0})
reset_all E [] = pure tt
reset_all E (kv ∷ kvs) = do
  elim (E.decode_node kv) [
    | err _ ↦ pure tt
    | ok n ↦
        if eqb n.status ready_code
        then ask (E.put (node_etcd_key n.name) (E.encode_node (with_status not_ready_code n)))
        else pure tt
  ]
  reset_all E kvs

reset_session : (E : Etcd) → Action E.Server StoreError (Unit {0})
unfolding reset_all
reset_session E = do kvs ← ask (E.get_prefix nodes_prefix); reset_all E kvs

abbrev is_written : Option Node → Bool
is_written none = false
is_written (some _) = true

module _ {E : Etcd} where
  abbrev pub announce_node : EventType → Node → Store E → Store E
  announce_node event_type node =
      publish_node_event (record { event_type = event_type; node = some node })

  unfoldable reset_node_liveness : Method E (Unit {0})
  unfolding reset_session
  reset_node_liveness s = elim s.client [
    | none ↦ (s, ok tt)
    | some server ↦ in_etcd server (reset_session E) s
  ]

  register_etcd : E.Server → Node → Method E (Unit {0})
  unfolding register_session
  register_etcd server node = do
    written ← in_etcd server (register_session E node)
    modify (announce_node written.1 written.0)

  register_memory : Node → Store E → Store E
  register_memory node s =
      let known = lookup node.name s.nodes in
      let written = with_status (known_status known) node in
      announce_node (registered_as known) written
        (record s { nodes = insert node.name written s.nodes })

  unfoldable pub register_node : Node → Method E (Unit {0})
  unfolding register_etcd register_memory
  register_node node s = elim s.client [
    | some server ↦ register_etcd server node s
    | none ↦ (register_memory node s, ok tt)
  ]

  abbrev announce_status : Option Node → Store E → Store E
  announce_status none s = s
  announce_status (some node) s = announce_node EventType.modified node s

  status_etcd : E.Server → String → ℕ → Method E Bool
  unfolding status_session
  status_etcd server name status = do
    written ← in_etcd server (status_session E name status)
    modify (announce_status written)
    pure (is_written written)

  status_memory : String → ℕ → Store E → Store E × Bool
  status_memory name status s = elim (lookup name s.nodes) [
    | none ↦ (s, false)
    | some node ↦ if eqb node.status status then (s, false) else (
      announce_node EventType.modified (with_status status node)
          (record s { nodes = insert name (with_status status node) s.nodes }),
      true,
    )
  ]

  unfoldable pub set_node_status : String → NodeStatus → Method E Bool
  unfolding status_etcd status_memory
  set_node_status name status s = elim s.client [
    | some server ↦ status_etcd server name (node_status_code status) s
    | none ↦ let (s', changed) = status_memory name (node_status_code status) s in (s', ok changed)
  ]

  get_node_etcd : E.Server → String → Method E (Option Node)
  get_node_etcd server name = do
    found ← in_etcd server (ask (E.get (node_etcd_key name)))
    elim found [
      | none ↦ pure none
      | some kv ↦ do node ← lift (decoded (E.decode_node kv.0)); pure (some node)
    ]

  unfoldable pub get_node : String → Method E (Option Node)
  unfolding get_node_etcd
  get_node name s = elim s.client [
    | some server ↦ get_node_etcd server name s
    | none ↦ (s, ok (lookup name s.nodes))
  ]

  abbrev list_nodes_etcd : E.Server → Method E (List Node)
  list_nodes_etcd server = do
    kvs ← in_etcd server (ask (E.get_prefix nodes_prefix))
    pure (decodable E.decode_node kvs)

  unfoldable pub list_nodes : Method E (List Node)
  list_nodes s = elim s.client [
    | some server ↦ list_nodes_etcd server s
    | none ↦ (s, ok (values s.nodes))
  ]

  abbrev pub watcher_count : String → Store E → ℕ
  watcher_count name s = elim (lookup name s.node_watchers) [ none ↦ 0 | some c ↦ c ]

  abbrev set_watchers : String → ℕ → Store E → Store E
  set_watchers name c s = record s { node_watchers = insert name c s.node_watchers }

  -- The part of `node_watch_started` under the lock on the counts.
  open_watch : String → ℕ → Method E Bool
  unfolding set_node_status
  open_watch name current = do
    if eqb current 0 then set_node_status name NodeStatus.ready >>= (λ _. pure tt) else pure tt
    modify (set_watchers name (current + 1))
    pure true

  unfoldable pub node_watch_started : String → Method E Bool
  unfolding get_node open_watch
  node_watch_started name = do
    known ← get_node name
    elim known [ none ↦ pure false | some _ ↦ λ s. open_watch name (watcher_count name s) s ]

  -- An error of `set_node_status` is logged and dropped.
  close_watch : String → Store E → Store E
  unfolding set_node_status
  close_watch name s =
      (set_node_status name NodeStatus.not_ready
        (record s { node_watchers = remove name s.node_watchers })).0

  unfoldable pub node_watch_ended : String → Store E → Store E
  unfolding close_watch
  node_watch_ended name s = elim (lookup name s.node_watchers) [
    | none ↦ s
    | some count ↦ if eqb (count - 1) 0 then close_watch name s else set_watchers name (count - 1) s
  ]
