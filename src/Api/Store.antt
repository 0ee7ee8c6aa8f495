-- ===== src/Api/Store.antt =====
-- api/src/store.rs: the state of the API server. The store keeps pods and nodes in memory, or in
-- etcd when it has a client. What a broadcast channel has been sent is a list, newest last.
pub mod Pods
pub mod Nodes
pub mod Snapshots
pub mod Keys
use Prim.Native.String.{◌++◌ as str_append}
use barenetes.Base.{
  ℕ, String, Bool, Option, none, some, List, [], ◌∷◌, ◌++◌, map, Result, ok, err, string_eq,
  pair_eq,
}
use barenetes.Base.Map.{Map}
use barenetes.Shared.{Node, PodDetail, WatchPodEvent, WatchNodeEvent, WatchDesiredStateEvent}
use barenetes.Api.Status.{StoreError, connection}
pub use barenetes.Base.Action.{Action, ◌>>=◌, ◌>>◌, pure, lift, modify}

-- `etcd_client` with the protobuf codec: a call may fail with a message, and may have changed the
-- server all the same. A value comes back with its version; `put_if` is the transaction that puts a
-- value if the key has the given version, 0 for a key that is not there.
pub record Etcd : Type 1 where
  pub Server : Type 0
  pub Bytes : Type 0
  pub get : String → Server → Server × Result String (Option (Bytes × ℕ))
  pub get_prefix : String → Server → Server × Result String (List Bytes)
  pub put : String → Bytes → Server → Server × Result String (Unit {0})
  pub put_if : String → ℕ → Bytes → Server → Server × Result String Bool
  pub delete : String → Server → Server × Result String (Unit {0})
  pub encode_pod : PodDetail → Bytes
  pub decode_pod : Bytes → Result String PodDetail
  pub encode_node : Node → Bytes
  pub decode_node : Bytes → Result String Node

-- (namespace, name)
abbrev pub PodKey : Type 0
PodKey = String × String

-- The sending half of a broadcast channel: how many receivers are open, and what was sent.
pub record Channel : Type 0 where
  pub receivers : ℕ
  pub sent : List WatchDesiredStateEvent

pub record Store (E : Etcd) : Type 0 where
  pub client : Option E.Server
  pub pods : Map PodKey PodDetail
  pub nodes : Map String Node
  pub pod_events : List WatchPodEvent
  pub node_events : List WatchNodeEvent
  pub node_watchers : Map String ℕ
  pub desired_state_channels : Map String Channel

-- `Store::new` and `Store::new_with_etcd`.
abbrev pub new_store : (E : Etcd) → Option E.Server → Store E
new_store E client = record {
  client = client;
  pods = [];
  nodes = [];
  pod_events = [];
  node_events = [];
  node_watchers = [];
  desired_state_channels = [];
}

-- A method of the store.
abbrev pub Method : Etcd → Type 0 → Type 0
Method E A = Action (Store E) StoreError A

-- A call of the etcd client, whose error becomes `StoreError::Connection`.
abbrev pub ask :
    {Server A : Type 0} → (Server → Server × Result String A) → Action Server StoreError A
ask f server =
    let (server', r) = f server in
    (server', elim r [ ok a ↦ ok a | err msg ↦ err (connection msg) ])

-- The calls that a method makes on its client.
abbrev pub in_etcd : {E : Etcd} {A : Type 0} → E.Server → Action E.Server StoreError A → Method E A
in_etcd server m s = let (server', r) = m server in (record s { client = some server' }, r)

-- `map_err(|e| StoreError::Decode(..))`.
abbrev pub decoded : {A : Type 0} → Result String A → Result StoreError A
decoded (ok a) = ok a
decoded (err msg) = err (StoreError.decode msg)

-- `filter_map(|kv| decode(kv.value()).ok())`.
abbrev pub decodable : {Bytes A : Type 0} → (Bytes → Result String A) → List Bytes → List A
decodable f [] = []
decodable f (b ∷ bs) = let rest = decodable f bs in elim (f b) [ ok a ↦ a ∷ rest | err _ ↦ rest ]

abbrev pub values : {K V : Type 0} → Map K V → List V
values = map (λ e. e.1)

-- Publishing is sending and forgetting.
abbrev pub publish_pod_event : {E : Etcd} → WatchPodEvent → Store E → Store E
publish_pod_event e s = record s { pod_events = s.pod_events ++ e ∷ [] }

abbrev pub publish_node_event : {E : Etcd} → WatchNodeEvent → Store E → Store E
publish_node_event e s = record s { node_events = s.node_events ++ e ∷ [] }

-- The keys of etcd.
abbrev pub pods_prefix : String
pods_prefix = "/barenetes/pods/"

abbrev pub nodes_prefix : String
nodes_prefix = "/barenetes/nodes/"

abbrev pub pod_etcd_key : PodKey → String
pod_etcd_key key = str_append pods_prefix (str_append key.0 (str_append "/" key.1))

abbrev pub node_etcd_key : String → String
node_etcd_key name = str_append nodes_prefix name

-- `pod_key`: the namespace and the name, each empty where the message lacks it.
abbrev pub pod_key : PodDetail → PodKey
pod_key d = elim d.core [
  | none ↦ ("", "")
  | some core ↦ (
    elim core.spec [ none ↦ "" | some spec ↦ spec.namespace ],
    elim core.pod [ none ↦ "" | some pod ↦ pod.name ],
  )
]
