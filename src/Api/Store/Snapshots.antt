-- ===== src/Api/Store/Snapshots.antt =====
-- api/src/store.rs: the snapshots that open a watch, and the desired-state channels. A receiver of
-- a broadcast channel is how many events had been sent when it subscribed; it gets the later ones.
pub mod Complete
use barenetes.Base.{
  ℕ, String, Bool, true, false, not, Option, none, some, List, [], ◌∷◌, ◌++◌, ◌+◌, ◌-◌, filter,
  length, ltb, if◌then◌else◌, ◌==◌, ok, err, string_eq,
}
use barenetes.Base.Map.{Map, lookup, insert}
use barenetes.Shared.{Node, PodDetail, PodWithSpec, WatchDesiredStateEvent}
use barenetes.Api.Store.{Etcd, Store, Channel, Method, ◌>>=◌, pure}
use barenetes.Api.Store.Pods.{list_pods}
use barenetes.Api.Store.Nodes.{list_nodes}

abbrev pub Receiver : Type 0
Receiver = ℕ

abbrev pub is_unassigned : PodDetail → Bool
is_unassigned pod = pod.node_name == ""

-- `sort_by_key`, which is stable, on a key that is a `bool`: `false` comes first.
abbrev pub sort_by_key : {A : Type 0} → (A → Bool) → List A → List A
sort_by_key key xs = filter (λ x. not (key x)) xs ++ filter key xs

abbrev pub assigned_to : String → List PodDetail → List PodWithSpec
assigned_to name [] = []
assigned_to name (pod ∷ pods) =
    let rest = assigned_to name pods in
    if pod.node_name == name then elim pod.core [ none ↦ rest | some core ↦ core ∷ rest ] else rest

-- `retain(|_, sender| sender.receiver_count() > 0)`.
abbrev pub listened : Map String Channel → Map String Channel
listened = filter (λ e. ltb 0 e.1.receivers)

abbrev pub subscribed : Option Channel → Channel
subscribed none = record { receivers = 1; sent = [] }
subscribed (some c) = record c { receivers = c.receivers + 1 }

module _ {E : Etcd} where
  -- A receiver goes away: its channel has one less.
  unfoldable pub drop_receiver : String → Store E → Store E
  drop_receiver name s = elim (lookup name s.desired_state_channels) [
    | none ↦ s
    | some c ↦ record s {
      desired_state_channels =
          insert name (record c { receivers = c.receivers - 1 }) s.desired_state_channels;
    }
  ]

  unfoldable pub subscribe_pod_events_with_snapshot : Method E (List PodDetail × Receiver)
  unfolding list_pods
  subscribe_pod_events_with_snapshot = do
    pods ← list_pods
    λ s. (s, ok (sort_by_key is_unassigned pods, length s.pod_events))

  unfoldable pub subscribe_node_events_with_snapshot : Method E (List Node × Receiver)
  unfolding list_nodes
  subscribe_node_events_with_snapshot = do
    nodes ← list_nodes
    λ s. (s, ok (nodes, length s.node_events))

  -- An event for a node without a channel is dropped.
  unfoldable pub publish_desired_state_event : String → WatchDesiredStateEvent → Store E → Store E
  publish_desired_state_event name event s = elim (lookup name s.desired_state_channels) [
    | none ↦ s
    | some c ↦ record s {
      desired_state_channels =
          insert name (record c { sent = c.sent ++ event ∷ [] }) s.desired_state_channels;
    }
  ]

  unfoldable pub subscribe_desired_state_events : String → Store E → Store E × Receiver
  subscribe_desired_state_events name s =
      let channels = listened s.desired_state_channels in
      let c = subscribed (lookup name channels) in
      (record s { desired_state_channels = insert name c channels }, length c.sent)

  unfoldable pub subscribe_desired_state_with_snapshot :
      String → Method E (List PodWithSpec × Receiver)
  unfolding list_pods subscribe_desired_state_events
  subscribe_desired_state_with_snapshot name = do
    pods ← list_pods
    λ s.
        let (s', receiver) = subscribe_desired_state_events name s in
        (s', ok (assigned_to name pods, receiver))
