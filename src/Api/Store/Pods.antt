-- ===== src/Api/Store/Pods.antt =====
-- api/src/store.rs: the methods of `Store` on pods. Each has a branch for a store with an etcd
-- client and one for a store in memory. A closure that changes a pod is a function; where the
-- source answers `true` for an update, the model answers the pod as it was written.
use barenetes.Base.{
  ℕ, Bool, true, false, Option, none, some, List, if◌then◌else◌, ok, err, string_eq, pair_eq,
}
use barenetes.Base.Map.{lookup, contains_key, insert, remove}
use barenetes.Shared.{PodDetail, EventType}
use barenetes.Api.Status.{StoreError}
use barenetes.Api.Store.{
  Etcd, PodKey, Store, Action, Method, ◌>>=◌, ◌>>◌, pure, lift, modify, ask, in_etcd, decoded,
  decodable, values, publish_pod_event, pods_prefix, pod_etcd_key, pod_key,
}

-- A record that does not decode is deleted all the same, without an event.
abbrev old_pod : (E : Etcd) → Option (E.Bytes × ℕ) → Option PodDetail
old_pod E none = none
old_pod E (some kv) = elim (E.decode_pod kv.0) [ ok pod ↦ some pod | err _ ↦ none ]

-- The read, the change and the transaction that writes if the version is still the one read.
update_session :
    (E : Etcd) → PodKey → (PodDetail → PodDetail) → Action E.Server StoreError (Option PodDetail)
update_session E key mutate = do
  found ← ask (E.get (pod_etcd_key key))
  elim found [
    | none ↦ pure none
    | some kv ↦ do
      pod ← lift (decoded (E.decode_pod kv.0))
      written ← ask (E.put_if (pod_etcd_key key) kv.1 (E.encode_pod (mutate pod)))
      pure (if written then some (mutate pod) else none)
  ]

module _ {E : Etcd} where
  abbrev pub announce : EventType → PodDetail → Store E → Store E
  announce event_type pod = publish_pod_event (record { event_type = event_type; pod = some pod })

  unfoldable upsert_pod : PodDetail → Method E (Unit {0})
  upsert_pod pod s = elim s.client [
    | some server ↦ in_etcd server (ask (E.put (pod_etcd_key (pod_key pod)) (E.encode_pod pod))) s
    | none ↦ (record s { pods = insert (pod_key pod) pod s.pods }, ok tt)
  ]

  -- The transaction puts the pod if its key has version 0: if it is not there.
  create_etcd : E.Server → PodDetail → Method E Bool
  create_etcd server pod = do
    created ← in_etcd server (ask (E.put_if (pod_etcd_key (pod_key pod)) 0 (E.encode_pod pod)))
    if created then modify (announce EventType.added pod) else pure tt
    pure created

  unfoldable pub create_pod : PodDetail → Method E Bool
  unfolding create_etcd
  create_pod pod s = elim s.client [
    | some server ↦ create_etcd server pod s
    | none ↦ if contains_key (pod_key pod) s.pods then (s, ok false) else (
      announce EventType.added pod (record s { pods = insert (pod_key pod) pod s.pods }),
      ok true,
    )
  ]

  get_etcd : E.Server → PodKey → Method E (Option PodDetail)
  get_etcd server key = do
    found ← in_etcd server (ask (E.get (pod_etcd_key key)))
    elim found [
      | none ↦ pure none
      | some kv ↦ do pod ← lift (decoded (E.decode_pod kv.0)); pure (some pod)
    ]

  unfoldable pub get_pod : PodKey → Method E (Option PodDetail)
  unfolding get_etcd
  get_pod key s = elim s.client [
    | some server ↦ get_etcd server key s
    | none ↦ (s, ok (lookup key s.pods))
  ]

  abbrev pub list_etcd : E.Server → Method E (List PodDetail)
  list_etcd server = do
    kvs ← in_etcd server (ask (E.get_prefix pods_prefix))
    pure (decodable E.decode_pod kvs)

  unfoldable pub list_pods : Method E (List PodDetail)
  list_pods s = elim s.client [ some server ↦ list_etcd server s | none ↦ (s, ok (values s.pods)) ]

  abbrev announce_deleted : Option PodDetail → Store E → Store E
  announce_deleted none s = s
  announce_deleted (some pod) s = announce EventType.deleted pod s

  remove_etcd : E.Server → PodKey → Method E (Option PodDetail)
  remove_etcd server key = do
    old ← in_etcd server (do
      found ← ask (E.get (pod_etcd_key key))
      ask (E.delete (pod_etcd_key key))
      pure (old_pod E found))
    modify (announce_deleted old)
    pure old

  unfoldable pub remove_pod : PodKey → Method E (Option PodDetail)
  unfolding remove_etcd
  remove_pod key s = elim s.client [
    | some server ↦ remove_etcd server key s
    | none ↦ (
      announce_deleted (lookup key s.pods) (record s { pods = remove key s.pods }),
      ok (lookup key s.pods),
    )
  ]

  abbrev announce_update : EventType → Option PodDetail → Store E → Store E
  announce_update event_type none s = s
  announce_update event_type (some pod) s = announce event_type pod s

  update_etcd :
      E.Server → PodKey → EventType → (PodDetail → PodDetail) → Method E (Option PodDetail)
  unfolding update_session
  update_etcd server key event_type mutate = do
    updated ← in_etcd server (update_session E key mutate)
    modify (announce_update event_type updated)
    pure updated

  update_memory : PodKey → EventType → (PodDetail → PodDetail) → Method E (Option PodDetail)
  update_memory key event_type mutate s = elim (lookup key s.pods) [
    | none ↦ (s, ok none)
    | some pod ↦ (
      announce event_type (mutate pod) (record s { pods = insert key (mutate pod) s.pods }),
      ok (some (mutate pod)),
    )
  ]

  unfoldable pub update_and_publish_pod :
      PodKey → EventType → (PodDetail → PodDetail) → Method E (Option PodDetail)
  unfolding update_etcd update_memory
  update_and_publish_pod key event_type mutate s = elim s.client [
    | some server ↦ update_etcd server key event_type mutate s
    | none ↦ update_memory key event_type mutate s
  ]

  -- The source repeats the body of `update_and_publish_pod`, with a MODIFIED event.
  unfoldable pub update_pod_status : PodKey → (PodDetail → PodDetail) → Method E (Option PodDetail)
  unfolding update_etcd update_memory
  update_pod_status key mutate s = elim s.client [
    | some server ↦ update_etcd server key EventType.modified mutate s
    | none ↦ update_memory key EventType.modified mutate s
  ]
