-- ===== src/Api/Handlers/Cli/Pods.antt =====
-- api/src/handlers/cli.rs: a pod that is created, read and deleted, for a store in memory.
use barenetes.Base.{
  String, ◌≡◌, refl, sym, ap, ◌∙◌, subst, false, Option, none, some, [], ◌∷◌, ◌++◌, ◌==◌, string_eq,
  pair_eq, arith, inl, inr, Option-cases, Result-cases, ok, err,
}
use barenetes.Base.Map.{
  lookup, insert, remove, lookup-insert, lookup-remove, lookup-insert_self, lookup-remove_self,
}
use barenetes.Shared.{PodDetail, PodWithSpec, EventType}
use barenetes.Api.Status.{pod_not_found}
use barenetes.Api.Store.{Etcd, Store, PodKey, pod_key}
use barenetes.Api.Store.Pods.{create_pod, get_pod, remove_pod}
use barenetes.Api.Store.Snapshots.{publish_desired_state_event}
use barenetes.Api.Handlers.Cli.{accept_pod, create_pod_impl, get_pod_impl, delete_pod_impl}

module _ {E : Etcd} (s : Store E) (m : s.client ≡ none) where
  create_pod_impl-stored :
      (request : Option PodWithSpec) (detail : PodDetail)
      → (create_pod_impl request s).1 ≡ ok detail
      → (lookup (pod_key detail) s.pods ≡ none)
        × ((create_pod_impl request s).0.pods ≡ insert (pod_key detail) detail s.pods)
        × ((create_pod_impl request s).0.client ≡ none)
  unfolding create_pod_impl create_pod
  create_pod_impl-stored request detail h = elim (Result-cases (accept_pod request)) [
    | inl (_, e) ↦ ground (arith, h, e)
    | inr (found, e) ↦ elim (Option-cases (lookup (pod_key found.2) s.pods)) [
      | inr (_, f) ↦ ground (arith, h, e, f, m)
      | inl f ↦
          let same : found.2 ≡ detail = ground (arith, h, e, f, m) in
          (
            ap (λ d. lookup (pod_key d) s.pods) (sym same) ∙ f,
            subst (λ d. (create_pod_impl request s).0.pods ≡ insert (pod_key d) d s.pods) same
                (ground (arith, e, f, m)),
            ground (arith, e, f, m),
          )
    ]
  ]

  get_pod_impl-lookup :
      (ns name : String) (pod : PodDetail)
      → lookup (ns, name) s.pods ≡ some pod
      → get_pod_impl ns name s ≡ (s, ok pod)
  unfolding get_pod_impl get_pod
  get_pod_impl-lookup ns name pod e = ground (arith, m, e)

  get_pod_impl-missing :
      (ns name : String)
      → lookup (ns, name) s.pods ≡ none
      → get_pod_impl ns name s ≡ (s, err (pod_not_found ns name))
  unfolding get_pod_impl get_pod
  get_pod_impl-missing ns name e = ground (arith, m, e)

  delete_pod_impl-removed :
      (ns name : String) (pod : PodDetail)
      → lookup (ns, name) s.pods ≡ some pod
      → let (s', r) = delete_pod_impl ns name s in
        (r ≡ ok name)
        × (s'.client ≡ none)
        × (s'.pods ≡ remove (ns, name) s.pods)
        × (s'.pod_events
            ≡ s.pod_events ++ record { event_type = EventType.deleted; pod = some pod } ∷ [])
  unfolding delete_pod_impl remove_pod publish_desired_state_event
  delete_pod_impl-removed ns name pod e =
      (ground (arith, m, e), ground (arith, m, e), ground (arith, m, e), ground (arith, m, e))

-- In memory, a pod that is created was not there, is what a read at its key answers then, and
-- leaves every other pod as it was.
pub create_pod_impl-get :
    {E : Etcd} (s : Store E) (request : Option PodWithSpec) (detail : PodDetail)
    → s.client ≡ none
    → (create_pod_impl request s).1 ≡ ok detail
    → let s' = (create_pod_impl request s).0 in
      let key = pod_key detail in
      (lookup key s.pods ≡ none)
      × (get_pod_impl key.0 key.1 s' ≡ (s', ok detail))
      × ((j : PodKey) → (key == j) ≡ false → lookup j s'.pods ≡ lookup j s.pods)
create_pod_impl-get s request detail m h =
    let (fresh, pods, m') = create_pod_impl-stored s m request detail h in
    let key = pod_key detail in
    (
      fresh,
      get_pod_impl-lookup _ m' key.0 key.1 detail
          (ap (lookup key) pods ∙ lookup-insert_self key detail s.pods),
      λ j other. ap (lookup j) pods ∙ (lookup-insert key j detail s.pods ∙ rw other refl),
    )

-- In memory, once a stored pod is deleted, a read at its key answers NotFound, every other pod
-- is as it was, and the last event tells of the deletion.
pub delete_pod_impl-get :
    {E : Etcd} (s : Store E) (ns name : String) (pod : PodDetail)
    → s.client ≡ none
    → lookup (ns, name) s.pods ≡ some pod
    → let (s', r) = delete_pod_impl ns name s in
      (r ≡ ok name)
      × (get_pod_impl ns name s' ≡ (s', err (pod_not_found ns name)))
      × ((j : PodKey) → ((ns, name) == j) ≡ false → lookup j s'.pods ≡ lookup j s.pods)
      × (s'.pod_events
          ≡ s.pod_events ++ record { event_type = EventType.deleted; pod = some pod } ∷ [])
delete_pod_impl-get s ns name pod m e =
    let (done, m', pods, told) = delete_pod_impl-removed s m ns name pod e in
    (
      done,
      get_pod_impl-missing _ m' ns name
          (ap (lookup (ns, name)) pods ∙ lookup-remove_self (ns, name) s.pods),
      λ j other. ap (lookup j) pods ∙ (lookup-remove (ns, name) j s.pods ∙ rw other refl),
      told,
    )
