-- ===== src/Api/Store/Snapshots/Complete.antt =====
-- api/src/store.rs: what the snapshot of a pod watch holds.
use barenetes.Base.{
  ◌≡◌, ◌↔◌, ap, Bool, not, none, List, [], ◌∷◌, ◌++◌, filter, length, Member, filter-Member,
  Member-filter, arith, ◌⊎◌, inl, inr, Bool-cases, ok,
}
use barenetes.Shared.{PodDetail}
use barenetes.Api.Store.{Etcd, Store, values}
use barenetes.Api.Store.Pods.{list_pods}
use barenetes.Api.Store.Snapshots.{is_unassigned, sort_by_key, subscribe_pod_events_with_snapshot}

Member-append :
    {A : Type 0} (z : A) (xs ys : List A) → Member z (xs ++ ys) ↔ (Member z xs ⊎ Member z ys)
Member-append z [] ys = (λ m. inr m, λ m. elim m [ inl x ↦ elim x [ ] | inr n ↦ n ])
Member-append z (x ∷ xs) ys =
    let (there, back) = Member-append z xs ys in
    (
      λ m. elim m [
        | inl e ↦ inl (inl e)
        | inr n ↦ elim (there n) [ inl a ↦ inl (inr a) | inr b ↦ inr b ]
      ],
      λ m. elim m [
        | inl (inl e) ↦ inl e
        | inl (inr n) ↦ inr (back (inl n))
        | inr n ↦ inr (back (inr n))
      ],
    )

Member-sort_by_key :
    {A : Type 0} (key : A → Bool) (z : A) (xs : List A)
    → Member z xs ↔ Member z (sort_by_key key xs)
Member-sort_by_key key z xs = (
  λ m.
      (Member-append z (filter (λ x. not (key x)) xs) (filter key xs)).1
        (elim (Bool-cases (key z)) [
          | inl on ↦ inr (filter-Member key z xs m on)
          | inr off ↦ inl (filter-Member (λ x. not (key x)) z xs m (ap not off))
        ]),
  λ m. elim ((Member-append z (filter (λ x. not (key x)) xs) (filter key xs)).0 m) [
    | inl a ↦ (Member-filter (λ x. not (key x)) z xs a).0
    | inr b ↦ (Member-filter key z xs b).0
  ],
)

-- The snapshot that opens a watch of pods, for a store in memory, holds exactly the stored
-- pods, those that are already assigned to a node included, and the receiver stands behind the
-- events sent so far.
pub subscribe_pod_events_with_snapshot_lem :
    {E : Etcd} (s : Store E)
    → s.client ≡ none
    → (pods : List PodDetail) × (subscribe_pod_events_with_snapshot s
        ≡ (s, ok (pods, length s.pod_events)))
      × ((pod : PodDetail) → Member pod (values s.pods) ↔ Member pod pods)
unfolding subscribe_pod_events_with_snapshot list_pods
subscribe_pod_events_with_snapshot_lem s m = (
  sort_by_key is_unassigned (values s.pods),
  ground (arith, m),
  λ pod. Member-sort_by_key is_unassigned pod (values s.pods),
)
