-- ===== src/Agent/Vlan/Allocations.antt =====
-- The VLANs that the agent hands out: each pod keeps its own, and no two share one.
use barenetes.Base.{
  ℕ, String, true, none, some, [], ◌∷◌, ◌≡◌, ◌≢◌, refl, sym, ap, ◌∙◌, subst, Result, ok, err,
  string_eq, arith, inl, inr, Option-cases, ◌≤◌, ◌<◌, Result-cases,
}
use barenetes.Base.Map.{
  Map, lookup, insert, remove, Distinct, insert-Distinct, remove-Distinct, lookup-insert,
  insert-some, remove-some, lookup-insert_self, remove_absent,
}
use barenetes.Base.Range.{IsFirstFree, AllUsed, find_free_lem}
use barenetes.Base.SortedSet.{contains}
use barenetes.Agent.{Platform, Agent}
use barenetes.Agent.Vlan.{used_vlans, save, claim, allocate_for, release}

-- Each pod stands once, with a VLAN of the range that no other pod has.
pub record IsVlanMap (m : Map String ℕ) : Type 0 where
  pub distinct : Distinct m
  pub in_range : (pod : String) (vlan : ℕ) → lookup pod m ≡ some vlan → (2 ≤ vlan) × (vlan < 4095)
  pub own :
      (pod other : String) (vlan : ℕ)
      → lookup pod m ≡ some vlan
      → lookup other m ≡ some vlan
      → pod ≡ other

used_vlans-contains :
    (pod : String) (vlan : ℕ) (m : Map String ℕ)
    → lookup pod m ≡ some vlan
    → contains vlan (used_vlans m) ≡ true
used_vlans-contains pod vlan [] h = cc
used_vlans-contains pod vlan ((p, v) ∷ m) h = ground (arith, used_vlans-contains pod vlan m)

pub insert-IsVlanMap :
    (pod : String) (vlan : ℕ) (m : Map String ℕ)
    → IsVlanMap m
    → IsFirstFree 2 4095 vlan (used_vlans m)
    → IsVlanMap (insert pod vlan m)
insert-IsVlanMap pod vlan m s f = record {
  distinct = insert-Distinct pod vlan m s.distinct;
  in_range = λ p v h. elim (insert-some pod p vlan m h) [
    | inl (same, e) ↦ ground (arith, e, f.at_least, f.below)
    | inr (_, before) ↦ s.in_range p v before
  ];
  own = λ p q v hp hq. elim (insert-some pod p vlan m hp) [
    | inl (same, e) ↦ elim (insert-some pod q vlan m hq) [
      | inl (also, _) ↦ sym same ∙ also
      | inr (_, before) ↦ ground (arith, used_vlans-contains q v m before, f.free, e)
    ]
    | inr (_, before) ↦ elim (insert-some pod q vlan m hq) [
      | inl (also, e) ↦ ground (arith, used_vlans-contains p v m before, f.free, e)
      | inr (_, known) ↦ s.own p q v before known
    ]
  ];
}

pub remove-IsVlanMap : (pod : String) (m : Map String ℕ) → IsVlanMap m → IsVlanMap (remove pod m)
remove-IsVlanMap pod m s = record {
  distinct = remove-Distinct pod m s.distinct;
  in_range = λ p v h. s.in_range p v (remove-some pod p m h);
  own = λ p q v hp hq. s.own p q v (remove-some pod p m hp) (remove-some pod q m hq);
}

-- What `allocate_for` may do to the map.
pub data Allocated (pod : String) (m : Map String ℕ) : Map String ℕ → Result String ℕ → Type 0 where
  known : (vlan : ℕ) → lookup pod m ≡ some vlan → Allocated pod m m (ok vlan)
  full :
      lookup pod m ≡ none
      → AllUsed 2 4095 (used_vlans m)
      → Allocated pod m m (err "no free vlan left")
  fresh :
      (vlan : ℕ) (r : Result String ℕ)
      → lookup pod m ≡ none
      → IsFirstFree 2 4095 vlan (used_vlans m)
      → ((v : ℕ) → r ≡ ok v → v ≡ vlan)
      → Allocated pod m (insert pod vlan m) r

module _ {P : Platform} where
  save-allocations : (s : Agent P) → (save s).0.allocations ≡ s.allocations
  unfolding save
  save-allocations s = ground arith

  claim-run :
      (pod : String) (vlan : ℕ) (s : Agent P)
      → ((claim pod vlan s).0.allocations ≡ insert pod vlan s.allocations)
        × ((v : ℕ) → (claim pod vlan s).1 ≡ ok v → v ≡ vlan)
  unfolding claim
  claim-run pod vlan s =
      let t : Agent P = record s { allocations = insert pod vlan s.allocations } in
      elim (Result-cases (save t).1) [
        | inl (x, r) ↦ (ground (arith, r, save-allocations t), λ v h. ground (arith, r, h))
        | inr (x, r) ↦ (ground (arith, r, save-allocations t), λ v h. ground (arith, r, h))
      ]

  pub allocate_for-Allocated :
      (pod : String) (s : Agent P)
      → Allocated pod s.allocations (allocate_for pod s).0.allocations (allocate_for pod s).1
  unfolding allocate_for
  allocate_for-Allocated pod s = elim (Option-cases (lookup pod s.allocations)) [
    | inr (vlan, e) ↦ rw (e, allocate_for) (known vlan e)
    | inl e ↦ elim (find_free_lem 4093 2 (used_vlans s.allocations)) [
      | inr (nothing, used) ↦ rw (e, nothing, allocate_for) (full e used)
      | inl (vlan, found, f) ↦
          let (now, only) = claim-run pod vlan s in
          rw (e, found, allocate_for)
            (subst (λ m. Allocated pod s.allocations m (claim pod vlan s).1) (sym now)
              (fresh vlan (claim pod vlan s).1 e f only))
    ]
  ]

  -- The map after a call, for every outcome.
  pub allocate_for-IsVlanMap :
      (pod : String) (s : Agent P)
      → IsVlanMap s.allocations
      → IsVlanMap (allocate_for pod s).0.allocations
  allocate_for-IsVlanMap pod s sound = outcome (allocate_for-Allocated pod s)
    where
      outcome :
          {m : Map String ℕ} {r : Result String ℕ} → Allocated pod s.allocations m r → IsVlanMap m
      outcome (known vlan h) = sound
      outcome (full h used) = sound
      outcome (fresh vlan r h f only) = insert-IsVlanMap pod vlan s.allocations sound f

  -- A VLAN that is answered is the pod's from then on; the others keep theirs.
  pub allocate_for-lookup :
      (pod : String) (s : Agent P) {vlan : ℕ}
      → (allocate_for pod s).1 ≡ ok vlan
      → lookup pod (allocate_for pod s).0.allocations ≡ some vlan
  allocate_for-lookup pod s {vlan} answered = outcome (allocate_for-Allocated pod s) answered
    where
      outcome :
          {m : Map String ℕ} {r : Result String ℕ}
          → Allocated pod s.allocations m r
          → r ≡ ok vlan
          → lookup pod m ≡ some vlan
      outcome (known v h) e = ground (arith, h, e)
      outcome (full h used) e = cc
      outcome (fresh v r h f only) e =
          lookup-insert_self pod v s.allocations ∙ ap some (sym (only vlan e))

  pub allocate_for-others :
      (pod other : String) (s : Agent P)
      → pod ≢ other
      → lookup other (allocate_for pod s).0.allocations ≡ lookup other s.allocations
  allocate_for-others pod other s ne = outcome (allocate_for-Allocated pod s)
    where
      outcome :
          {m : Map String ℕ} {r : Result String ℕ}
          → Allocated pod s.allocations m r
          → lookup other m ≡ lookup other s.allocations
      outcome (known v h) = refl
      outcome (full h used) = refl
      outcome (fresh v r h f only) =
          ground (arith, lookup-insert pod other v s.allocations, string_eq.beq_iff pod other, ne)

  -- Whether the file is written or not, a released pod has no VLAN.
  pub release-allocations :
      (pod : String) (s : Agent P) → (release pod s).0.allocations ≡ remove pod s.allocations
  unfolding release
  release-allocations pod s = elim (Option-cases (lookup pod s.allocations)) [
    | inl e ↦ ground (arith, e, remove_absent pod s.allocations e)
    | inr (vlan, e) ↦
        let t : Agent P = record s { allocations = remove pod s.allocations } in
        ground (arith, e, save-allocations t)
  ]
