-- ===== src/Cni/Pool/Allocation.antt =====
-- Allocation and release on the pool of a VLAN.
use barenetes.Base.{
  ℕ, suc, ◌+◌, ◌-◌, ◌≤◌, ◌<◌, ◌≡◌, refl, sym, ap, ◌∙◌, subst, true, ok, err, length, arith, inl,
  inr, ◌⊎◌, ok-eq, ok≢err,
}
use barenetes.Base.Range.{IsFirstFree, AllUsed, find_free_lem}
use barenetes.Base.SortedSet.{
  contains, insert, remove, contains-insert, remove-insert, length-insert, length-remove,
}
use barenetes.Cni.{Host, World, other_error}
use barenetes.Cni.Addressing.{ipv4}
use barenetes.Cni.Files.Working.{FilesWork, with_directory}
use barenetes.Cni.Pool.{
  IpPoolDirectory, pool, IpPool, PoolState, read_bytes, take_free, allocate, release,
}
use barenetes.Cni.Pool.Working.{stored, written, with_state-err, with_state-ok, stored-written}

-- The range of a pool is not empty: `IpPool::new` refuses it.
abbrev pub HasRange : IpPool → Type 0
HasRange p = p.first ≤ p.last

module _ {H : Host} (F : FilesWork H) (p : IpPool) (w : World H) {s : PoolState} where
  -- The run of `allocate`, state by state.
  pub allocate-run :
      stored p w ≡ ok s
      → HasRange p
      → length s < 1023
      → ((a : ℕ) × (b : H.Bytes) × IsFirstFree p.first (suc p.last) a s
          × (read_bytes H b ≡ ok (insert a s))
          × (allocate p w ≡ (written p b (with_directory p.directory w), ok a)))
        ⊎ (AllUsed p.first (suc p.last) s
            × (allocate p w
                ≡ (with_directory p.directory w, err (other_error "IP pool is exhausted"))))
  unfolding allocate
  allocate-run h range short = elim (find_free_lem (suc p.last - p.first) p.first s) [
    | inl (a, found, f) ↦
        let (b, d, run) =
          with_state-ok F p (take_free p) w h (ground (arith, found))
            (ground (arith, length-insert a s)) in
        inl (a, b, subst (λ high. IsFirstFree p.first high a s) span f, d, run)
    | inr (nothing, used) ↦ inr (
      subst (λ high. AllUsed p.first high s) span used,
      with_state-err F p (take_free p) w h (ground (arith, nothing)),
    )
  ]
    where
      span : (suc p.last - p.first) + p.first ≡ suc p.last
      span = omega (arith, range)

  pub release-run :
      (a : ℕ)
      → stored p w ≡ ok s
      → p.first ≤ a
      → a ≤ p.last
      → length s < 1023
      → (b : H.Bytes) × (read_bytes H b ≡ ok (remove a s))
        × (release p a w ≡ (written p b (with_directory p.directory w), ok (contains a s)))
  unfolding release
  release-run a h low high short =
      let (b, d, run) =
        with_state-ok F p (λ state. ok (remove a state, contains a state)) w h refl
          (ground (arith, length-remove a s)) in
      (b, d, ground (arith, run, low, high))

  -- On a host whose files work, the file of a pool implements a set of addresses: an allocation
  -- answers the lowest address of the range that is not in the set and puts it in, or, when all
  -- are in, fails and leaves the set. The range is not empty and the set has fewer than 1023
  -- addresses before.
  pub allocate_lem :
      stored p w ≡ ok s
      → HasRange p
      → length s < 1023
      → ((a : ℕ) × ((allocate p w).1 ≡ ok a)
          × IsFirstFree p.first (suc p.last) a s
          × (stored p (allocate p w).0 ≡ ok (insert a s)))
        ⊎ (AllUsed p.first (suc p.last) s
            × ((allocate p w).1 ≡ err (other_error "IP pool is exhausted"))
            × (stored p (allocate p w).0 ≡ ok s))
  allocate_lem h range short = elim (allocate-run h range short) [
    | inl (a, b, f, d, run) ↦ inl (
      a,
      ap (λ x. x.1) run,
      f,
      ap (λ x. stored p x.0) run ∙ stored-written F p b (with_directory p.directory w) ∙ d,
    )
    | inr (used, run) ↦ inr (used, ap (λ x. x.1) run, ap (λ x. stored p x.0) run ∙ h)
  ]

  -- Releasing an address of the range answers whether it was in the set, and takes it out.
  pub release_lem :
      (a : ℕ)
      → stored p w ≡ ok s
      → p.first ≤ a
      → a ≤ p.last
      → length s < 1023
      → ((release p a w).1 ≡ ok (contains a s)) × (stored p (release p a w).0 ≡ ok (remove a s))
  release_lem a h low high short =
      let (b, d, run) = release-run a h low high short in
      (
        ap (λ x. x.1) run,
        ap (λ x. stored p x.0) run ∙ stored-written F p b (with_directory p.directory w) ∙ d,
      )

-- On a host whose files work, releasing an address that was just allocated answers true and
-- leaves the pool with the set that it had. The range is not empty and the set has fewer than
-- 1022 addresses before.
pub release-allocate :
    {H : Host} (F : FilesWork H) (p : IpPool) (w : World H) {s : PoolState} (a : ℕ)
    → stored p w ≡ ok s
    → HasRange p
    → length s < 1022
    → (allocate p w).1 ≡ ok a
    → ((release p a (allocate p w).0).1 ≡ ok true)
      × (stored p (release p a (allocate p w).0).0 ≡ ok s)
release-allocate F p w {s} a h range short answered =
    elim (allocate_lem F p w h range (omega (arith, short))) [
      | inr (used, refused, kept) ↦ elim (ok≢err (sym answered ∙ refused)) [ ]
      | inl (c, found, f, now) ↦ given_back c (ok-eq (sym found ∙ answered)) f now
    ]
  where
    given_back :
        (c : ℕ)
        → c ≡ a
        → IsFirstFree p.first (suc p.last) c s
        → stored p (allocate p w).0 ≡ ok (insert c s)
        → ((release p a (allocate p w).0).1 ≡ ok true)
          × (stored p (release p a (allocate p w).0).0 ≡ ok s)
    given_back c same f now =
        let (answer, left) =
          release_lem F p (allocate p w).0 a (now ∙ ap (λ x. ok (insert x s)) same)
            (ground (arith, f.at_least, same)) (ground (arith, f.below, same))
            (omega (arith, length-insert a s, short)) in
        (
          answer ∙ ap ok (ground (arith, contains-insert a a s)),
          left ∙ ap ok (remove-insert a s (ground (arith, f.free, same))),
        )

-- What `pool` answers: the directory and the range of the VLAN.
pub pool_lem :
    (pools : IpPoolDirectory) (vlan : ℕ) {p : IpPool}
    → pool pools vlan ≡ ok p
    → (vlan < 256) × (p.first ≡ ipv4 10 vlan pools.node 2) × (p.last ≡ ipv4 10 vlan pools.node 254)
pool_lem pools vlan h = ground (arith, h)

-- Pools of different VLANs, or of nodes with different numbers below 256, have no address in
-- common.
pub pool-disjoint :
    (pools qools : IpPoolDirectory) (vlan wlan : ℕ) {p q : IpPool} (a : ℕ)
    → pools.node < 256
    → qools.node < 256
    → pool pools vlan ≡ ok p
    → pool qools wlan ≡ ok q
    → p.first ≤ a
    → a ≤ p.last
    → q.first ≤ a
    → a ≤ q.last
    → (vlan ≡ wlan) × (pools.node ≡ qools.node)
pool-disjoint pools qools vlan wlan a np nq mp mq pl pu ql qu =
    let (v, pf, pe) = pool_lem pools vlan mp in
    let (w, qf, qe) = pool_lem qools wlan mq in
    (omega (arith, v, w, pf, pe, qf, qe), omega (arith, v, w, pf, pe, qf, qe))
