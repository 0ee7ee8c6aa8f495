-- ===== src/Cni/Reconcile/Pools.antt =====
-- The pools after `rebuild_ip_pools`: each holds the addresses of the live workloads of its VLAN.
use barenetes.Base.{
  ℕ, List, [], ◌∷◌, ◌≡◌, ◌≢◌, refl, sym, ap, ◌∙◌, true, false, none, some, Result, ok, err, arith,
  Result-cases, Bool-cases, inl, inr, ◌⊎◌, ok≢err, length, ◌≤◌, ◌<◌, format, eqb, eqb_iff, nat_eq,
  if◌then◌else◌, Option-cases, Member, ◌+◌,
}
use text.Mathlib.TextLemmas.{append_cancel_left, append-nil}
use Prim.Native.String.{◌++◌}
use barenetes.Base.Decimal.{show, show-injective}
use barenetes.Base.SortedSet as S
use barenetes.Base.Map as M
use barenetes.Base.Action.{◌>>=◌, lift}
use barenetes.Cni.{Host, World, Io, IoError, path_eq, WorkloadRecord}
use barenetes.Cni.Addressing.{parse_ipv4}
use barenetes.Cni.Files.Working.{FilesWork, with_directory}
use barenetes.Cni.Pool.{IpPoolDirectory, IpPool, PoolState, pool, pool_file, read_bytes, reset}
use barenetes.Cni.Pool.Working.{stored, written, with_state-ok, with_state-unread, stored-written}
use barenetes.Cni.Pool.Allocation.{pool_lem}
use barenetes.Cni.Reconcile.{
  allocated_in, group_from, keys, add_all, vlans_to_reset, reset_each, known_vlans,
  rebuild_ip_pools,
}

-- The addresses of a VLAN's live workloads, one by one.
pub live_in : ℕ → List WorkloadRecord → PoolState → PoolState
live_in vlan [] set = set
live_in vlan (r ∷ live) set = elim (parse_ipv4 r.ip_address) [
  | none ↦ live_in vlan live set
  | some a ↦
      if eqb r.vlan_id vlan then live_in vlan live (S.insert a set) else live_in vlan live set
]

allocated_in-insert :
    (vlan k : ℕ) (s : PoolState) (m : M.Map ℕ PoolState)
    → allocated_in vlan (M.insert k s m) ≡ (if eqb k vlan then s else allocated_in vlan m)
allocated_in-insert vlan k s m = ground (arith, M.lookup-insert k vlan s m)

group_from_lem :
    (vlan : ℕ) (m : M.Map ℕ PoolState) (live : List WorkloadRecord)
    → allocated_in vlan (group_from m live) ≡ live_in vlan live (allocated_in vlan m)
unfolding live_in
group_from_lem vlan m [] = refl
group_from_lem vlan m (r ∷ live) = elim (Option-cases (parse_ipv4 r.ip_address)) [
  | inl e ↦ rw (e, group_from, live_in) (group_from_lem vlan m live)
  | inr (a, e) ↦
      let m' = M.insert r.vlan_id (S.insert a (allocated_in r.vlan_id m)) m in
      ground (
        arith,
        e,
        group_from_lem vlan m' live,
        allocated_in-insert vlan r.vlan_id (S.insert a (allocated_in r.vlan_id m)) m,
        eqb_iff r.vlan_id vlan,
      )
]

pool_file-injective :
    (pools : IpPoolDirectory) (v x : ℕ) {p q : IpPool}
    → pool pools v ≡ ok p
    → pool pools x ≡ ok q
    → pool_file p ≡ pool_file q
    → v ≡ x
pool_file-injective pools v x {p} {q} fp fq same =
    show-injective v x (pool_lem pools v fp).0 (pool_lem pools x fq).0 (
      sym (append-nil (show v))
      ∙ append_cancel_left "vlan-" (show v ++ "") (show x ++ "") names
      ∙ append-nil (show x))
  where
    directory_of :
        (n : ℕ) {r : IpPool}
        → pool pools n ≡ ok r
        → r.directory ≡ format ("vlan-" ∷ show n ∷ []) ∷ pools.root
    directory_of n f = ground (arith, f)

    names : format ("vlan-" ∷ show v ∷ []) ≡ format ("vlan-" ∷ show x ∷ [])
    names = cc (same, directory_of v fp, directory_of x fq)

module _ {H : Host} (F : FilesWork H) where
  -- A reset writes its set, or nothing.
  reset-run :
      (p : IpPool) (set : PoolState) (w : World H)
      → length set < 1024
      → ((e : IoError) × (stored p w ≡ err e)
          × (reset p set w ≡ (with_directory p.directory w, err e)))
        ⊎ ((b : H.Bytes) × (read_bytes H b ≡ ok set)
            × (reset p set w ≡ (written p b (with_directory p.directory w), ok tt)))
  unfolding reset
  reset-run p set w short = elim (Result-cases (stored p w)) [
    | inl (e, h) ↦ inl (e, h, with_state-unread F p (λ _. ok (set, tt)) w h)
    | inr (s, h) ↦
        let (b, d, run) = with_state-ok F p (λ _. ok (set, tt)) w h refl short in inr (b, d, run)
  ]

abbrev reset_one : {H : Host} → IpPoolDirectory → M.Map ℕ PoolState → ℕ → Io H (Unit {0})
reset_one pools m x = do p ← lift (pool pools x); reset p (allocated_in x m)

stored_elsewhere :
    {H : Host} (p q : IpPool) (b : H.Bytes) (w : World H)
    → pool_file q ≢ pool_file p
    → stored p (written q b w) ≡ stored p w
stored_elsewhere p q b w ne = ground (
  arith,
  M.lookup-insert (pool_file q) (pool_file p) b w.files,
  path_eq.beq_iff (pool_file q) (pool_file p),
)

module _ {H : Host} (F : FilesWork H) (pools : IpPoolDirectory) (m : M.Map ℕ PoolState)
    (small : (v : ℕ) → length (allocated_in v m) < 1024) (vlan : ℕ) {p : IpPool}
    (found : pool pools vlan ≡ ok p) where
  -- One turn leaves the VLAN's pool with its addresses, if it is the VLAN's turn, or as it was.
  reset_one-stored :
      (x : ℕ) (w : World H) {s : PoolState}
      → stored p w ≡ ok s
      → ((x ≢ vlan) × (stored p (reset_one pools m x w).0 ≡ ok s))
        ⊎ (stored p (reset_one pools m x w).0 ≡ ok (allocated_in vlan m))
  reset_one-stored x w {s} h = elim (Bool-cases (eqb x vlan)) [
    | inl same ↦ elim (reset-run F p (allocated_in vlan m) w (small vlan)) [
      | inl (e, unread, run) ↦ elim (ok≢err (sym h ∙ unread)) [ ]
      | inr (b, d, run) ↦ inr (
          after p b (ground (arith, found, run, eqb_iff x vlan))
          ∙ stored-written F p b (with_directory p.directory w)
          ∙ d)
    ]
    | inr other ↦ elim (Result-cases (pool pools x)) [
      | inl (e, none_there) ↦ inl (differs other, ground (arith, none_there, h))
      | inr (q, there) ↦ elim (reset-run F q (allocated_in x m) w (small x)) [
        | inl (e, unread, run) ↦ inl (differs other, ground (arith, there, run, h))
        | inr (b, d, run) ↦ inl (
          differs other,
          after q b (ground (arith, there, run))
              ∙ stored_elsewhere p q b (with_directory q.directory w)
                  (λ files. differs other (pool_file-injective pools x vlan there found files))
              ∙ h,
        )
      ]
    ]
  ]
    where
      differs : eqb x vlan ≡ false → x ≢ vlan
      differs other same = ground (arith, other, same, eqb_iff x vlan)

      after :
          (q : IpPool) (b : H.Bytes)
          → reset_one pools m x w ≡ (written q b (with_directory q.directory w), ok tt)
          → stored p (reset_one pools m x w).0
            ≡ stored p (written q b (with_directory q.directory w))
      after q b run = ap (λ y. stored p y.0) run

  reset_each-keeps :
      (vlans : List ℕ) (w : World H)
      → stored p w ≡ ok (allocated_in vlan m)
      → stored p (reset_each pools m vlans w).0 ≡ ok (allocated_in vlan m)
  unfolding reset_each
  reset_each-keeps [] w h = h
  reset_each-keeps (x ∷ vlans) w h =
      reset_each-keeps vlans (reset_one pools m x w).0
        (elim (reset_one-stored x w h) [ inl (_, kept) ↦ kept | inr now ↦ now ])

  pub reset_each-stored :
      (vlans : List ℕ) (w : World H) {s : PoolState}
      → S.contains vlan vlans ≡ true
      → stored p w ≡ ok s
      → stored p (reset_each pools m vlans w).0 ≡ ok (allocated_in vlan m)
  unfolding reset_each
  reset_each-stored [] w among h = cc
  reset_each-stored (x ∷ vlans) w among h = elim (reset_one-stored x w h) [
    | inr now ↦ reset_each-keeps vlans (reset_one pools m x w).0 now
    | inl (ne, kept) ↦
        reset_each-stored vlans (reset_one pools m x w).0 (ground (arith, among, ne)) kept
  ]

-- The VLAN of a live workload is among those that are reset.
keys-contains :
    (v : ℕ) (m : M.Map ℕ PoolState) {s : PoolState}
    → M.lookup v m ≡ some s
    → S.contains v (keys m) ≡ true
keys-contains v [] h = cc
keys-contains v ((k, t) ∷ m) {s} h =
    ground (arith, S.contains-insert k v (keys m), keys-contains v m {s = s}, eqb_iff k v)

add_all-contains :
    (v : ℕ) (xs set : List ℕ) → S.contains v set ≡ true → S.contains v (add_all xs set) ≡ true
add_all-contains v [] set h = h
add_all-contains v (x ∷ xs) set h =
    add_all-contains v xs (S.insert x set) (ground (arith, S.contains-insert x v set, h))

reset-contains :
    (v : ℕ) (known : Result IoError (List ℕ)) (m : M.Map ℕ PoolState) {s : PoolState}
    → M.lookup v m ≡ some s
    → S.contains v (vlans_to_reset known m) ≡ true
reset-contains v (ok more) m h = add_all-contains v more (keys m) (keys-contains v m h)
reset-contains v (err e) m h = keys-contains v m h

length-live_in :
    (v : ℕ) (live : List WorkloadRecord) (set : PoolState)
    → length (live_in v live set) ≤ length live + length set
unfolding live_in
length-live_in v [] set = ground arith
length-live_in v (r ∷ live) set = elim (Option-cases (parse_ipv4 r.ip_address)) [
  | inl e ↦ ground (arith, e, length-live_in v live set)
  | inr (a, e) ↦ ground (
    arith,
    e,
    length-live_in v live set,
    length-live_in v live (S.insert a set),
    S.length-insert a set,
  )
]

-- A VLAN that is there stays there, and that of a live workload comes in.
abbrev IsThere : ℕ → M.Map ℕ PoolState → Type 0
IsThere v m = M.contains_key v m ≡ true

group_from-keeps :
    (v : ℕ) (m : M.Map ℕ PoolState) (live : List WorkloadRecord)
    → IsThere v m
    → IsThere v (group_from m live)
group_from-keeps v m [] h = h
group_from-keeps v m (r ∷ live) h = elim (Option-cases (parse_ipv4 r.ip_address)) [
  | inl e ↦ ground (arith, e, group_from-keeps v m live h)
  | inr (a, e) ↦
      let set = S.insert a (allocated_in r.vlan_id m) in
      rw (e, group_from)
        (group_from-keeps v (M.insert r.vlan_id set m) live
          (ground (arith, M.lookup-insert r.vlan_id v set m, h)))
]

group_from-IsThere :
    (r : WorkloadRecord) (a : ℕ) (m : M.Map ℕ PoolState) (live : List WorkloadRecord)
    → Member r live
    → parse_ipv4 r.ip_address ≡ some a
    → IsThere r.vlan_id (group_from m live)
group_from-IsThere r a m [] among parsed = elim among [ ]
group_from-IsThere r a m (x ∷ live) (inl here) parsed =
    let set = S.insert a (allocated_in x.vlan_id m) in
    ground (
      arith,
      here,
      parsed,
      group_from-keeps x.vlan_id (M.insert x.vlan_id set m) live
          (ground (arith, M.lookup-insert_self x.vlan_id set m)),
    )
group_from-IsThere r a m (x ∷ live) (inr among) parsed =
    elim (Option-cases (parse_ipv4 x.ip_address)) [
      | inl e ↦ ground (arith, e, group_from-IsThere r a m live among parsed)
      | inr (b, e) ↦
          rw (e, group_from)
            (group_from-IsThere r a (M.insert x.vlan_id (S.insert b (allocated_in x.vlan_id m)) m)
              live among parsed)
    ]

known_vlans-keeps :
    {H : Host} (F : FilesWork H) (pools : IpPoolDirectory) (w : World H)
    → (known_vlans pools w).0 ≡ w
unfolding known_vlans
known_vlans-keeps F pools w = ground (arith, F.calls "read_dir" pools.root w.machine)

-- On a host whose files work, after the pools are rebuilt from fewer than 1024 live records,
-- the pool of a VLAN that has a live record with a valid address, and whose file could be read,
-- holds exactly the addresses of the VLAN's live records.
pub rebuild_ip_pools_lem :
    {H : Host} (F : FilesWork H) (pools : IpPoolDirectory) (live : List WorkloadRecord)
    (r : WorkloadRecord) (a : ℕ) (w : World H) {p : IpPool} {s : PoolState}
    → Member r live
    → parse_ipv4 r.ip_address ≡ some a
    → pool pools r.vlan_id ≡ ok p
    → stored p w ≡ ok s
    → length live < 1024
    → stored p (rebuild_ip_pools pools live w).0 ≡ ok (live_in r.vlan_id live [])
unfolding rebuild_ip_pools
rebuild_ip_pools_lem F pools live r a w {p} {s} among parsed found h short =
    let allocated = group_from [] live in
    let (set, there) = bound r.vlan_id allocated (group_from-IsThere r a [] live among parsed) in
    reset_each-stored F pools allocated small r.vlan_id found
      (vlans_to_reset (known_vlans pools w).1 allocated) (known_vlans pools w).0
      (reset-contains r.vlan_id (known_vlans pools w).1 allocated there)
      (ap (stored p) (known_vlans-keeps F pools w) ∙ h)
    ∙ ap ok (group_from_lem r.vlan_id [] live)
  where
    bound :
        (v : ℕ) (m : M.Map ℕ PoolState) → IsThere v m → (t : PoolState) × (M.lookup v m ≡ some t)
    bound v m there = elim (Option-cases (M.lookup v m)) [
      | inl e ↦ ([], ground (arith, there, e))
      | inr (t, e) ↦ (t, e)
    ]

    small : (v : ℕ) → length (allocated_in v (group_from [] live)) < 1024
    small v = ground (arith, group_from_lem v [] live, length-live_in v live [], short)
