-- ===== src/Cni/Pool.antt =====
-- cni/src/ip_pool.rs: the addresses of a VLAN that are in use, in a file of the VLAN's directory.
-- The lock keeps other processes out and is let go when the function returns.
pub mod Working
pub mod Allocation
use barenetes.Base.{
  ℕ, zero, suc, ◌+◌, ◌-◌, String, Bool, true, false, Option, none, some, List, [], ◌∷◌,
  if◌then◌else◌, ltb, leb, ◌||◌, Result, ok, err, ok_or, fail_if, format,
}
use barenetes.Base.Decimal.{show, max_u8}
use barenetes.Base.SortedSet.{contains, insert, remove}
use barenetes.Base.Range.{find_free}
use barenetes.Base.Action.{◌>>=◌, ◌>>◌, pure, lift, attempt}
use barenetes.Cni.{
  Host, World, Io, IoError, ErrorKind, FilePath, input_error, data_error, other_error,
}
use barenetes.Cni.Addressing.{pool_range}
use barenetes.Cni.Files.{call, create_dir_all, open_file, persist, sync_directory}

abbrev pub max_state_size : ℕ
max_state_size = 1048576

pub record IpPoolDirectory : Type 0 where
  pub root : FilePath
  pub node : ℕ

pub record IpPool : Type 0 where
  pub directory : FilePath
  pub first : ℕ
  pub last : ℕ

abbrev pub PoolState : Type 0
PoolState = List ℕ

abbrev pub new_pool : FilePath → ℕ → ℕ → Result IoError IpPool
new_pool directory first last =
    if ltb last first
    then err (input_error "invalid IP pool range")
    else ok (record { directory = directory; first = first; last = last })

abbrev pub pool : IpPoolDirectory → ℕ → Result IoError IpPool
pool pools vlan =
    if ltb max_u8 vlan
    then err (input_error "vlan_id must fit in a single byte")
    else new_pool (format ("vlan-" ∷ show vlan ∷ []) ∷ pools.root) (pool_range vlan pools.node).0
        (pool_range vlan pools.node).1

abbrev pub pool_file : IpPool → FilePath
pool_file p = "ip-pool.json" ∷ p.directory

abbrev pub read_bytes : (H : Host) → H.Bytes → Result IoError PoolState
read_bytes H bytes =
    if ltb max_state_size (H.size bytes)
    then err (data_error "IP pool state is too large")
    else elim (H.decode_pool bytes) [
      | ok state ↦ ok state
      | err e ↦ err (record { kind = ErrorKind.invalid_data; message = e.message })
    ]

unfoldable pub read_state : {H : Host} → FilePath → Io H PoolState
read_state {H} path = do
  opened ← attempt (open_file path)
  elim opened [
    | ok bytes ↦ do call "read" path; lift (read_bytes H bytes)
    | err e ↦ elim e.kind [ ErrorKind.not_found ↦ pure [] | _ ↦ lift (err e) ]
  ]

unfoldable pub write_state : {H : Host} → FilePath → PoolState → Io H (Unit {0})
write_state {H} directory state = do
  call "tempfile" directory
  call "set_permissions" directory
  bytes ← lift (H.encode_pool state)
  call "write" directory
  call "sync_all" directory
  persist ("ip-pool.json" ∷ directory) bytes
  sync_directory directory

unfoldable pub with_state :
    {H : Host} {T : Type 0} → IpPool → (PoolState → Result IoError (PoolState × T)) → Io H T
with_state p operation = do
  create_dir_all p.directory
  call "set_permissions" p.directory
  call "open" ("ip-pool.lock" ∷ p.directory)
  call "lock" ("ip-pool.lock" ∷ p.directory)
  state ← read_state (pool_file p)
  (state', result) ← lift (operation state)
  write_state p.directory state'
  pure result

abbrev pub take_free : IpPool → PoolState → Result IoError (PoolState × ℕ)
take_free p state = elim (find_free (suc p.last - p.first) p.first state) [
  | none ↦ err (other_error "IP pool is exhausted")
  | some address ↦ ok (insert address state, address)
]

unfoldable pub allocate : {H : Host} → IpPool → Io H ℕ
allocate p = with_state p (take_free p)

unfoldable pub release : {H : Host} → IpPool → ℕ → Io H Bool
release p address =
    if ltb address p.first || ltb p.last address
    then lift (err (input_error "address is outside the IP pool"))
    else with_state p (λ state. ok (remove address state, contains address state))

unfoldable pub reset : {H : Host} → IpPool → PoolState → Io H (Unit {0})
reset p allocated = with_state p (λ _. ok (allocated, tt))
