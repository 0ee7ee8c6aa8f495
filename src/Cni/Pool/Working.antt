-- ===== src/Cni/Pool/Working.antt =====
-- What `with_state` does to the file of a pool, on a host whose files work.
use barenetes.Base.{
  [], ◌∷◌, ◌≡◌, none, some, Result, ok, err, length, ◌<◌, arith, Option-cases, inl, inr,
}
use barenetes.Base.Map.{lookup, insert, lookup-insert_self}
use barenetes.Cni.{Host, World, IoError, path_eq}
use barenetes.Cni.Files.Working.{FilesWork, with_directory, open_file_lem}
use barenetes.Cni.Pool.{
  IpPool, PoolState, pool_file, read_bytes, read_state, write_state, with_state,
}

-- The addresses that a pool's file holds; no file is the empty set.
abbrev pub stored : {H : Host} → IpPool → World H → Result IoError PoolState
stored {H} p w = elim (lookup (pool_file p) w.files) [ none ↦ ok [] | some b ↦ read_bytes H b ]

-- The world after the pool's file was written.
abbrev pub written : {H : Host} → IpPool → H.Bytes → World H → World H
written p b w = record w { files = insert (pool_file p) b w.files }

module _ {H : Host} (F : FilesWork H) where
  pub read_state_lem : (p : IpPool) (w : World H) → read_state (pool_file p) w ≡ (w, stored p w)
  unfolding read_state
  read_state_lem p w = elim (Option-cases (lookup (pool_file p) w.files)) [
    | inl e ↦ ground (arith, open_file_lem F (pool_file p) w, e)
    | inr (b, e) ↦
        ground (arith, open_file_lem F (pool_file p) w, F.calls "read" (pool_file p) w.machine, e)
  ]

  pub write_state_lem :
      (p : IpPool) (s : PoolState) (b : H.Bytes) (w : World H)
      → H.encode_pool s ≡ ok b
      → write_state p.directory s w ≡ (written p b w, ok tt)
  unfolding write_state
  write_state_lem p s b w e = ground (
    arith,
    e,
    F.calls "tempfile" p.directory w.machine,
    F.calls "set_permissions" p.directory w.machine,
    F.calls "write" p.directory w.machine,
    F.calls "sync_all" p.directory w.machine,
    F.calls "rename" (pool_file p) w.machine,
    F.calls "open" p.directory w.machine,
  )

  -- The file does not read: no file changes.
  pub with_state-unread :
      {T : Type 0} (p : IpPool) (op : PoolState → Result IoError (PoolState × T)) (w : World H)
      {e : IoError}
      → stored p w ≡ err e
      → with_state p op w ≡ (with_directory p.directory w, err e)
  unfolding with_state
  with_state-unread p op w h = ground (
    arith,
    F.calls "create_dir_all" p.directory w.machine,
    F.calls "set_permissions" p.directory w.machine,
    F.calls "open" ("ip-pool.lock" ∷ p.directory) w.machine,
    F.calls "lock" ("ip-pool.lock" ∷ p.directory) w.machine,
    read_state_lem p (with_directory p.directory w),
    h,
  )

  -- The operation fails: no file changes.
  pub with_state-err :
      {T : Type 0} (p : IpPool) (op : PoolState → Result IoError (PoolState × T)) (w : World H)
      {s : PoolState} {e : IoError}
      → stored p w ≡ ok s
      → op s ≡ err e
      → with_state p op w ≡ (with_directory p.directory w, err e)
  unfolding with_state
  with_state-err p op w h fails = ground (
    arith,
    F.calls "create_dir_all" p.directory w.machine,
    F.calls "set_permissions" p.directory w.machine,
    F.calls "open" ("ip-pool.lock" ∷ p.directory) w.machine,
    F.calls "lock" ("ip-pool.lock" ∷ p.directory) w.machine,
    read_state_lem p (with_directory p.directory w),
    h,
    fails,
  )

  -- It answers: what it leaves is what the file holds now.
  pub with_state-ok :
      {T : Type 0} (p : IpPool) (op : PoolState → Result IoError (PoolState × T)) (w : World H)
      {s s' : PoolState} {t : T}
      → stored p w ≡ ok s
      → op s ≡ ok (s', t)
      → length s' < 1024
      → (b : H.Bytes) × (read_bytes H b ≡ ok s')
        × (with_state p op w ≡ (written p b (with_directory p.directory w), ok t))
  unfolding with_state
  with_state-ok p op w {s} {s'} {t} h answers short =
      let (b, e, size_ok, d) = F.pool_codec s' short in
      (
        b,
        ground (arith, size_ok, d),
        ground (
          arith,
          F.calls "create_dir_all" p.directory w.machine,
          F.calls "set_permissions" p.directory w.machine,
          F.calls "open" ("ip-pool.lock" ∷ p.directory) w.machine,
          F.calls "lock" ("ip-pool.lock" ∷ p.directory) w.machine,
          read_state_lem p (with_directory p.directory w),
          write_state_lem p s' b (with_directory p.directory w) e,
          h,
          answers,
        ),
      )

  pub stored-written :
      (p : IpPool) (b : H.Bytes) (w : World H) → stored p (written p b w) ≡ read_bytes H b
  stored-written p b w = ground (arith, lookup-insert_self (pool_file p) b w.files)
