-- ===== src/Raft/Storage/Success.antt =====
-- What the writing calls of crates/vraftls-raft/src/storage.rs have done where they succeed.
use vraftls.Prelude.{◌≡◌, inl, inr, none, some, List, ◌∷◌, nat_eq, Text, arith, Option-cases}
use vraftls.Prelude.Map
use vraftls.Prelude.Sorted.{below, from}
use vraftls.Raft.Types.{OpenRaft, Entry, StorageResult-cases, ok}
use vraftls.Raft.RocksDb.{RocksDb, cf_logs, cf_meta}
use vraftls.Raft.Storage.{
  Formats, u64_max, RocksDbLogStorage, log_key, save_entry, append, truncate, after, purge,
  delete_entries_before, key_last_purged, save_vote, save_committed, key_vote, key_committed,
}

module _ (o : OpenRaft) (f : Formats o) (r : RocksDb) where
  pub save_entry_cases :
      (e : Entry o) (db db' : r.Db)
      → save_entry o f r e db ≡ ok db'
      → (bytes : Text) × (f.entry_serde.to_vec e ≡ some bytes)
        × (r.put_cf cf_logs (log_key (o.index e.log_id)) bytes db ≡ some db')
  unfolding save_entry
  save_entry_cases e db db' h = elim (Option-cases (f.entry_serde.to_vec e)) [
    | inl p ↦ absurd (ground arith)
    | inr (bytes, p) ↦
        elim (Option-cases (r.put_cf cf_logs (log_key (o.index e.log_id)) bytes db)) [
          | inl q ↦ absurd (ground arith)
          | inr (db'', q) ↦ (bytes, p, ground arith)
        ]
  ]

  -- the first entry of an `append` that succeeds, and the others
  pub append_cases :
      (e : Entry o) (es : List (Entry o)) (s s' : RocksDbLogStorage o f r)
      → append o f r (e ∷ es) s ≡ (s', ok tt)
      → (db' : r.Db) × (save_entry o f r e s.db ≡ ok db')
        × (append o f r es
              (record s { db = db'; log_cache = Map.insert (o.index e.log_id) e s.log_cache })
            ≡ (s', ok tt))
  unfolding append
  append_cases e es s s' h = elim (StorageResult-cases (save_entry o f r e s.db)) [
    | inr (x, p) ↦ absurd (ground arith)
    | inl (db', p) ↦ (db', p, (rw (p, append) at h))
  ]

  -- the two writes of a `purge` that succeeds
  pub purge_cases :
      (id : o.LogId) (s s' : RocksDbLogStorage o f r)
      → purge o f r id s ≡ (s', ok tt)
      → (bytes : Text) × (db' : r.Db) × (f.log_id_serde.to_vec id ≡ some bytes)
        × (r.put_cf cf_meta key_last_purged bytes s.db ≡ some db')
        × (r.delete_range_cf cf_logs (log_key 0) (log_key (after o f r id)) db' ≡ some s'.db)
        × (s'.log_cache ≡ from (after o f r id) s.log_cache)
        × (s'.last_purged ≡ some id)
        × (s'.vote ≡ s.vote)
        × (s'.committed ≡ s.committed)
  unfolding purge delete_entries_before
  purge_cases id s s' h = elim (Option-cases (f.log_id_serde.to_vec id)) [
    | inl p ↦ absurd (ground arith)
    | inr (bytes, p) ↦ elim (Option-cases (r.put_cf cf_meta key_last_purged bytes s.db)) [
      | inl q ↦ absurd (ground arith)
      | inr (db', q) ↦
          elim (Option-cases
            (r.delete_range_cf cf_logs (log_key 0) (log_key (after o f r id)) db')) [
              | inl u ↦ absurd (ground arith)
              | inr (db'', u) ↦ (
                bytes,
                db',
                p,
                q,
                ground arith,
                ground arith,
                ground arith,
                ground arith,
                ground arith,
              )
            ]
    ]
  ]

module _ (o : OpenRaft) (f : Formats o) (r : RocksDb) (s s' : RocksDbLogStorage o f r) where
  pub save_vote_cases :
      (v : f.Vote)
      → save_vote o f r v s ≡ (s', ok tt)
      → (bytes : Text) × (f.vote_serde.to_vec v ≡ some bytes)
        × (r.put_cf cf_meta key_vote bytes s.db ≡ some s'.db)
        × (s'.log_cache ≡ s.log_cache)
        × (s'.vote ≡ some v)
        × (s'.committed ≡ s.committed)
        × (s'.last_purged ≡ s.last_purged)
  unfolding save_vote
  save_vote_cases v h = elim (Option-cases (f.vote_serde.to_vec v)) [
    | inl p ↦ absurd (ground arith)
    | inr (bytes, p) ↦ elim (Option-cases (r.put_cf cf_meta key_vote bytes s.db)) [
      | inl q ↦ absurd (ground arith)
      | inr (db', q) ↦
          (bytes, p, ground arith, ground arith, ground arith, ground arith, ground arith)
    ]
  ]

  pub save_committed_cases :
      (c : o.LogId)
      → save_committed o f r (some c) s ≡ (s', ok tt)
      → (bytes : Text) × (f.log_id_serde.to_vec c ≡ some bytes)
        × (r.put_cf cf_meta key_committed bytes s.db ≡ some s'.db)
        × (s'.log_cache ≡ s.log_cache)
        × (s'.vote ≡ s.vote)
        × (s'.committed ≡ some c)
        × (s'.last_purged ≡ s.last_purged)
  unfolding save_committed
  save_committed_cases c h = elim (Option-cases (f.log_id_serde.to_vec c)) [
    | inl p ↦ absurd (ground arith)
    | inr (bytes, p) ↦ elim (Option-cases (r.put_cf cf_meta key_committed bytes s.db)) [
      | inl q ↦ absurd (ground arith)
      | inr (db', q) ↦
          (bytes, p, ground arith, ground arith, ground arith, ground arith, ground arith)
    ]
  ]

  pub save_committed-none :
      save_committed o f r none s ≡ (s', ok tt) → s' ≡ record s { committed = none }
  unfolding save_committed
  save_committed-none h = ground arith

  pub truncate_cases :
      (id : o.LogId)
      → truncate o f r id s ≡ (s', ok tt)
      → (r.delete_range_cf cf_logs (log_key (o.index id)) (log_key u64_max) s.db ≡ some s'.db)
        × (s'.log_cache ≡ below (o.index id) s.log_cache)
        × (s'.vote ≡ s.vote)
        × (s'.committed ≡ s.committed)
        × (s'.last_purged ≡ s.last_purged)
  unfolding truncate
  truncate_cases id h =
      elim (Option-cases
        (r.delete_range_cf cf_logs (log_key (o.index id)) (log_key u64_max) s.db)) [
          | inl p ↦ absurd (ground arith)
          | inr (db', p) ↦ (ground arith, ground arith, ground arith, ground arith, ground arith)
        ]
