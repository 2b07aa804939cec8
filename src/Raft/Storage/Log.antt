-- ===== src/Raft/Storage/Log.antt =====
-- The log that a `RocksDbLogStorage` keeps (crates/vraftls-raft/src/storage.rs), as a function from
-- indices to entries: what each call makes of it.
use vraftls.Prelude.{
  ℕ, ◌<◌, ◌≡◌, ◌∙◌, inl, inr, not, ◌&&◌, Option, none, some, List, [], ◌∷◌, Text, arith, list_eq,
  nat_eq, ◌==◌, ltb, leb, Option-cases, if◌then◌else◌,
}
use vraftls.Core.Types.{u64_mod}
use vraftls.Raft.Types.{OpenRaft, Entry, ok}
use vraftls.Raft.RocksDb
use vraftls.Raft.RocksDb.{RocksDb, ColumnFamily, cf_logs, cf_meta, same_family, key_lt}
use vraftls.Raft.Storage.{
  Formats, IsSerde, u64_max, log_key, RocksDbLogStorage, save_entry, append, truncate, after, purge,
  key_last_purged,
}
use vraftls.Raft.Storage.Success.{save_entry_cases, append_cases, purge_cases}
use vraftls.Raft.Storage.Keys.{log_key_lem, equal-log_key}

module _ (o : OpenRaft) (f : Formats o) (r : RocksDb) where
  -- the bytes under a key, read back
  abbrev pub decoded : Option Text → Option (Entry o)
  decoded none = none
  decoded (some bytes) = f.entry_serde.from_slice bytes

  abbrev pub log_at : r.Db → ℕ → Option (Entry o)
  log_at db i = decoded (r.content cf_logs (log_key i) db)

  -- what the log is after the entries are written one by one
  abbrev pub with_entries : List (Entry o) → (ℕ → Option (Entry o)) → ℕ → Option (Entry o)
  with_entries [] log = log
  with_entries (e ∷ es) log = with_entries es (λ i. if i == o.index e.log_id then some e else log i)

  pub with_entries_at :
      (es : List (Entry o)) (log log' : ℕ → Option (Entry o)) (i : ℕ)
      → log i ≡ log' i
      → with_entries es log i ≡ with_entries es log' i
  with_entries_at [] log log' i h = h
  with_entries_at (e ∷ es) log log' i h = with_entries_at es _ _ i (ground arith)

  module _ (law : RocksDb.IsLawful r) (same : IsSerde f.entry_serde)
      (small : (id : o.LogId) → o.index id < u64_mod) where
    pub log_at-save_entry :
        (e : Entry o) (db db' : r.Db) (i : ℕ)
        → save_entry o f r e db ≡ ok db'
        → i < u64_mod
        → log_at db' i ≡ (if i == o.index e.log_id then some e else log_at db i)
    log_at-save_entry e db db' i h small_i =
        let (bytes, written, put) = save_entry_cases o f r e db db' h in
        ground (
          arith,
          law.content-put_cf cf_logs cf_logs (log_key (o.index e.log_id)) (log_key i) bytes db db'
              put,
          equal-log_key (o.index e.log_id) i (small e.log_id) small_i,
          same e bytes written,
        )

    pub log_at-append :
        (es : List (Entry o)) (s s' : RocksDbLogStorage o f r) (i : ℕ)
        → append o f r es s ≡ (s', ok tt)
        → i < u64_mod
        → log_at s'.db i ≡ with_entries es (log_at s.db) i
    unfolding append
    log_at-append [] s s' i h small_i = ground arith
    log_at-append (e ∷ es) s s' i h small_i =
        let (db', saved, rest) = append_cases o f r e es s s' h in
        log_at-append es _ s' i rest small_i
        ∙ with_entries_at es (log_at db')
            (λ j. if j == o.index e.log_id then some e else log_at s.db j) i
            (log_at-save_entry e s.db db' i saved small_i)

    pub log_at-truncate :
        (id : o.LogId) (s s' : RocksDbLogStorage o f r) (i : ℕ)
        → truncate o f r id s ≡ (s', ok tt)
        → i < u64_mod
        → log_at s'.db i
          ≡ (if not (ltb i (o.index id)) && ltb i u64_max then none else log_at s.db i)
    unfolding truncate
    log_at-truncate id s s' i h small_i =
        elim (Option-cases
          (r.delete_range_cf cf_logs (log_key (o.index id)) (log_key u64_max) s.db)) [
            | inl p ↦ absurd (ground arith)
            | inr (db', p) ↦ ground (
              arith,
              law.content-delete_range_cf cf_logs cf_logs (log_key (o.index id)) (log_key u64_max)
                  (log_key i) s.db db' p,
              log_key_lem i (o.index id) small_i (small id),
              log_key_lem i u64_max small_i (omega arith),
            )
          ]

    after_small : (id : o.LogId) → after o f r id < u64_mod
    unfolding after
    after_small id = omega arith

    pub log_at-purge :
        (id : o.LogId) (s s' : RocksDbLogStorage o f r) (i : ℕ)
        → purge o f r id s ≡ (s', ok tt)
        → i < u64_mod
        → log_at s'.db i
          ≡ (if leb i (o.index id) && ltb (o.index id) u64_max then none else log_at s.db i)
    unfolding after
    log_at-purge id s s' i h small_i =
        let (bytes, db', p, q, u, _, _, _, _) = purge_cases o f r id s s' h in
        ground (
          arith,
          law.content-put_cf cf_meta cf_logs key_last_purged (log_key i) bytes s.db db' q,
          law.content-delete_range_cf cf_logs cf_logs (log_key 0) (log_key (after o f r id))
              (log_key i) db' s'.db u,
          log_key_lem i 0 small_i (omega arith),
          log_key_lem i (after o f r id) small_i (after_small id),
          small id,
        )
