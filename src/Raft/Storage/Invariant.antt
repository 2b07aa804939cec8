-- ===== src/Raft/Storage/Invariant.antt =====
-- The cache of the log storage (crates/vraftls-raft/src/storage.rs) against its disk: the invariant,
-- and that the calls that change the log keep it.
pub mod Run
use vraftls.Prelude.{
  ℕ, ◌<◌, ◌≤◌, ◌≡◌, ◌≢◌, refl, sym, ap, ◌∙◌, ◌⊎◌, inl, inr, Bool, false, Option, none, some, List,
  [], ◌∷◌, Text, arith, list_eq, nat_eq, ◌==◌, ==_iff, ltb, Bool-cases, if◌then◌else◌,
}
use mathlib.Core.Path.{subst}
use vraftls.Prelude.Map
use vraftls.Prelude.Sorted.{below, from, get-below, get-from}
use vraftls.Core.Types.{u64_mod}
use vraftls.Raft.Types.{OpenRaft, Entry, StorageResult, ok}
use vraftls.Raft.RocksDb
use vraftls.Raft.RocksDb.{RocksDb, cf_logs, cf_meta}
use vraftls.Raft.Storage.{
  Formats, IsSerde, u64_max, log_key, RocksDbLogStorage, append, truncate, after, purge,
  key_last_purged, key_vote, key_committed, save_entry,
}
use vraftls.Raft.Storage.Success.{
  save_entry_cases, append_cases, purge_cases, truncate_cases, save_vote_cases,
  save_committed_cases, save_committed-none,
}
use vraftls.Raft.Storage.Log.{
  decoded, log_at, with_entries, log_at-save_entry, log_at-truncate, log_at-purge,
}
use vraftls.Raft.Storage.Calls.{
  Call, appending, truncating, purging, voting, committing, restarting, step, run, run_cases,
  new_cases, restart_cases, log_after, log_after_at, log_at-step,
}
use vraftls.Raft.Storage.Reading.{IsCached, IsDecodable}

module _ (o : OpenRaft) (f : Formats o) (r : RocksDb) where
  pub record IsValid (s : RocksDbLogStorage o f r) : Type 0 where
    pub cached : IsCached o f r s
    pub decodable : IsDecodable o f r s.db
    -- from some index on, the whole log is in the cache
    pub closed :
        (i j : ℕ) (e : Entry o)
        → Map.get j s.log_cache ≡ some e
        → j ≤ i
        → i < u64_mod
        → log_at o f r s.db i ≢ none
        → Map.get i s.log_cache ≢ none
    -- the last index of all is not used
    pub room : log_at o f r s.db u64_max ≡ none

  -- each entry stands behind all that the log has, and not at the last index of all
  abbrev pub InOrder : List (Entry o) → (ℕ → Option (Entry o)) → Type 0
  InOrder [] log = Unit
  InOrder (e ∷ es) log =
      ((i : ℕ) → i < u64_mod → log i ≢ none → i < o.index e.log_id)
      × (o.index e.log_id < u64_max)
      × InOrder es (λ i. if i == o.index e.log_id then some e else log i)

  pub InOrder-at :
      (es : List (Entry o)) (log log' : ℕ → Option (Entry o))
      → ((i : ℕ) → i < u64_mod → log i ≡ log' i)
      → InOrder es log
      → InOrder es log'
  InOrder-at [] log log' h p = tt
  InOrder-at (e ∷ es) log log' h (above, in_range, later) = (
    λ i small_i some_i. above i small_i (λ none_i. some_i (sym (h i small_i) ∙ none_i)),
    in_range,
    InOrder-at es _ _ (λ i small_i. ground (arith, h i small_i)) later,
  )

  module _ (law : RocksDb.IsLawful r) (same : IsSerde f.entry_serde)
      (small : (id : o.LogId) → o.index id < u64_mod) where
    save_entry-IsValid :
        (e : Entry o) (s : RocksDbLogStorage o f r) (db' : r.Db)
        → save_entry o f r e s.db ≡ ok db'
        → ((i : ℕ) → i < u64_mod → log_at o f r s.db i ≢ none → i < o.index e.log_id)
        → o.index e.log_id < u64_max
        → IsValid s
        → IsValid (record s { db = db'; log_cache = Map.insert (o.index e.log_id) e s.log_cache })
    save_entry-IsValid e s db' saved above in_range h =
        let idx = o.index e.log_id in
        let at = λ (i : ℕ) (p : i < u64_mod).
          log_at-save_entry o f r law same small e s.db db' i saved p in
        let (bytes, written, put) = save_entry_cases o f r e s.db db' saved in
        record {
          cached = λ i e' g. elim (Bool-cases (i == idx)) [
            | inl here ↦ ground (arith, Map.get-insert idx i e s.log_cache, small e.log_id, at i)
            | inr other ↦ ground (arith, Map.get-insert idx i e s.log_cache, h.cached i e', at i)
          ];
          decodable = λ k v c. elim (Bool-cases (log_key idx == k)) [
            | inl here ↦ (
              e,
              ground (
                arith,
                law.content-put_cf cf_logs cf_logs (log_key idx) k bytes s.db db' put,
                same e bytes written,
              ),
              (==_iff (log_key idx) k).0 here,
            )
            | inr other ↦ h.decodable k v (
                ground
                  (arith, law.content-put_cf cf_logs cf_logs (log_key idx) k bytes s.db db' put))
          ];
          closed = λ i j e' g le p q. elim (Bool-cases (i == idx)) [
            | inl here ↦ ground (arith, Map.get-insert idx i e s.log_cache)
            | inr other ↦ ground (
              arith,
              Map.get-insert idx i e s.log_cache,
              Map.get-insert idx j e s.log_cache,
              above i p,
              h.closed i j e',
              at i p,
            )
          ];
          room = ground (arith, at u64_max (omega arith), h.room);
        }

    pub append-IsValid :
        (es : List (Entry o)) (s s' : RocksDbLogStorage o f r)
        → append o f r es s ≡ (s', ok tt)
        → InOrder es (log_at o f r s.db)
        → IsValid s
        → IsValid s'
    unfolding append
    append-IsValid [] s s' h p v = subst IsValid (ground arith) v
    append-IsValid (e ∷ es) s s' h (above, in_range, later) v =
        let (db', saved, rest) = append_cases o f r e es s s' h in
        append-IsValid es _ s' rest
          (InOrder-at es _ _
            (λ i p. sym (log_at-save_entry o f r law same small e s.db db' i saved p)) later)
          (save_entry-IsValid e s db' saved above in_range v)

    -- a storage with the same log, and a cache that is the old one or less, cut at an index
    pub truncate-IsValid :
        (id : o.LogId) (s s' : RocksDbLogStorage o f r)
        → truncate o f r id s ≡ (s', ok tt)
        → IsValid s
        → IsValid s'
    truncate-IsValid id s s' h v =
        let (deleted, cut, _, _, _) = truncate_cases o f r s s' id h in
        let idx = o.index id in
        let at = λ (i : ℕ) (p : i < u64_mod). log_at-truncate o f r law same small id s s' i h p in
        record {
          cached = λ i e g. ground (arith, get-below idx i s.log_cache, v.cached i e, at i, v.room);
          decodable = λ k w c. v.decodable k w (
              ground (
                arith,
                law.content-delete_range_cf cf_logs cf_logs (log_key idx) (log_key u64_max) k s.db
                    s'.db deleted,
              ));
          closed = λ i j e g le p q. ground (
            arith,
            get-below idx i s.log_cache,
            get-below idx j s.log_cache,
            v.closed i j e,
            at i p,
            v.room,
          );
          room = ground (arith, at u64_max (omega arith), v.room);
        }

    pub purge-IsValid :
        (id : o.LogId) (s s' : RocksDbLogStorage o f r)
        → purge o f r id s ≡ (s', ok tt)
        → IsValid s
        → IsValid s'
    unfolding after
    purge-IsValid id s s' h v =
        let (bytes, db', _, put, deleted, cut, _, _, _) = purge_cases o f r id s s' h in
        let a = after o f r id in
        let at = λ (i : ℕ) (p : i < u64_mod). log_at-purge o f r law same small id s s' i h p in
        record {
          cached = λ i e g. ground (arith, get-from a i s.log_cache, v.cached i e, at i, small id);
          decodable = λ k w c. v.decodable k w (
              ground (
                arith,
                law.content-put_cf cf_meta cf_logs key_last_purged k bytes s.db db' put,
                law.content-delete_range_cf cf_logs cf_logs (log_key 0) (log_key a) k db' s'.db
                    deleted,
              ));
          closed = λ i j e g le p q. ground (
            arith,
            get-from a i s.log_cache,
            get-from a j s.log_cache,
            v.closed i j e,
            at i p,
            small id,
          );
          room = ground (arith, at u64_max (omega arith), v.room, small id);
        }
