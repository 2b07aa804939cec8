-- ===== src/Raft/Storage/Invariant/Run.antt =====
-- The invariant of the log storage (crates/vraftls-raft/src/storage.rs) after any calls in the order
-- in which Raft makes them.
use vraftls.Prelude.{
  ℕ, ◌<◌, ◌≡◌, refl, sym, ap, ◌∙◌, ◌⊎◌, inl, inr, Option, none, some, List, [], ◌∷◌, Text, arith,
  list_eq, nat_eq,
}
use mathlib.Core.Path.{subst}
use vraftls.Prelude.Map
use vraftls.Core.Types.{u64_mod}
use vraftls.Raft.Types.{OpenRaft, Entry, ok}
use vraftls.Raft.RocksDb
use vraftls.Raft.RocksDb.{RocksDb, cf_logs, cf_meta}
use vraftls.Raft.Storage.{
  Formats, IsSerde, u64_max, log_key, RocksDbLogStorage, key_vote, key_committed,
}
use vraftls.Raft.Storage.Success.{save_vote_cases, save_committed_cases, save_committed-none}
use vraftls.Raft.Storage.Log.{decoded, log_at}
use vraftls.Raft.Storage.Calls.{
  Call, appending, truncating, purging, voting, committing, restarting, step, run, run_cases,
  new_cases, restart_cases, log_after, log_after_at, log_at-step,
}
use vraftls.Raft.Storage.Invariant.{
  IsValid, InOrder, InOrder-at, append-IsValid, truncate-IsValid, purge-IsValid,
}

module _ (o : OpenRaft) (f : Formats o) (r : RocksDb) where
  -- what Raft keeps to: it appends behind the log
  abbrev pub Permitted : Call o f r → (ℕ → Option (Entry o)) → Type 0
  Permitted (appending es) log = InOrder o f r es log
  Permitted (truncating id) log = Unit
  Permitted (purging id) log = Unit
  Permitted (voting v) log = Unit
  Permitted (committing c) log = Unit
  Permitted restarting log = Unit

  abbrev pub Proper : List (Call o f r) → (ℕ → Option (Entry o)) → Type 0
  Proper [] log = Unit
  Proper (call ∷ calls) log = Permitted call log × Proper calls (log_after o f r call log)

  Permitted-at :
      (call : Call o f r) (log log' : ℕ → Option (Entry o))
      → ((i : ℕ) → i < u64_mod → log i ≡ log' i)
      → Permitted call log
      → Permitted call log'
  Permitted-at (appending es) log log' h p = InOrder-at o f r es log log' h p
  Permitted-at (truncating id) log log' h p = tt
  Permitted-at (purging id) log log' h p = tt
  Permitted-at (voting v) log log' h p = tt
  Permitted-at (committing c) log log' h p = tt
  Permitted-at restarting log log' h p = tt

  module _ (law : RocksDb.IsLawful r) (same : IsSerde f.entry_serde)
      (small : (id : o.LogId) → o.index id < u64_mod) where
    -- the same log on the disk, with the same cache or an empty one
    IsValid-same :
        (s s' : RocksDbLogStorage o f r)
        → ((k : Text) → r.content cf_logs k s'.db ≡ r.content cf_logs k s.db)
        → (s'.log_cache ≡ s.log_cache) ⊎ (s'.log_cache ≡ [])
        → IsValid o f r s
        → IsValid o f r s'
    unfolding Map.get
    IsValid-same s s' same_log (inl kept) v = record {
      cached = λ i e g.
          ground (arith, v.cached i e (ap (Map.get i) (sym kept) ∙ g), same_log (log_key i));
      decodable = λ k w c. v.decodable k w (sym (same_log k) ∙ c);
      closed = λ i j e g le p q. λ empty.
          v.closed i j e (ap (Map.get j) (sym kept) ∙ g) le p
            (λ e'. q (ap (decoded o f r) (same_log (log_key i)) ∙ e'))
            (ap (Map.get i) (sym kept) ∙ empty);
      room = ap (decoded o f r) (same_log (log_key u64_max)) ∙ v.room;
    }
    IsValid-same s s' same_log (inr emptied) v = record {
      cached = λ i e g. absurd (ground (arith, ap (Map.get i) emptied));
      decodable = λ k w c. v.decodable k w (sym (same_log k) ∙ c);
      closed = λ i j e g le p q. absurd (ground (arith, ap (Map.get j) emptied));
      room = ap (decoded o f r) (same_log (log_key u64_max)) ∙ v.room;
    }

    step-IsValid :
        (call : Call o f r) (s s' : RocksDbLogStorage o f r)
        → step o f r call s ≡ (s', ok tt)
        → Permitted call (log_at o f r s.db)
        → IsValid o f r s
        → IsValid o f r s'
    unfolding step
    step-IsValid (appending es) s s' h p v = append-IsValid o f r law same small es s s' h p v
    step-IsValid (truncating id) s s' h p v = truncate-IsValid o f r law same small id s s' h v
    step-IsValid (purging id) s s' h p v = purge-IsValid o f r law same small id s s' h v
    step-IsValid (voting x) s s' h p v =
        let (bytes, _, put, kept, _, _, _) = save_vote_cases o f r s s' x h in
        IsValid-same s s' (λ k. law.content-put_cf cf_meta cf_logs key_vote k bytes s.db s'.db put)
          (inl kept) v
    step-IsValid (committing none) s s' h p v =
        subst (IsValid o f r) (sym (save_committed-none o f r s s' h))
          (IsValid-same s (record s { committed = none }) (λ k. refl) (inl refl) v)
    step-IsValid (committing (some c)) s s' h p v =
        let (bytes, _, put, kept, _, _, _) = save_committed_cases o f r s s' c h in
        IsValid-same s s'
          (λ k. law.content-put_cf cf_meta cf_logs key_committed k bytes s.db s'.db put) (inl kept)
          v
    step-IsValid restarting s s' h p v =
        let (same_db, emptied, _, _, _) = new_cases o f r s.db s' (restart_cases o f r s s' h) in
        IsValid-same s s' (λ k. ap (r.content cf_logs k) same_db) (inr emptied) v

    Proper-at :
        (calls : List (Call o f r)) (log log' : ℕ → Option (Entry o))
        → ((i : ℕ) → i < u64_mod → log i ≡ log' i)
        → Proper calls log
        → Proper calls log'
    Proper-at [] log log' h p = tt
    Proper-at (call ∷ calls) log log' h (first, later) = (
      Permitted-at call log log' h first,
      Proper-at calls _ _ (λ i small_i. log_after_at o f r call log log' i (h i small_i)) later,
    )

    -- Calls that succeed and append only behind the log, as Raft makes them, keep the invariant of
    -- the storage: what the cache has is on the disk, the cache has all of the log from some index
    -- on, and the disk has only entries that can be read back. Restarts are among the calls.
    pub run-IsValid :
        (calls : List (Call o f r)) (s t : RocksDbLogStorage o f r)
        → run o f r calls s ≡ ok t
        → Proper calls (log_at o f r s.db)
        → IsValid o f r s
        → IsValid o f r t
    unfolding run
    run-IsValid [] s t h p v = subst (IsValid o f r) (ground arith) v
    run-IsValid (call ∷ calls) s t h (first, later) v =
        let (s', done, rest) = run_cases o f r call calls s t h in
        run-IsValid calls s' t rest
          (Proper-at calls _ _
            (λ i small_i. sym (log_at-step o f r law same small call s s' i done small_i)) later)
          (step-IsValid call s s' done first v)
