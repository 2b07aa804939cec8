-- ===== src/Raft/Storage/Calls.antt =====
-- Any calls of the log storage (crates/vraftls-raft/src/storage.rs) that succeed, restarts of the
-- node among them, against a log that is a plain function from indices to entries.
use vraftls.Prelude.{
  ℕ, ◌<◌, ◌≡◌, refl, ◌⊎◌, ap, ◌∙◌, inl, inr, not, ◌&&◌, Option, none, some, List, [], ◌∷◌, arith,
  nat_eq, list_eq, ltb, leb, false, if◌then◌else◌,
}
use vraftls.Core.Types.{u64_mod}
use vraftls.Raft.Types.{
  OpenRaft, Entry, ErrorSubject, StorageError, StorageResult, StorageResult-cases, ok, err, store,
  read,
}
use vraftls.Raft.RocksDb
use vraftls.Raft.RocksDb.{RocksDb, cf_logs, cf_meta}
use vraftls.Raft.Storage.{
  Formats, IsSerde, u64_max, log_key, RocksDbLogStorage, Outcome, returned, panicked, store_loaded,
  new, load_key, append, truncate, purge, save_vote, save_committed, key_vote, key_committed,
  key_last_purged,
}
use vraftls.Raft.Storage.Success.{save_vote_cases, save_committed_cases, save_committed-none}
use vraftls.Raft.Storage.Log.{
  log_at, with_entries, with_entries_at, log_at-append, log_at-truncate, log_at-purge,
}

module _ (o : OpenRaft) (f : Formats o) (r : RocksDb) where
  pub data Call : Type 0 where
    appending : List (Entry o) → Call
    truncating purging : o.LogId → Call
    voting : f.Vote → Call
    committing : Option o.LogId → Call
    restarting : Call

  -- The node goes down, and comes up with what is on the disk, outside of a runtime. A panic, which
  -- does not come there, would end the run.
  unfoldable pub restart :
      RocksDbLogStorage o f r → RocksDbLogStorage o f r × StorageResult (Unit {0})
  unfolding new
  restart s = elim (new o f r false (some s.db)) [
    | panicked ↦ (s, err (record { subject = store; verb = read }))
    | returned (err e) ↦ (s, err e)
    | returned (ok s') ↦ (s', ok tt)
  ]

  unfoldable pub step :
      Call → RocksDbLogStorage o f r → RocksDbLogStorage o f r × StorageResult (Unit {0})
  unfolding append truncate purge save_vote save_committed restart
  step (appending entries) = append o f r entries
  step (truncating id) = truncate o f r id
  step (purging id) = purge o f r id
  step (voting v) = save_vote o f r v
  step (committing c) = save_committed o f r c
  step restarting = restart

  -- the calls up to the first that fails
  unfoldable pub run : List Call → RocksDbLogStorage o f r → StorageResult (RocksDbLogStorage o f r)
  unfolding step
  run [] s = ok s
  run (call ∷ calls) s =
      let next = step call s in elim next.1 [ err e ↦ err e | ok done ↦ run calls next.0 ]

  -- What a call promises for the log. A truncation leaves the last index of all, and a purge up to
  -- that index takes nothing.
  abbrev pub log_after : Call → (ℕ → Option (Entry o)) → ℕ → Option (Entry o)
  log_after (appending entries) log = with_entries o f r entries log
  log_after (truncating id) log =
      λ i. if not (ltb i (o.index id)) && ltb i u64_max then none else log i
  log_after (purging id) log =
      λ i. if leb i (o.index id) && ltb (o.index id) u64_max then none else log i
  log_after (voting v) log = log
  log_after (committing c) log = log
  log_after restarting log = log

  abbrev pub promised_log : List Call → (ℕ → Option (Entry o)) → ℕ → Option (Entry o)
  promised_log [] log = log
  promised_log (call ∷ calls) log = promised_log calls (log_after call log)

  pub run_cases :
      (call : Call) (calls : List Call) (s t : RocksDbLogStorage o f r)
      → run (call ∷ calls) s ≡ ok t
      → (s' : RocksDbLogStorage o f r) × (step call s ≡ (s', ok tt)) × (run calls s' ≡ ok t)
  unfolding run
  run_cases call calls s t h = elim (StorageResult-cases (step call s).1) [
    | inr (e, p) ↦ absurd (ground arith)
    | inl (done, p) ↦ ((step call s).0, ground arith, (rw (p, run) at h))
  ]

  Outcome-cases :
      {A : Type 0} (x : Outcome o f r A)
      → ((a : A) × (x ≡ returned (ok a)))
        ⊎ ((e : StorageError) × (x ≡ returned (err e)))
        ⊎ (x ≡ panicked)
  Outcome-cases (returned (ok a)) = inl (a, refl)
  Outcome-cases (returned (err e)) = inr (inl (e, refl))
  Outcome-cases panicked = inr (inr refl)

  store_loaded-false :
      {A : Type 0} (x : StorageResult (Option A)) → store_loaded o f r false x ≡ returned x
  unfolding store_loaded
  store_loaded-false (err e) = refl
  store_loaded-false (ok none) = refl
  store_loaded-false (ok (some a)) = refl

  pub new_ok :
      (db : r.Db) (v : Option f.Vote) (c l : Option o.LogId)
      → load_key o f r ErrorSubject.vote f.vote_serde key_vote db ≡ ok v
      → load_key o f r store f.log_id_serde key_committed db ≡ ok c
      → load_key o f r store f.log_id_serde key_last_purged db ≡ ok l
      → new o f r false (some db)
        ≡ returned
            (ok (record { db = db; log_cache = []; vote = v; committed = c; last_purged = l }))
  unfolding new
  new_ok db v c l p q u =
      rw
        (
          p,
          q,
          u,
          store_loaded-false (ok v),
          store_loaded-false (ok c),
          store_loaded-false (ok l),
          new,
        )
        refl

  pub new_cases :
      (db : r.Db) (s : RocksDbLogStorage o f r)
      → new o f r false (some db) ≡ returned (ok s)
      → (s.db ≡ db)
        × (s.log_cache ≡ [])
        × (load_key o f r ErrorSubject.vote f.vote_serde key_vote db ≡ ok s.vote)
        × (load_key o f r store f.log_id_serde key_committed db ≡ ok s.committed)
        × (load_key o f r store f.log_id_serde key_last_purged db ≡ ok s.last_purged)
  unfolding new store_loaded
  new_cases db s h =
      elim (StorageResult-cases (load_key o f r ErrorSubject.vote f.vote_serde key_vote db)) [
        | inr (e, p) ↦ absurd (ground arith)
        | inl (v, p) ↦
            elim (StorageResult-cases (load_key o f r store f.log_id_serde key_committed db)) [
              | inr (e, q) ↦ absurd (ground (arith, store_loaded-false (ok v)))
              | inl (c, q) ↦
                  elim (StorageResult-cases
                    (load_key o f r store f.log_id_serde key_last_purged db)) [
                      | inr (e, u) ↦
                          absurd
                            (ground (arith, store_loaded-false (ok v), store_loaded-false (ok c)))
                      | inl (l, u) ↦
                          let same : new o f r false (some db)
                              ≡ returned (
                                  ok (record {
                                    db = db;
                                    log_cache = [];
                                    vote = v;
                                    committed = c;
                                    last_purged = l;
                                  })) =
                            new_ok db v c l p q u in
                          (
                            ground (arith, same),
                            ground (arith, same),
                            ground (arith, same),
                            ground (arith, same),
                            ground (arith, same),
                          )
                    ]
            ]
      ]

  pub restart_cases :
      (s s' : RocksDbLogStorage o f r)
      → restart s ≡ (s', ok tt)
      → new o f r false (some s.db) ≡ returned (ok s')
  unfolding restart
  restart_cases s s' h = elim (Outcome-cases (new o f r false (some s.db))) [
    | inl (t, p) ↦ ground arith
    | inr (inl (e, p)) ↦ absurd (ground arith)
    | inr (inr p) ↦ absurd (ground arith)
  ]

  pub log_after_at :
      (call : Call) (log log' : ℕ → Option (Entry o)) (i : ℕ)
      → log i ≡ log' i
      → log_after call log i ≡ log_after call log' i
  log_after_at (appending entries) log log' i h = with_entries_at o f r entries log log' i h
  log_after_at (truncating id) log log' i h = ground arith
  log_after_at (purging id) log log' i h = ground arith
  log_after_at (voting v) log log' i h = h
  log_after_at (committing c) log log' i h = h
  log_after_at restarting log log' i h = h

  promised_log_at :
      (calls : List Call) (log log' : ℕ → Option (Entry o)) (i : ℕ)
      → log i ≡ log' i
      → promised_log calls log i ≡ promised_log calls log' i
  promised_log_at [] log log' i h = h
  promised_log_at (call ∷ calls) log log' i h =
      promised_log_at calls _ _ i (log_after_at call log log' i h)

  module _ (law : RocksDb.IsLawful r) (same : IsSerde f.entry_serde)
      (small : (id : o.LogId) → o.index id < u64_mod) where
    pub log_at-step :
        (call : Call) (s s' : RocksDbLogStorage o f r) (i : ℕ)
        → step call s ≡ (s', ok tt)
        → i < u64_mod
        → log_at o f r s'.db i ≡ log_after call (log_at o f r s.db) i
    unfolding step
    log_at-step (appending entries) s s' i h small_i =
        log_at-append o f r law same small entries s s' i h small_i
    log_at-step (truncating id) s s' i h small_i =
        log_at-truncate o f r law same small id s s' i h small_i
    log_at-step (purging id) s s' i h small_i =
        log_at-purge o f r law same small id s s' i h small_i
    log_at-step (voting v) s s' i h small_i =
        let (bytes, _, put, _, _, _, _) = save_vote_cases o f r s s' v h in
        ground (arith, law.content-put_cf cf_meta cf_logs key_vote (log_key i) bytes s.db s'.db put)
    log_at-step (committing none) s s' i h small_i =
        ap (λ (t : RocksDbLogStorage o f r). log_at o f r t.db i) (save_committed-none o f r s s' h)
    log_at-step (committing (some c)) s s' i h small_i =
        let (bytes, _, put, _, _, _, _) = save_committed_cases o f r s s' c h in
        ground
          (arith, law.content-put_cf cf_meta cf_logs key_committed (log_key i) bytes s.db s'.db put)
    log_at-step restarting s s' i h small_i =
        ap (λ db. log_at o f r db i) (new_cases s.db s' (restart_cases s s' h)).0

    -- Whatever calls succeed one after the other, restarts of the node among them, the disk holds
    -- at every index what the calls promise: an append overwrites, a truncation takes the indices
    -- from the given one on but for the last of all, 2 ^ 64 - 1, a purge takes those up to the given
    -- one, the given one among them, but nothing if it is the last of all, and votes, commits and
    -- restarts take nothing.
    pub log_at-run :
        (calls : List Call) (s t : RocksDbLogStorage o f r) (i : ℕ)
        → run calls s ≡ ok t
        → i < u64_mod
        → log_at o f r t.db i ≡ promised_log calls (log_at o f r s.db) i
    unfolding run
    log_at-run [] s t i h small_i = ground arith
    log_at-run (call ∷ calls) s t i h small_i =
        let (s', first, rest) = run_cases call calls s t h in
        log_at-run calls s' t i rest small_i
        ∙ promised_log_at calls _ _ i (log_at-step call s s' i first small_i)
