-- ===== src/Raft/Storage/Restart.antt =====
-- What a node finds when it comes up again (crates/vraftls-raft/src/storage.rs): `load_metadata`
-- against what was saved.
use vraftls.Prelude.{
  ◌≡◌, ◌≢◌, refl, ap, ◌∙◌, inl, inr, false, Option, none, some, List, [], ◌∷◌, Text, arith, list_eq,
  nat_eq, ◌==◌, ==_iff, Option-cases, Bool, true, ◌&&◌, ◌||◌, if◌then◌else◌,
}
use vraftls.Raft.Types.{OpenRaft, Entry, ErrorSubject, ok, store}
use vraftls.Raft.RocksDb
use vraftls.Raft.RocksDb.{RocksDb, cf_logs, cf_meta}
use vraftls.Raft.Storage.{
  Formats, Serde, IsSerde, RocksDbLogStorage, panicked, returned, store_loaded, new, load_key,
  append, log_key, key_vote, key_committed, key_last_purged,
}
use vraftls.Raft.Storage.Success.{
  append_cases, save_entry_cases, purge_cases, truncate_cases, save_vote_cases,
  save_committed_cases, save_committed-none,
}
use vraftls.Raft.Storage.Calls.{
  Call, appending, truncating, purging, voting, committing, restarting, step, run, run_cases,
  new_cases, restart_cases, new_ok,
}

abbrev pub is_some : {A : Type 0} → Option A → Bool
is_some none = false
is_some (some a) = true

module _ (o : OpenRaft) (f : Formats o) (r : RocksDb) where
  -- the value under a key, written out, or nothing
  abbrev pub Holds : {A : Type 0} → Serde A → Text → r.Db → Option A → Type 0
  Holds {A} s key db none = r.content cf_meta key db ≡ none
  Holds {A} s key db (some a) =
      (bytes : Text) × (r.content cf_meta key db ≡ some bytes) × (s.to_vec a ≡ some bytes)

  -- what is saved: the vote, the committed log id, and the last one purged
  pub record Saved : Type 0 where
    pub vote : Option f.Vote
    pub committed : Option o.LogId
    pub last_purged : Option o.LogId

  pub record IsSaved (db : r.Db) (m : Saved) : Type 0 where
    pub vote : Holds f.vote_serde key_vote db m.vote
    pub committed : Holds f.log_id_serde key_committed db m.committed
    pub last_purged : Holds f.log_id_serde key_last_purged db m.last_purged

  -- What a call promises to save. `save_committed` of none saves nothing.
  abbrev pub saved_after : Call o f r → Saved → Saved
  saved_after (voting v) m = record m { vote = some v }
  saved_after (committing (some c)) m = record m { committed = some c }
  saved_after (committing none) m = m
  saved_after (purging id) m = record m { last_purged = some id }
  saved_after (appending entries) m = m
  saved_after (truncating id) m = m
  saved_after restarting m = m

  abbrev pub saved_by : List (Call o f r) → Saved → Saved
  saved_by [] m = m
  saved_by (call ∷ calls) m = saved_by calls (saved_after call m)

  module _ (law : RocksDb.IsLawful r) where
    -- a call leaves what stands under a key
    Holds-same :
        {A : Type 0} (s : Serde A) (key : Text) (db db' : r.Db) (a : Option A)
        → r.content cf_meta key db' ≡ r.content cf_meta key db
        → Holds s key db a
        → Holds s key db' a
    Holds-same s key db db' none e h = ground arith
    Holds-same s key db db' (some a) e (bytes, held, written) = (bytes, ground arith, written)

    -- the metadata is the same on both
    abbrev SameMeta : r.Db → r.Db → Type 0
    SameMeta db db' = (key : Text) → r.content cf_meta key db' ≡ r.content cf_meta key db

    IsSaved-same : (db db' : r.Db) (m : Saved) → SameMeta db db' → IsSaved db m → IsSaved db' m
    IsSaved-same db db' m e h = record {
      vote = Holds-same f.vote_serde key_vote db db' m.vote (e key_vote) h.vote;
      committed =
          Holds-same f.log_id_serde key_committed db db' m.committed (e key_committed) h.committed;
      last_purged =
          Holds-same f.log_id_serde key_last_purged db db' m.last_purged (e key_last_purged)
            h.last_purged;
    }

    SameMeta-append :
        (es : List (Entry o)) (s s' : RocksDbLogStorage o f r)
        → append o f r es s ≡ (s', ok tt)
        → SameMeta s.db s'.db
    unfolding append
    SameMeta-append [] s s' h key = ground arith
    SameMeta-append (e ∷ es) s s' h key =
        let (db', saved, rest) = append_cases o f r e es s s' h in
        let (bytes, _, put) = save_entry_cases o f r e s.db db' saved in
        SameMeta-append es _ s' rest key
        ∙ law.content-put_cf cf_logs cf_meta (log_key (o.index e.log_id)) key bytes s.db db' put

    -- a value that is put under its key
    Holds-put :
        {A : Type 0} (s : Serde A) (key bytes : Text) (db db' : r.Db) (a : A)
        → s.to_vec a ≡ some bytes
        → r.put_cf cf_meta key bytes db ≡ some db'
        → Holds s key db' (some a)
    Holds-put s key bytes db db' a written put = (
      bytes,
      ground (arith, law.content-put_cf cf_meta cf_meta key key bytes db db' put, ==_iff key key),
      written,
    )

    -- a value under another key
    Holds-other :
        {A : Type 0} (s : Serde A) (key other bytes : Text) (db db' : r.Db) (a : Option A)
        → (other == key) ≡ false
        → r.put_cf cf_meta other bytes db ≡ some db'
        → Holds s key db a
        → Holds s key db' a
    Holds-other s key other bytes db db' a apart put =
        Holds-same s key db db' a
          (ground (arith, law.content-put_cf cf_meta cf_meta other key bytes db db' put))

    IsSaved-step :
        (call : Call o f r) (s s' : RocksDbLogStorage o f r) (m : Saved)
        → step o f r call s ≡ (s', ok tt)
        → IsSaved s.db m
        → IsSaved s'.db (saved_after call m)
    unfolding step
    IsSaved-step (appending entries) s s' m h k =
        IsSaved-same s.db s'.db m (SameMeta-append entries s s' h) k
    IsSaved-step (truncating id) s s' m h k =
        let (deleted, _, _, _, _) = truncate_cases o f r s s' id h in
        IsSaved-same s.db s'.db m
          (λ key. law.content-delete_range_cf cf_logs cf_meta _ _ key s.db s'.db deleted) k
    IsSaved-step (purging id) s s' m h k =
        let (bytes, db', written, put, deleted, _, _, _, _) = purge_cases o f r id s s' h in
        IsSaved-same db' s'.db (record m { last_purged = some id })
          (λ key. law.content-delete_range_cf cf_logs cf_meta _ _ key db' s'.db deleted)
          (record {
            vote =
                Holds-other f.vote_serde key_vote key_last_purged bytes s.db db' m.vote refl put
                  k.vote;
            committed =
                Holds-other f.log_id_serde key_committed key_last_purged bytes s.db db' m.committed
                  refl put k.committed;
            last_purged = Holds-put f.log_id_serde key_last_purged bytes s.db db' id written put;
          })
    IsSaved-step (voting v) s s' m h k =
        let (bytes, written, put, _, _, _, _) = save_vote_cases o f r s s' v h in
        record {
          vote = Holds-put f.vote_serde key_vote bytes s.db s'.db v written put;
          committed =
              Holds-other f.log_id_serde key_committed key_vote bytes s.db s'.db m.committed refl
                put k.committed;
          last_purged =
              Holds-other f.log_id_serde key_last_purged key_vote bytes s.db s'.db m.last_purged
                refl put k.last_purged;
        }
    IsSaved-step (committing none) s s' m h k =
        let same = save_committed-none o f r s s' h in
        IsSaved-same s.db s'.db m
          (λ key. ap (λ (t : RocksDbLogStorage o f r). r.content cf_meta key t.db) same) k
    IsSaved-step (committing (some c)) s s' m h k =
        let (bytes, written, put, _, _, _, _) = save_committed_cases o f r s s' c h in
        record {
          vote =
              Holds-other f.vote_serde key_vote key_committed bytes s.db s'.db m.vote refl put
                k.vote;
          committed = Holds-put f.log_id_serde key_committed bytes s.db s'.db c written put;
          last_purged =
              Holds-other f.log_id_serde key_last_purged key_committed bytes s.db s'.db
                m.last_purged refl put k.last_purged;
        }
    IsSaved-step restarting s s' m h k =
        IsSaved-same s.db s'.db m
          (λ key.
            ap (r.content cf_meta key) (new_cases o f r s.db s' (restart_cases o f r s s' h)).0)
          k

    IsSaved-run :
        (calls : List (Call o f r)) (s t : RocksDbLogStorage o f r) (m : Saved)
        → run o f r calls s ≡ ok t
        → IsSaved s.db m
        → IsSaved t.db (saved_by calls m)
    unfolding run
    IsSaved-run [] s t m h k = IsSaved-same s.db t.db m (λ key. ground arith) k
    IsSaved-run (call ∷ calls) s t m h k =
        let (s', first, rest) = run_cases o f r call calls s t h in
        IsSaved-run calls s' t (saved_after call m) rest (IsSaved-step call s s' m first k)

    load_key_lem :
        {A : Type 0} (subject : ErrorSubject) (s : Serde A) (key : Text) (db : r.Db) (a : Option A)
        → IsSerde s
        → r.get_cf cf_meta key db ≢ none
        → Holds s key db a
        → load_key o f r subject s key db ≡ ok a
    unfolding load_key
    load_key_lem subject s key db none same reads h =
        elim (Option-cases (r.get_cf cf_meta key db)) [
          | inl p ↦ absurd (reads p)
          | inr (v, p) ↦ ground (arith, law.get_cf-content cf_meta key db v p)
        ]
    load_key_lem subject s key db (some a) same reads (bytes, held, written) =
        elim (Option-cases (r.get_cf cf_meta key db)) [
          | inl p ↦ absurd (reads p)
          | inr (v, p) ↦ ground (arith, law.get_cf-content cf_meta key db v p, same a bytes written)
        ]

    -- `new` from what the three reads give
    new_loaded :
        (in_runtime : Bool) (db : r.Db) (v : Option f.Vote) (c l : Option o.LogId)
        → load_key o f r ErrorSubject.vote f.vote_serde key_vote db ≡ ok v
        → load_key o f r store f.log_id_serde key_committed db ≡ ok c
        → load_key o f r store f.log_id_serde key_last_purged db ≡ ok l
        → new o f r in_runtime (some db) ≡ (
            if in_runtime && (is_some v || is_some c || is_some l)
            then panicked
            else returned
                (ok (record { db = db; log_cache = []; vote = v; committed = c; last_purged = l })))
    unfolding new store_loaded
    new_loaded false db v c l p q u = new_ok o f r db v c l p q u
    new_loaded true db (some v) c l p q u = rw (p, new) refl
    new_loaded true db none (some c) l p q u = rw (p, q, new) refl
    new_loaded true db none none (some l) p q u = rw (p, q, u, new) refl
    new_loaded true db none none none p q u = rw (p, q, u, new) refl

    -- After calls that succeed, a node that comes up outside of a tokio runtime and whose disk can be
    -- read finds the last vote and the last purged log id that were saved, as the committed log id the
    -- last one that was not none, an empty cache, and the disk as it was. Inside of a runtime it
    -- panics if any of the three was saved, and comes up in the same way if none was.
    pub new-run :
        (in_runtime : Bool) (calls : List (Call o f r)) (s t : RocksDbLogStorage o f r) (m : Saved)
        → IsSerde f.vote_serde
        → IsSerde f.log_id_serde
        → run o f r calls s ≡ ok t
        → IsSaved s.db m
        → ((key : Text) → r.get_cf cf_meta key t.db ≢ none)
        → new o f r in_runtime (some t.db) ≡ (
            if in_runtime
              && (is_some (saved_by calls m).vote
                  || is_some (saved_by calls m).committed
                  || is_some (saved_by calls m).last_purged)
            then panicked
            else returned (
                ok (record {
                  db = t.db;
                  log_cache = [];
                  vote = (saved_by calls m).vote;
                  committed = (saved_by calls m).committed;
                  last_purged = (saved_by calls m).last_purged;
                })))
    new-run in_runtime calls s t m votes ids h k reads =
        let kept = IsSaved-run calls s t m h k in
        let m' = saved_by calls m in
        new_loaded in_runtime t.db m'.vote m'.committed m'.last_purged
          (load_key_lem ErrorSubject.vote f.vote_serde key_vote t.db m'.vote votes (reads key_vote)
            kept.vote)
          (load_key_lem store f.log_id_serde key_committed t.db m'.committed ids
            (reads key_committed) kept.committed)
          (load_key_lem store f.log_id_serde key_last_purged t.db m'.last_purged ids
            (reads key_last_purged) kept.last_purged)
