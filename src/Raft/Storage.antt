-- ===== src/Raft/Storage.antt =====
-- crates/vraftls-raft/src/storage.rs: the log of a node on RocksDB, with a cache of its entries in
-- memory. A call returns the storage that it leaves, also where it fails. Each call runs alone.
pub mod Keys
pub mod Success
pub mod Log
pub mod Failure
pub mod Calls
pub mod Restart
pub mod Reading
pub mod Invariant
pub mod Answers
pub mod Ranges
mod Tests
use mathlib.Core.Option
use vraftls.Prelude.{
  ℕ, zero, suc, ◌+◌, ◌-◌, ◌*◌, ◌/◌, ◌%◌, ◌^◌, ◌≡◌, Bool, true, false, Option, none, some, List, [],
  ◌∷◌, ◌++◌, Text, codes, nat_eq,
}
use vraftls.Prelude.Map
use vraftls.Prelude.Map.{Map}
use vraftls.Prelude.Sorted.{below, from, last_entry}
use vraftls.Core.Types.{u64_mod}
use vraftls.Raft.Types.{
  OpenRaft, Entry, ErrorSubject, ErrorVerb, StorageResult, ok, err, store, vote, logs, read, write,
}
use vraftls.Raft.RocksDb.{RocksDb, ColumnFamily, cf_logs, cf_meta, found, ended, broken}

-- `serde_json::to_vec` and `from_slice` at a type; `none` is an error
pub record Serde (A : Type 0) : Type 0 where
  pub to_vec : A → Option Text
  pub from_slice : Text → Option A

-- What `serde_json` documents: what was written is read back.
abbrev pub IsSerde : {A : Type 0} → Serde A → Type 0
IsSerde {A} s = (a : A) (d : Text) → s.to_vec a ≡ some d → s.from_slice d ≡ some a

-- the votes of OpenRaft, and how the values that are stored are written
pub record Formats (o : OpenRaft) : Type 1 where
  pub Vote : Type 0
  pub vote_serde : Serde Vote
  pub log_id_serde : Serde o.LogId
  pub entry_serde : Serde (Entry o)

abbrev pub u64_max : ℕ
u64_max = u64_mod - 1

abbrev pub key_vote : Text
key_vote = codes "vote"

abbrev pub key_committed : Text
key_committed = codes "committed"

abbrev pub key_last_purged : Text
key_last_purged = codes "last_purged"

-- the last bytes of a number, the highest first
unfoldable pub be_bytes : ℕ → ℕ → Text
be_bytes zero n = []
be_bytes (suc width) n = be_bytes width (n / 256) ++ (n % 256) ∷ []

-- `index.to_be_bytes()`
unfoldable pub log_key : ℕ → Text
unfolding be_bytes
log_key index = be_bytes 8 index

-- `std::ops::Bound`
pub data Bound : Type 0 where
  included excluded : ℕ → Bound
  unbounded : Bound

unfoldable pub start_of : Bound → ℕ
start_of (included n) = n
start_of (excluded n) = (n + 1) % u64_mod
start_of unbounded = 0

unfoldable pub end_of : Bound → ℕ
end_of (included n) = (n + 1) % u64_mod
end_of (excluded n) = n
end_of unbounded = u64_max

module _ (o : OpenRaft) (f : Formats o) (r : RocksDb) where
  pub record RocksDbLogStorage : Type 0 where
    pub db : r.Db
    pub log_cache : Map ℕ (Entry o)
    pub vote : Option f.Vote
    pub committed : Option o.LogId
    pub last_purged : Option o.LogId

  pub record LogState : Type 0 where
    pub last_purged_log_id : Option o.LogId
    pub last_log_id : Option o.LogId

  -- `StorageError::from_io_error`
  abbrev fail {ℓ} : {A : Type ℓ} → ErrorSubject → ErrorVerb → StorageResult A
  fail subject verb = err (record { subject = subject; verb = verb })

  -- what a call comes to that may panic
  pub data Outcome (A : Type 0) : Type 0 where
    returned : StorageResult A → Outcome A
    panicked : Outcome A

  abbrev and_then : {A B : Type 0} → Outcome A → (A → Outcome B) → Outcome B
  and_then panicked g = panicked
  and_then (returned (err e)) g = returned (err e)
  and_then (returned (ok a)) g = g a

  infixl 5 ◌>>=◌
  abbrev ◌>>=◌ : {A B : Type 0} → StorageResult A → (A → StorageResult B) → StorageResult B
  ok a >>= g = g a
  err e >>= g = err e

  -- one of the three parts of `load_metadata`
  unfoldable pub load_key :
      {A : Type 0} → ErrorSubject → Serde A → Text → r.Db → StorageResult (Option A)
  load_key subject s key db = elim (r.get_cf cf_meta key db) [
    | none ↦ fail subject read
    | some none ↦ ok none
    | some (some bytes) ↦ elim (s.from_slice bytes) [
      | none ↦ fail subject read
      | some a ↦ ok (some a)
    ]
  ]

  -- What was read is stored by `blocking_write`, which panics inside a runtime of tokio.
  unfoldable pub store_loaded : {A : Type 0} → Bool → StorageResult (Option A) → Outcome (Option A)
  store_loaded in_runtime (err e) = returned (err e)
  store_loaded in_runtime (ok none) = returned (ok none)
  store_loaded true (ok (some a)) = panicked
  store_loaded false (ok (some a)) = returned (ok (some a))

  -- `new`, from what `DB::open_cf_descriptors` gives, and `load_metadata`, inside a runtime or not
  unfoldable pub new : Bool → Option r.Db → Outcome RocksDbLogStorage
  unfolding load_key store_loaded
  new in_runtime none = returned (fail store read)
  new in_runtime (some db) =
      and_then (store_loaded in_runtime (load_key ErrorSubject.vote f.vote_serde key_vote db))
        (λ loaded_vote.
          and_then (store_loaded in_runtime (load_key store f.log_id_serde key_committed db))
            (λ loaded_committed.
              and_then (store_loaded in_runtime (load_key store f.log_id_serde key_last_purged db))
                (λ loaded_purged. returned (
                  ok (record {
                    db = db;
                    log_cache = [];
                    vote = loaded_vote;
                    committed = loaded_committed;
                    last_purged = loaded_purged;
                  })))))

  unfoldable pub save_entry : Entry o → r.Db → StorageResult r.Db
  unfolding log_key
  save_entry entry db = elim (f.entry_serde.to_vec entry) [
    | none ↦ fail logs write
    | some bytes ↦ elim (r.put_cf cf_logs (log_key (o.index entry.log_id)) bytes db) [
      | none ↦ fail logs write
      | some db' ↦ ok db'
    ]
  ]

  unfoldable pub load_entry : ℕ → r.Db → StorageResult (Option (Entry o))
  unfolding log_key
  load_entry index db = elim (r.get_cf cf_logs (log_key index) db) [
    | none ↦ fail logs read
    | some none ↦ ok none
    | some (some bytes) ↦ elim (f.entry_serde.from_slice bytes) [
      | none ↦ fail logs read
      | some entry ↦ ok (some entry)
    ]
  ]

  unfoldable pub delete_entries_before : ℕ → r.Db → StorageResult r.Db
  unfolding log_key
  delete_entries_before before_index db =
      elim (r.delete_range_cf cf_logs (log_key 0) (log_key before_index) db) [
        | none ↦ fail logs write
        | some db' ↦ ok db'
      ]

  -- The `for` loop over `count` indices: the cache first, then the disk, up to the first gap. The
  -- guard of the cache, which the source drops in the loop, is meant to be there in every round.
  unfoldable pub read_entries : ℕ → ℕ → RocksDbLogStorage → StorageResult (List (Entry o))
  unfolding load_entry Map.get
  read_entries zero index s = ok []
  read_entries (suc count) index s =
      let rest = read_entries count (index + 1) s in
      elim (Map.get index s.log_cache) [
        | some entry ↦ (rest >>= λ entries. ok (entry ∷ entries))
        | none ↦
            (load_entry index s.db >>= λ found. elim found [
              | none ↦ ok []
              | some entry ↦ (rest >>= λ entries. ok (entry ∷ entries))
            ])
      ]

  unfoldable pub try_get_log_entries :
      Bound → Bound → RocksDbLogStorage → StorageResult (List (Entry o))
  unfolding read_entries start_of end_of
  try_get_log_entries lower upper s =
      read_entries (end_of upper - start_of lower) (start_of lower) s

  -- The iterator is asked whether it is valid, and never for its error.
  unfoldable pub get_log_state : RocksDbLogStorage → StorageResult LogState
  unfolding last_entry
  get_log_state s =
      let state = λ (last : Option o.LogId).
        ok (record { last_purged_log_id = s.last_purged; last_log_id = last }) in
      elim (last_entry s.log_cache) [
        | some (index, entry) ↦ state (some entry.log_id)
        | none ↦ elim (r.last_value cf_logs s.db) [
          | ended ↦ state s.last_purged
          | broken ↦ state s.last_purged
          | found bytes ↦ elim (f.entry_serde.from_slice bytes) [
            | none ↦ fail logs read
            | some entry ↦ state (some entry.log_id)
          ]
        ]
      ]

  unfoldable pub save_committed :
      Option o.LogId → RocksDbLogStorage → RocksDbLogStorage × StorageResult (Unit {0})
  save_committed committed s =
      let s' = record s { committed = committed } in
      elim committed [
        | none ↦ (s', ok tt)
        | some c ↦ elim (f.log_id_serde.to_vec c) [
          | none ↦ (s', fail store write)
          | some bytes ↦ elim (r.put_cf cf_meta key_committed bytes s.db) [
            | none ↦ (s', fail store write)
            | some db' ↦ (record s' { db = db' }, ok tt)
          ]
        ]
      ]

  unfoldable pub read_committed : RocksDbLogStorage → StorageResult (Option o.LogId)
  read_committed s = ok s.committed

  unfoldable pub save_vote :
      f.Vote → RocksDbLogStorage → RocksDbLogStorage × StorageResult (Unit {0})
  save_vote given s =
      let s' = record s { vote = some given } in
      elim (f.vote_serde.to_vec given) [
        | none ↦ (s', fail ErrorSubject.vote write)
        | some bytes ↦ elim (r.put_cf cf_meta key_vote bytes s.db) [
          | none ↦ (s', fail ErrorSubject.vote write)
          | some db' ↦ (record s' { db = db' }, ok tt)
        ]
      ]

  -- The loop of `append`: an entry enters the cache when it is on the disk. The callback is called
  -- where the result is `ok`, and at no other place.
  unfoldable pub append :
      List (Entry o) → RocksDbLogStorage → RocksDbLogStorage × StorageResult (Unit {0})
  unfolding save_entry Map.insert
  append [] s = (s, ok tt)
  append (entry ∷ entries) s = elim (save_entry entry s.db) [
    | err e ↦ (s, err e)
    | ok db' ↦
        append entries
          (record s { db = db'; log_cache = Map.insert (o.index entry.log_id) entry s.log_cache })
  ]

  unfoldable pub truncate :
      o.LogId → RocksDbLogStorage → RocksDbLogStorage × StorageResult (Unit {0})
  unfolding below log_key
  truncate log_id s =
      let s' = record s { log_cache = below (o.index log_id) s.log_cache } in
      elim (r.delete_range_cf cf_logs (log_key (o.index log_id)) (log_key u64_max) s.db) [
        | none ↦ (s', fail logs write)
        | some db' ↦ (record s' { db = db' }, ok tt)
      ]

  -- `index + 1` on a `u64`, which wraps in a release build
  unfoldable pub after : o.LogId → ℕ
  after log_id = (o.index log_id + 1) % u64_mod

  -- What `split_off` returns is meant to become the cache.
  unfoldable pub purge : o.LogId → RocksDbLogStorage → RocksDbLogStorage × StorageResult (Unit {0})
  unfolding after from delete_entries_before
  purge log_id s =
      let s' = record s { last_purged = some log_id } in
      elim (f.log_id_serde.to_vec log_id) [
        | none ↦ (s', fail store write)
        | some bytes ↦ elim (r.put_cf cf_meta key_last_purged bytes s.db) [
          | none ↦ (s', fail store write)
          | some db' ↦
              let s'' = record s' { db = db'; log_cache = from (after log_id) s.log_cache } in
              elim (delete_entries_before (after log_id) db') [
                | err e ↦ (s'', err e)
                | ok db'' ↦ (record s'' { db = db'' }, ok tt)
              ]
        ]
      ]
