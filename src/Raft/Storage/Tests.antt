-- ===== src/Raft/Storage/Tests.antt =====
-- Runs of the log storage (crates/vraftls-raft/src/storage.rs), and the theorems at them.
mod InMemory
use vraftls.Prelude.{
  ℕ, ◌%◌, ◌-◌, ◌<◌, ◌≡◌, ◌≢◌, refl, ◌⊎◌, ◌↔◌, inl, inr, Bool, true, Option, none, some, List, [],
  ◌∷◌, Text, Memᴰ, arith, nat_eq, ltb, codes,
}
use vraftls.Prelude.Map
use vraftls.Prelude.Sorted.{last_entry}
use vraftls.Core.Types.{u64_mod}
use vraftls.Raft.Types.{
  OpenRaft, Entry, EntryPayload, blank, normal, membership, StorageResult, StorageError, logs, ok,
  err,
}
use vraftls.Raft.RocksDb
use vraftls.Raft.RocksDb.{RocksDb, key_lt, cf_logs, broken}
use vraftls.Raft.Storage
use vraftls.Raft.Storage.{
  Serde, IsSerde, Formats, RocksDbLogStorage, Bound, log_key, new, append, try_get_log_entries,
  get_log_state, panicked, included, unbounded, start_of, end_of,
}
use vraftls.Raft.Storage.Keys.{log_key_lem}
use vraftls.Raft.Storage.Log.{log_at}
use vraftls.Raft.Storage.Calls
use vraftls.Raft.Storage.Calls.{
  Call, appending, truncating, purging, voting, committing, restarting, run, promised_log,
  log_at-run,
}
use vraftls.Raft.Storage.Restart.{Saved, IsSaved, saved_by, new-run}
use vraftls.Raft.Storage.Reading.{consecutive}
use vraftls.Raft.Storage.Invariant.{IsValid}
use vraftls.Raft.Storage.Invariant.Run.{Proper, run-IsValid}
use vraftls.Raft.Storage.Ranges.{try_get_log_entries_lem, IsAscending, IsAnswered}
use vraftls.Raft.Storage.Answers.{get_log_state_lem, IsLast, state_with}
use InMemory.{Memory, memory_db, memory_db-IsLawful}

-- a log id is a number, and its index the last 64 bits
abbrev raft : OpenRaft
raft = record {
  LogId = ℕ;
  index = λ n. n % u64_mod;
  Membership = ℕ;
  StoredMembership = ℕ;
  stored = λ id m. m;
  unstored = 0;
}

abbrev put_nat : ℕ → Option Text
put_nat n = some (n ∷ [])

abbrev get_nat : Text → Option ℕ
get_nat (n ∷ []) = some n
get_nat _ = none

abbrev nat_serde : Serde ℕ
nat_serde = record { to_vec = put_nat; from_slice = get_nat }

-- entries with no payload alone are written
abbrev put_payload : ℕ → EntryPayload raft → Option Text
put_payload id blank = some (id ∷ [])
put_payload id _ = none

abbrev get_entry : Text → Option (Entry raft)
get_entry (n ∷ []) = some (record { log_id = n; payload = blank })
get_entry _ = none

abbrev formats : Formats raft
formats = record {
  Vote = ℕ;
  vote_serde = nat_serde;
  log_id_serde = nat_serde;
  entry_serde = record { to_vec = λ e. put_payload e.log_id e.payload; from_slice = get_entry };
}

nat-IsSerde : IsSerde nat_serde
nat-IsSerde a d h = ground arith

written :
    (id : ℕ) (p : EntryPayload raft) (d : Text)
    → put_payload id p ≡ some d
    → get_entry d ≡ some (record { log_id = id; payload = p })
written id blank d h = ground arith
written id (normal x) d h = absurd (cc)
written id (membership m) d h = absurd (cc)

entry-IsSerde : IsSerde formats.entry_serde
entry-IsSerde e d h = written e.log_id e.payload d h

small : (id : ℕ) → raft.index id < u64_mod
small id = omega arith

abbrev blank_entry : ℕ → Entry raft
blank_entry n = record { log_id = n; payload = blank }

abbrev Storage0 : Type 0
Storage0 = RocksDbLogStorage raft formats memory_db

abbrev empty : Storage0
empty = record {
  db = record { logs = []; meta = [] };
  log_cache = [];
  vote = none;
  committed = none;
  last_purged = none;
}

abbrev calls : List (Call raft formats memory_db)
calls =
    appending (blank_entry 1 ∷ blank_entry 2 ∷ blank_entry 3 ∷ [])
    ∷ truncating 3
    ∷ voting 7
    ∷ committing (some 2)
    ∷ committing none
    ∷ restarting
    ∷ appending (blank_entry 3 ∷ [])
    ∷ purging 1
    ∷ []

abbrev state_of : StorageResult Storage0 → Storage0
state_of (ok s) = s
state_of (err e) = empty

abbrev end_state : Storage0
end_state = state_of (run raft formats memory_db calls empty)

calls-run : run raft formats memory_db calls empty ≡ ok end_state
unfolding run log_key Map.get
calls-run = refl

log_at_2 : log_at raft formats memory_db end_state.db 2 ≡ some (blank_entry 2)
unfolding run log_key Map.get key_lt
log_at_2 = refl

log_key_lem_example :
    (key_lt (log_key 255) (log_key 256) ≡ ltb 255 256)
    × ((log_key 255 ≡ log_key 256) ↔ (◌≡◌ {A = ℕ} 255 256))
log_key_lem_example = log_key_lem 255 256 (omega arith) (omega arith)

log_at-run_example :
    log_at raft formats memory_db end_state.db 2
    ≡ promised_log raft formats memory_db calls (log_at raft formats memory_db empty.db) 2
log_at-run_example =
    log_at-run raft formats memory_db memory_db-IsLawful entry-IsSerde small calls empty end_state 2
      calls-run (omega arith)

-- an entry with a payload cannot be written in this format
abbrev unwritable : Entry raft
unwritable = record { log_id = 6; payload = membership 1 }

abbrev half : Storage0
half = (append raft formats memory_db (blank_entry 5 ∷ unwritable ∷ []) empty).0

abbrev unsaved : Saved raft formats memory_db
unsaved = record { vote = none; committed = none; last_purged = none }

empty-IsSaved : IsSaved raft formats memory_db empty.db unsaved
unfolding Map.get
empty-IsSaved = record { vote = refl; committed = refl; last_purged = refl }

new-run_example : new raft formats memory_db true (some end_state.db) ≡ panicked
new-run_example =
    new-run raft formats memory_db memory_db-IsLawful true calls empty end_state unsaved nat-IsSerde
      nat-IsSerde calls-run empty-IsSaved (λ key none_read. cc)

empty-IsValid : IsValid raft formats memory_db empty
unfolding Map.get
empty-IsValid = record {
  cached = λ i e h. absurd (cc);
  decodable = λ k v h. absurd (cc);
  closed = λ i j e h. absurd (cc);
  room = refl;
}

calls-Proper : Proper raft formats memory_db calls (log_at raft formats memory_db empty.db)
unfolding Map.get
calls-Proper = (
  (
    λ i p q. ground arith,
    omega arith,
    (λ i p q. ground arith, omega arith, (λ i p q. ground arith, omega arith, tt)),
  ),
  (tt, (tt, (tt, (tt, (tt, ((λ i p q. ground arith, omega arith, tt), (tt, tt))))))),
)

run-IsValid_example : IsValid raft formats memory_db end_state
run-IsValid_example =
    run-IsValid raft formats memory_db memory_db-IsLawful entry-IsSerde small calls empty end_state
      calls-run calls-Proper empty-IsValid

try_get_log_entries_lem_example :
    (es : List (Entry raft)) × (try_get_log_entries raft formats memory_db
        (included 2)
        unbounded
        end_state
      ≡ ok es)
    × IsAscending raft formats memory_db 0 es
    × ((e : Entry raft)
        → Memᴰ e es
          ↔ IsAnswered raft formats memory_db
              (included 2)
              unbounded
              (log_at raft formats memory_db end_state.db)
              e)
try_get_log_entries_lem_example =
    try_get_log_entries_lem raft formats memory_db memory_db-IsLawful small (included 2) unbounded
      end_state (omega arith) tt run-IsValid_example (λ key none_read. cc)

get_log_state_lem_example :
    ((i : ℕ) × (e : Entry raft) × IsLast raft formats memory_db end_state.db i e
      × (get_log_state raft formats memory_db end_state
          ≡ ok (state_with raft formats memory_db end_state (some e.log_id))))
    ⊎ (((i : ℕ) → log_at raft formats memory_db end_state.db i ≡ none)
        × (get_log_state raft formats memory_db end_state
            ≡ ok (state_with raft formats memory_db end_state end_state.last_purged)))
    ⊎ ((last_entry end_state.log_cache ≡ none)
        × (memory_db.last_value cf_logs end_state.db ≡ broken)
        × (get_log_state raft formats memory_db end_state
            ≡ ok (state_with raft formats memory_db end_state end_state.last_purged)))
get_log_state_lem_example =
    get_log_state_lem raft formats memory_db memory_db-IsLawful small end_state run-IsValid_example
