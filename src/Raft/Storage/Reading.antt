-- ===== src/Raft/Storage/Reading.antt =====
-- What `try_get_log_entries` and `get_log_state` (crates/vraftls-raft/src/storage.rs) answer, from
-- the cache or from the disk, against the log that the disk holds.
use vraftls.Prelude.{
  ℕ, zero, suc, ◌+◌, ◌<◌, ◌≡◌, ◌≢◌, refl, sym, ◌∙◌, inl, inr, Option, none, some, List, [], ◌∷◌,
  Text, arith, list_eq, nat_eq, Option-cases,
}
use vraftls.Prelude.Map
use vraftls.Core.Types.{u64_mod}
use vraftls.Raft.Types.{OpenRaft, Entry, ok}
use vraftls.Raft.RocksDb
use vraftls.Raft.RocksDb.{RocksDb, cf_logs, key_lt}
use vraftls.Raft.Storage.{Formats, log_key, RocksDbLogStorage, load_entry, read_entries}
use vraftls.Raft.Storage.Log.{log_at}

module _ (o : OpenRaft) (f : Formats o) (r : RocksDb) where
  -- every entry of the cache is in the log of the disk
  abbrev pub IsCached : RocksDbLogStorage o f r → Type 0
  IsCached s =
      (i : ℕ) (e : Entry o)
      → Map.get i s.log_cache ≡ some e
      → (i < u64_mod) × (log_at o f r s.db i ≡ some e)

  -- every entry of the disk can be read back, and stands under the key of its index
  abbrev pub IsDecodable : r.Db → Type 0
  IsDecodable db =
      (k v : Text)
      → r.content cf_logs k db ≡ some v
      → (e : Entry o) × (f.entry_serde.from_slice v ≡ some e) × (log_key (o.index e.log_id) ≡ k)

  -- the entries from an index on, `count` at most, up to the first gap
  abbrev pub consecutive : (ℕ → Option (Entry o)) → ℕ → ℕ → List (Entry o)
  consecutive log zero i = []
  consecutive log (suc count) i = elim (log i) [
    | none ↦ []
    | some e ↦ e ∷ consecutive log count (i + 1)
  ]

  module _ (law : RocksDb.IsLawful r) where
    pub load_entry_lem :
        (i : ℕ) (db : r.Db)
        → IsDecodable db
        → r.get_cf cf_logs (log_key i) db ≢ none
        → load_entry o f r i db ≡ ok (log_at o f r db i)
    unfolding load_entry
    load_entry_lem i db h reads = elim (Option-cases (r.get_cf cf_logs (log_key i) db)) [
      | inl p ↦ absurd (reads p)
      | inr (v, p) ↦ elim (Option-cases v) [
        | inl q ↦ ground (arith, law.get_cf-content cf_logs (log_key i) db v p)
        | inr (bytes, q) ↦ ground (
          arith,
          law.get_cf-content cf_logs (log_key i) db v p,
          h (log_key i) bytes (sym (law.get_cf-content cf_logs (log_key i) db v p) ∙ q),
        )
      ]
    ]

    pub read_entries_lem :
        (count i : ℕ) (s : RocksDbLogStorage o f r)
        → IsCached s
        → IsDecodable s.db
        → ((key : Text) → r.get_cf cf_logs key s.db ≢ none)
        → read_entries o f r count i s ≡ ok (consecutive (log_at o f r s.db) count i)
    unfolding read_entries
    read_entries_lem zero i s h d reads = refl
    read_entries_lem (suc count) i s h d reads =
        let rest = read_entries_lem count (i + 1) s h d reads in
        elim (Option-cases (Map.get i s.log_cache)) [
          | inr (e, p) ↦ ground (arith, rest, h i e p)
          | inl p ↦ elim (Option-cases (log_at o f r s.db i)) [
            | inl q ↦ ground (arith, load_entry_lem i s.db d (reads (log_key i)))
            | inr (e, q) ↦ ground (arith, rest, load_entry_lem i s.db d (reads (log_key i)))
          ]
        ]
