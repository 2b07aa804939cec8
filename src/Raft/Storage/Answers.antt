-- ===== src/Raft/Storage/Answers.antt =====
-- What `get_log_state` (crates/vraftls-raft/src/storage.rs) answers on a storage whose invariant
-- holds.
use vraftls.Prelude.{
  ℕ, ◌<◌, ◌≤◌, ◌≡◌, ◌≢◌, refl, sym, ap, ◌⊎◌, inl, inr, false, Option, none, some, Text, arith,
  list_eq, nat_eq, ltb, Option-cases, Bool-cases,
}
use mathlib.Core.Path.{subst}
use vraftls.Prelude.Map
use vraftls.Prelude.Sorted.{last_entry, get-last_entry, last_entry_le}
use vraftls.Core.Types.{u64_mod}
use vraftls.Raft.Types.{OpenRaft, Entry, ok}
use vraftls.Raft.RocksDb
use vraftls.Raft.RocksDb.{RocksDb, cf_logs, key_lt, Sought, found, ended, broken}
use vraftls.Raft.Storage.{Formats, log_key, RocksDbLogStorage, LogState, get_log_state}
use vraftls.Raft.Storage.Keys.{log_key_lem}
use vraftls.Raft.Storage.Log.{decoded, log_at}
use vraftls.Raft.Storage.Invariant.{IsValid}

Sought-cases : (x : Sought) → ((bytes : Text) × (x ≡ found bytes)) ⊎ (x ≡ ended) ⊎ (x ≡ broken)
Sought-cases (found bytes) = inl (bytes, refl)
Sought-cases ended = inr (inl refl)
Sought-cases broken = inr (inr refl)

module _ (o : OpenRaft) (f : Formats o) (r : RocksDb) where
  -- the log state with a last log id
  abbrev pub state_with : RocksDbLogStorage o f r → Option o.LogId → LogState o f r
  state_with s last = record { last_purged_log_id = s.last_purged; last_log_id = last }

  -- the greatest entry of the log, where the log has one
  abbrev pub IsLast : r.Db → ℕ → Entry o → Type 0
  IsLast db i e =
      (i < u64_mod)
      × (log_at o f r db i ≡ some e)
      × ((j : ℕ) → j < u64_mod → log_at o f r db j ≢ none → j ≤ i)

module _ (o : OpenRaft) (f : Formats o) (r : RocksDb) (law : RocksDb.IsLawful r) where
  get_log_state_cached :
      (s : RocksDbLogStorage o f r) (i : ℕ) (e : Entry o)
      → IsValid o f r s
      → last_entry s.log_cache ≡ some (i, e)
      → IsLast o f r s.db i e
  get_log_state_cached s i e v p =
      let g = get-last_entry s.log_cache i e p in
      let (small_i, at) = v.cached i e g in
      (
        small_i,
        at,
        λ j small_j some_j. elim (Bool-cases (ltb i j)) [
          | inr le ↦ ground arith
          | inl lt ↦ elim (Option-cases (Map.get j s.log_cache)) [
            | inl q ↦ absurd (v.closed j i e g (ground arith) small_j some_j q)
            | inr (e', q) ↦ last_entry_le s.log_cache i e j e' p q
          ]
        ],
      )

  module _ (small : (id : o.LogId) → o.index id < u64_mod) where
    get_log_state_disk :
        (s : RocksDbLogStorage o f r) (bytes : Text)
        → IsValid o f r s
        → r.last_value cf_logs s.db ≡ found bytes
        → (e : Entry o) × (f.entry_serde.from_slice bytes ≡ some e)
          × IsLast o f r s.db (o.index e.log_id) e
    get_log_state_disk s bytes v p =
        let (k, held, greatest) = law.last_value-content cf_logs s.db bytes p in
        let (e, back, key) = v.decodable k bytes held in
        (
          e,
          back,
          (
            small e.log_id,
            ground (arith, ap (λ x. r.content cf_logs x s.db) key),
            λ j small_j some_j. elim (Option-cases (r.content cf_logs (log_key j) s.db)) [
              | inl q ↦ absurd (some_j (ap (decoded o f r) q))
              | inr (w, q) ↦ ground (
                arith,
                subst (λ x. key_lt x (log_key j) ≡ false) (sym key) (greatest (log_key j) w q),
                log_key_lem (o.index e.log_id) j (small e.log_id) small_j,
              )
            ],
          ),
        )

    -- Where the invariant holds, the log state names the last purged log id, and as the last log id
    -- that of the greatest index in the log, also just after a restart; of an empty log the last
    -- log id is the last purged one. It is that one too where the cache is empty and the iterator has
    -- failed, whatever the log is.
    pub get_log_state_lem :
        (s : RocksDbLogStorage o f r)
        → IsValid o f r s
        → ((i : ℕ) × (e : Entry o) × IsLast o f r s.db i e
            × (get_log_state o f r s ≡ ok (state_with o f r s (some e.log_id))))
          ⊎ (((i : ℕ) → log_at o f r s.db i ≡ none)
              × (get_log_state o f r s ≡ ok (state_with o f r s s.last_purged)))
          ⊎ ((last_entry s.log_cache ≡ none)
              × (r.last_value cf_logs s.db ≡ broken)
              × (get_log_state o f r s ≡ ok (state_with o f r s s.last_purged)))
    unfolding get_log_state
    get_log_state_lem s v = elim (Option-cases (last_entry s.log_cache)) [
      | inr ((i, e), p) ↦ inl (i, e, get_log_state_cached s i e v p, ground arith)
      | inl p ↦ elim (Sought-cases (r.last_value cf_logs s.db)) [
        | inl (bytes, q) ↦
            let (e, back, last) = get_log_state_disk s bytes v q in
            inl (o.index e.log_id, e, last, ground arith)
        | inr (inr q) ↦ inr (inr (p, q, ground arith))
        | inr (inl q) ↦ inr (
            inl (
              λ i. ap (decoded o f r) (law.last_value-none cf_logs (log_key i) s.db q),
              ground arith,
            ))
      ]
    ]
