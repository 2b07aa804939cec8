-- ===== src/Raft/Storage/Ranges.antt =====
-- What `try_get_log_entries` (crates/vraftls-raft/src/storage.rs) answers on a storage whose
-- invariant holds, against the indexes that a range has.
use vraftls.Prelude.{
  ℕ, zero, suc, ◌+◌, ◌-◌, ◌<◌, ◌≤◌, ◌≡◌, ◌≢◌, refl, sym, ap, ◌∙◌, ◌↔◌, ◌⊎◌, inl, inr, Bool, true,
  ◌&&◌, Option, none, some, List, [], ◌∷◌, Text, arith, list_eq, nat_eq, ltb, leb, Option-cases,
  Bool-cases, Memᴰ, Memᴰ-cons,
}
use mathlib.Core.List.Memᴰ
use mathlib.Core.Path.{subst}
use vraftls.Core.Types.{u64_mod}
use vraftls.Raft.Types.{OpenRaft, Entry, ok}
use vraftls.Raft.RocksDb
use vraftls.Raft.RocksDb.{RocksDb, cf_logs}
use vraftls.Raft.Storage.{
  Formats, Bound, included, excluded, unbounded, u64_max, start_of, end_of, log_key,
  RocksDbLogStorage, try_get_log_entries,
}
use vraftls.Raft.Storage.Keys.{log_key_lem}
use vraftls.Raft.Storage.Log.{decoded, log_at}
use vraftls.Raft.Storage.Reading.{consecutive, read_entries_lem}
use vraftls.Raft.Storage.Invariant.{IsValid}

-- the indexes that a bound lets in from below and from above; `unbounded` stops before the last of
-- all
abbrev pub above : Bound → ℕ → Bool
above (included n) i = leb n i
above (excluded n) i = ltb n i
above unbounded i = true

abbrev pub under : Bound → ℕ → Bool
under (included n) i = leb i n
under (excluded n) i = ltb i n
under unbounded i = ltb i u64_max

abbrev pub in_range : Bound → Bound → ℕ → Bool
in_range lower upper i = above lower i && under upper i

-- the bounds for which `n + 1` does not wrap
abbrev pub FitsLower : Bound → Type 0
FitsLower (included n) = n < u64_mod
FitsLower (excluded n) = n < u64_max
FitsLower unbounded = Unit

abbrev pub FitsUpper : Bound → Type 0
FitsUpper (included n) = n < u64_max
FitsUpper (excluded n) = n < u64_mod
FitsUpper unbounded = Unit

start_of_lem : (b : Bound) (i : ℕ) → FitsLower b → (start_of b ≤ i) ↔ (above b i ≡ true)
unfolding start_of
start_of_lem (included n) i h = ground arith
start_of_lem (excluded n) i h = ground arith
start_of_lem unbounded i h = ground arith

end_of_lem : (b : Bound) (i : ℕ) → FitsUpper b → (i < end_of b) ↔ (under b i ≡ true)
unfolding end_of
end_of_lem (included n) i h = ground arith
end_of_lem (excluded n) i h = ground arith
end_of_lem unbounded i h = ground arith

start_of_small : (b : Bound) → FitsLower b → start_of b < u64_mod
unfolding start_of
start_of_small (included n) h = h
start_of_small (excluded n) h = omega arith
start_of_small unbounded h = omega arith

end_of_small : (b : Bound) → FitsUpper b → end_of b < u64_mod
unfolding end_of
end_of_small (included n) h = omega arith
end_of_small (excluded n) h = h
end_of_small unbounded h = omega arith

unwrap {ℓ} : {A : Type ℓ} {a b : A} → some a ≡ some b → a ≡ b
unwrap h = cc

module _ (o : OpenRaft) (f : Formats o) (r : RocksDb) where
  -- each entry has a greater index than the one before it
  abbrev pub IsAscending : ℕ → List (Entry o) → Type 0
  IsAscending from [] = Unit
  IsAscending from (e ∷ es) = (from ≤ o.index e.log_id) × IsAscending (o.index e.log_id + 1) es

  -- an entry is in a list that starts at an index, and no index before it is empty
  abbrev pub IsReached : (ℕ → Option (Entry o)) → ℕ → ℕ → Entry o → Type 0
  IsReached log start stop e =
      (start ≤ o.index e.log_id)
      × (o.index e.log_id < stop)
      × (log (o.index e.log_id) ≡ some e)
      × ((j : ℕ) → start ≤ j → j < o.index e.log_id → log j ≢ none)

  IsReached-first :
      (log : ℕ → Option (Entry o)) (count i : ℕ) (e x : Entry o)
      → log i ≡ some x
      → o.index x.log_id ≡ i
      → (Memᴰ e (consecutive o f r log count (i + 1)) → IsReached log (i + 1) (i + 1 + count) e)
      → (e ≡ x) ⊎ Memᴰ e (consecutive o f r log count (i + 1))
      → IsReached log i (i + suc count) e
  IsReached-first log count i e x p key rest (inl same) =
      let at : o.index e.log_id ≡ i = ap (λ (y : Entry o). o.index y.log_id) same ∙ key in
      (
        omega (arith, at),
        omega (arith, at),
        ap log at ∙ p ∙ ap some (sym same),
        λ j low high q. omega (arith, at),
      )
  IsReached-first log count i e x p key rest (inr later) =
      let (low, high, at, full) = rest later in
      (
        omega arith,
        omega arith,
        at,
        λ j l h q. elim (Bool-cases (ltb i j)) [
          | inl after ↦ full j (ground arith) h q
          | inr first ↦ ground (arith, ap log {x = j} {y = i})
        ],
      )

  first-reached :
      (log : ℕ → Option (Entry o)) (count i : ℕ) (e x : Entry o)
      → log i ≡ some x
      → o.index x.log_id ≡ i
      → (IsReached log (i + 1) (i + 1 + count) e → Memᴰ e (consecutive o f r log count (i + 1)))
      → IsReached log i (i + suc count) e
      → (e ≡ x) ⊎ Memᴰ e (consecutive o f r log count (i + 1))
  first-reached log count i e x p key rest (low, high, at, full) =
      elim (Bool-cases (ltb i (o.index e.log_id))) [
        | inl after ↦ inr (rest (ground arith, omega arith, at, λ j l h. full j (omega arith) h))
        | inr first ↦
            let same : o.index e.log_id ≡ i = ground arith in
            inl (unwrap (sym at ∙ ap log same ∙ p))
      ]

  mem-consecutive :
      (log : ℕ → Option (Entry o)) (count i : ℕ) (e : Entry o)
      → ((j : ℕ) (x : Entry o) → j < u64_mod → log j ≡ some x → o.index x.log_id ≡ j)
      → i + count ≤ u64_mod
      → Memᴰ e (consecutive o f r log count i) ↔ IsReached log i (i + count) e
  mem-consecutive log zero i e keyed room =
      (λ m. absurd (Memᴰ.not-nil m), λ p. absurd (omega (arith, p.0, p.1)))
  mem-consecutive log (suc count) i e keyed room = elim (Option-cases (log i)) [
    | inl p ↦
        let none_left : consecutive o f r log (suc count) i ≡ [] = rw (p, consecutive) refl in
        (
          λ m. absurd (Memᴰ.not-nil (subst (Memᴰ e) none_left m)),
          λ (low, high, at, full).
              absurd
                (full i (omega arith) (ground (arith, ap log {x = i} {y = o.index e.log_id})) p),
        )
    | inr (x, p) ↦
        let first : consecutive o f r log (suc count) i ≡ x ∷ consecutive o f r log count (i + 1) =
          rw (p, consecutive) refl in
        let key : o.index x.log_id ≡ i = keyed i x (omega arith) p in
        let rest = mem-consecutive log count (i + 1) e keyed (omega arith) in
        let split = Memᴰ-cons e x (consecutive o f r log count (i + 1)) in
        (
          λ m. IsReached-first log count i e x p key rest.0 (split.0 (subst (Memᴰ e) first m)),
          λ w. subst (Memᴰ e) (sym first) (split.1 (first-reached log count i e x p key rest.1 w)),
        )
  ]

  consecutive-IsAscending :
      (log : ℕ → Option (Entry o)) (count i from : ℕ)
      → ((j : ℕ) (x : Entry o) → j < u64_mod → log j ≡ some x → o.index x.log_id ≡ j)
      → i + count ≤ u64_mod
      → from ≤ i
      → IsAscending from (consecutive o f r log count i)
  consecutive-IsAscending log zero i from keyed room low = tt
  consecutive-IsAscending log (suc count) i from keyed room low = elim (Option-cases (log i)) [
    | inl p ↦ rw (p, consecutive) tt
    | inr (x, p) ↦
        let key : o.index x.log_id ≡ i = keyed i x (omega arith) p in
        let rest : IsAscending (o.index x.log_id + 1) (consecutive o f r log count (i + 1)) =
          consecutive-IsAscending log count (i + 1) (o.index x.log_id + 1) keyed (omega arith)
            (omega (arith, key)) in
        rw (p, consecutive) (omega (arith, key), rest)
  ]

  -- an entry of the log in a range, with no gap before it
  abbrev pub IsAnswered : Bound → Bound → (ℕ → Option (Entry o)) → Entry o → Type 0
  IsAnswered lower upper log e =
      (in_range lower upper (o.index e.log_id) ≡ true)
      × (log (o.index e.log_id) ≡ some e)
      × ((j : ℕ) → in_range lower upper j ≡ true → j < o.index e.log_id → log j ≢ none)

  IsReached-IsAnswered :
      (lower upper : Bound) (log : ℕ → Option (Entry o)) (e : Entry o) (stop : ℕ)
      → FitsLower lower
      → FitsUpper upper
      → stop ≡ start_of lower + (end_of upper - start_of lower)
      → IsReached log (start_of lower) stop e ↔ IsAnswered lower upper log e
  IsReached-IsAnswered lower upper log e stop fits_lower fits_upper same =
      let at = o.index e.log_id in
      (
        λ (low, high, found, full). (
          ground (arith, start_of_lem lower at fits_lower, end_of_lem upper at fits_upper, same),
          found,
          λ j within before. full j (ground (arith, start_of_lem lower j fits_lower)) before,
        ),
        λ (within, found, full).
            let low : start_of lower ≤ at = ground (arith, start_of_lem lower at fits_lower) in
            let high : at < end_of upper = ground (arith, end_of_lem upper at fits_upper) in
            (
              low,
              omega (arith, same),
              found,
              λ j from_start before.
                  full j
                    (ground (arith, start_of_lem lower j fits_lower, end_of_lem upper j fits_upper))
                    before,
            ),
      )

  module _ (law : RocksDb.IsLawful r) (small : (id : o.LogId) → o.index id < u64_mod) where
    -- an entry that the log has at an index says so
    log_at-index :
        (s : RocksDbLogStorage o f r) (j : ℕ) (x : Entry o)
        → IsValid o f r s
        → j < u64_mod
        → log_at o f r s.db j ≡ some x
        → o.index x.log_id ≡ j
    log_at-index s j x v small_j at = elim (Option-cases (r.content cf_logs (log_key j) s.db)) [
      | inl p ↦ absurd (ground (arith, ap (decoded o f r) p, at))
      | inr (bytes, p) ↦
          let (e, back, key) = v.decodable (log_key j) bytes p in
          let same : e ≡ x = unwrap (sym back ∙ sym (ap (decoded o f r) p) ∙ at) in
          ap (λ (y : Entry o). o.index y.log_id) (sym same)
          ∙ (log_key_lem (o.index e.log_id) j (small e.log_id) small_j).1.0 key
    ]

    -- Where the invariant holds, the disk can be read and no bound wraps, a range gives exactly the
    -- entries of the log whose indexes are in it and before which no index of the range is empty, in
    -- ascending order, whether the cache or the disk has them. With no upper bound the range ends
    -- before the index 2 ^ 64 - 1.
    pub try_get_log_entries_lem :
        (lower upper : Bound) (s : RocksDbLogStorage o f r)
        → FitsLower lower
        → FitsUpper upper
        → IsValid o f r s
        → ((key : Text) → r.get_cf cf_logs key s.db ≢ none)
        → (es : List (Entry o)) × (try_get_log_entries o f r lower upper s ≡ ok es)
          × IsAscending 0 es
          × ((e : Entry o) → Memᴰ e es ↔ IsAnswered lower upper (log_at o f r s.db) e)
    unfolding try_get_log_entries
    try_get_log_entries_lem lower upper s fits_lower fits_upper v reads =
        let start = start_of lower in
        let count = end_of upper - start in
        let log = log_at o f r s.db in
        let keyed = λ (j : ℕ) (x : Entry o) (p : j < u64_mod) (q : log j ≡ some x).
          log_at-index s j x v p q in
        let room : start + count ≤ u64_mod =
          omega (arith, start_of_small lower fits_lower, end_of_small upper fits_upper) in
        (
          consecutive o f r log count start,
          read_entries_lem o f r law count start s v.cached v.decodable reads,
          consecutive-IsAscending log count start 0 keyed room (omega arith),
          λ e.
              let mem = mem-consecutive log count start e keyed room in
              let within =
                IsReached-IsAnswered lower upper log e (start + count) fits_lower fits_upper refl in
              (λ m. within.0 (mem.0 m), λ a. mem.1 (within.1 a)),
        )
