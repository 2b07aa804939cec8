-- ===== src/Raft/Storage/Tests/InMemory.antt =====
-- A database in memory in the place of RocksDB: two maps, whose keys are compared as bytes.
use vraftls.Prelude.{
  ◌≡◌, refl, sym, ap, ◌∙◌, inl, inr, true, false, not, ◌&&◌, Option, none, some, [], ◌∷◌, Text,
  arith, list_eq, nat_eq, ◌==◌, ==_iff, Option-cases, Bool-cases, if◌then◌else◌,
}
use vraftls.Prelude.Map
use vraftls.Prelude.Map.{Map}
use vraftls.Raft.RocksDb
use vraftls.Raft.RocksDb.{
  RocksDb, ColumnFamily, Sought, found, ended, cf_logs, cf_meta, same_family, key_lt,
}

pub record Memory : Type 0 where
  pub logs : Map Text Text
  pub meta : Map Text Text

abbrev pub without : Text → Text → Map Text Text → Map Text Text
without lo hi [] = []
without lo hi ((k, v) ∷ m) =
    let rest = without lo hi m in if not (key_lt k lo) && key_lt k hi then rest else (k, v) ∷ rest

abbrev pub greatest : Map Text Text → Option (Text × Text)
greatest [] = none
greatest ((k, v) ∷ m) = elim (greatest m) [
  | none ↦ some (k, v)
  | some (j, w) ↦ if key_lt k j then some (j, w) else some (k, v)
]

abbrev pub family : ColumnFamily → Memory → Map Text Text
family cf_logs db = db.logs
family cf_meta db = db.meta

abbrev pub with_family : ColumnFamily → Map Text Text → Memory → Memory
with_family cf_logs m db = record db { logs = m }
with_family cf_meta m db = record db { meta = m }

abbrev pub value : Option (Text × Text) → Sought
value none = ended
value (some (k, v)) = found v

abbrev pub memory_db : RocksDb
memory_db = record {
  Db = Memory;
  get_cf = λ cf k db. some (Map.get k (family cf db));
  put_cf = λ cf k v db. some (with_family cf (Map.insert k v (family cf db)) db);
  delete_range_cf = λ cf lo hi db. some (with_family cf (without lo hi (family cf db)) db);
  last_value = λ cf db. value (greatest (family cf db));
  content = λ cf k db. Map.get k (family cf db);
}

pub get-without :
    (lo hi k : Text) (m : Map Text Text)
    → Map.get k (without lo hi m) ≡ (if not (key_lt k lo) && key_lt k hi then none else Map.get k m)
unfolding Map.get
get-without lo hi k [] = ground arith
get-without lo hi k ((j, v) ∷ m) = ground (arith, get-without lo hi k m, ==_iff j k)

key_lt_irrefl : (a : Text) → key_lt a a ≡ false
unfolding key_lt
key_lt_irrefl [] = refl
key_lt_irrefl (x ∷ xs) = ground (arith, key_lt_irrefl xs)

key_lt_trans_false : (a b c : Text) → key_lt a b ≡ false → key_lt b c ≡ false → key_lt a c ≡ false
unfolding key_lt
key_lt_trans_false [] [] c h g = g
key_lt_trans_false [] (y ∷ ys) c h g = absurd (ground arith)
key_lt_trans_false (x ∷ xs) b [] h g = refl
key_lt_trans_false (x ∷ xs) [] (z ∷ zs) h g = absurd (ground arith)
key_lt_trans_false (x ∷ xs) (y ∷ ys) (z ∷ zs) h g = ground (arith, key_lt_trans_false xs ys zs)

key_lt_asym : (a b : Text) → key_lt a b ≡ true → key_lt b a ≡ false
unfolding key_lt
key_lt_asym [] [] h = refl
key_lt_asym [] (y ∷ ys) h = refl
key_lt_asym (x ∷ xs) [] h = absurd (ground arith)
key_lt_asym (x ∷ xs) (y ∷ ys) h = ground (arith, key_lt_asym xs ys)

greatest-none : (m : Map Text Text) (k : Text) → greatest m ≡ none → Map.get k m ≡ none
unfolding Map.get
greatest-none [] k h = refl
greatest-none ((j, v) ∷ m) k h = absurd (ground arith)

get-greatest : (m : Map Text Text) (k v : Text) → greatest m ≡ some (k, v) → Map.get k m ≡ some v
unfolding Map.get
get-greatest [] k v h = absurd (cc)
get-greatest ((j, w) ∷ m) k v h = elim (Option-cases (greatest m)) [
  | inl p ↦ ground (arith, ==_iff j k)
  | inr ((i, u), p) ↦ ground (arith, get-greatest m i u p, ==_iff j k, key_lt_irrefl j)
]

greatest_le :
    (m : Map Text Text) (k v k' v' : Text)
    → greatest m ≡ some (k, v)
    → Map.get k' m ≡ some v'
    → key_lt k k' ≡ false
unfolding Map.get
greatest_le [] k v k' v' h g = absurd (cc)
greatest_le ((j, w) ∷ m) k v k' v' h g = elim (Option-cases (greatest m)) [
  | inl p ↦ ground (arith, greatest-none m k' p, ==_iff j k', key_lt_irrefl j)
  | inr ((i, u), p) ↦ elim (Bool-cases (key_lt j i)) [
    | inl q ↦ ground (arith, greatest_le m i u k' v' p, ==_iff j k', key_lt_asym j i q)
    | inr q ↦ ground (
      arith,
      greatest_le m i u k' v' p,
      ==_iff j k',
      key_lt_irrefl j,
      key_lt_trans_false j i k' q,
    )
  ]
]

pub last_value-content :
    (cf : ColumnFamily) (db : Memory) (v : Text)
    → value (greatest (family cf db)) ≡ found v
    → (k : Text) × (Map.get k (family cf db) ≡ some v)
      × ((k' v' : Text) → Map.get k' (family cf db) ≡ some v' → key_lt k k' ≡ false)
last_value-content cf db v h = elim (Option-cases (greatest (family cf db))) [
  | inl p ↦ absurd (ground arith)
  | inr ((k, w), p) ↦ (
    k,
    ground (arith, get-greatest (family cf db) k w p),
    λ k' v' g. greatest_le (family cf db) k w k' v' p g,
  )
]

unwrap : {a b : Memory} → some a ≡ some b → a ≡ b
unwrap h = cc

put_law :
    (cf cf' : ColumnFamily) (k k' v : Text) (db : Memory)
    → Map.get k' (family cf' (with_family cf (Map.insert k v (family cf db)) db))
      ≡ (if same_family cf cf' && (k == k') then some v else Map.get k' (family cf' db))
put_law cf_logs cf_logs k k' v db = Map.get-insert k k' v _
put_law cf_logs cf_meta k k' v db = refl
put_law cf_meta cf_logs k k' v db = refl
put_law cf_meta cf_meta k k' v db = Map.get-insert k k' v _

delete_law :
    (cf cf' : ColumnFamily) (lo hi k : Text) (db : Memory)
    → Map.get k (family cf' (with_family cf (without lo hi (family cf db)) db)) ≡ (
        if same_family cf cf' && (not (key_lt k lo) && key_lt k hi)
        then none
        else Map.get k (family cf' db))
delete_law cf_logs cf_logs lo hi k db = get-without lo hi k _
delete_law cf_logs cf_meta lo hi k db = refl
delete_law cf_meta cf_logs lo hi k db = refl
delete_law cf_meta cf_meta lo hi k db = get-without lo hi k _

value-none : (m : Map Text Text) (k : Text) → value (greatest m) ≡ ended → Map.get k m ≡ none
value-none m k h = elim (Option-cases (greatest m)) [
  | inl p ↦ greatest-none m k p
  | inr (e, p) ↦ absurd (ground arith)
]

pub memory_db-IsLawful : RocksDb.IsLawful memory_db
memory_db-IsLawful = record {
  get_cf-content = λ cf k db v h. ground arith;
  content-put_cf = λ cf cf' k k' v db db' h.
      ap (λ (d : Memory). Map.get k' (family cf' d)) (sym (unwrap h)) ∙ put_law cf cf' k k' v db;
  content-delete_range_cf = λ cf cf' lo hi k db db' h.
      ap (λ (d : Memory). Map.get k (family cf' d)) (sym (unwrap h)) ∙ delete_law cf cf' lo hi k db;
  last_value-content = last_value-content;
  last_value-none = λ cf k db h. value-none (family cf db) k h;
}
