-- ===== src/Raft/RocksDb.antt =====
-- RocksDB as crates/vraftls-raft/src/storage.rs uses it: a parameter, since its code is not in this
-- repository. A call that fails is `none` and leaves the database as it was.
use vraftls.Prelude.{
  ◌≡◌, Bool, true, false, ◌&&◌, ◌||◌, not, Option, none, some, [], ◌∷◌, Text, list_eq, nat_eq, ◌==◌,
  ltb, if◌then◌else◌,
}

-- `CF_LOGS`, `CF_META`
pub data ColumnFamily : Type 0 where
  cf_logs cf_meta : ColumnFamily

abbrev pub same_family : ColumnFamily → ColumnFamily → Bool
same_family cf_logs cf_logs = true
same_family cf_logs cf_meta = false
same_family cf_meta cf_logs = false
same_family cf_meta cf_meta = true

-- the order of the keys: bytewise, and a text stands before its continuations
unfoldable pub key_lt : Text → Text → Bool
key_lt [] [] = false
key_lt [] (y ∷ ys) = true
key_lt (x ∷ xs) [] = false
key_lt (x ∷ xs) (y ∷ ys) = ltb x y || (x == y) && key_lt xs ys

-- What `seek_to_last` on a new iterator leaves, as `valid`, `value` and `status` tell: a value, the
-- end of a family with no keys, or an error, where the iterator is not valid either.
pub data Sought : Type 0 where
  found : Text → Sought
  ended broken : Sought

pub record RocksDb : Type 1 where
  pub Db : Type 0
  pub get_cf : ColumnFamily → Text → Db → Option (Option Text)
  pub put_cf : ColumnFamily → Text → Text → Db → Option Db
  -- the first key is in the range, the second is not
  pub delete_range_cf : ColumnFamily → Text → Text → Db → Option Db
  pub last_value : ColumnFamily → Db → Sought
  -- what stands under a key, for the laws alone
  pub content : ColumnFamily → Text → Db → Option Text

-- What RocksDB documents.
pub record IsLawful (r : RocksDb) : Type 0 where
  pub get_cf-content :
      (cf : ColumnFamily) (k : Text) (db : r.Db) (v : Option Text)
      → r.get_cf cf k db ≡ some v
      → v ≡ r.content cf k db
  pub content-put_cf :
      (cf cf' : ColumnFamily) (k k' v : Text) (db db' : r.Db)
      → r.put_cf cf k v db ≡ some db'
      → r.content cf' k' db'
        ≡ (if same_family cf cf' && (k == k') then some v else r.content cf' k' db)
  pub content-delete_range_cf :
      (cf cf' : ColumnFamily) (lo hi k : Text) (db db' : r.Db)
      → r.delete_range_cf cf lo hi db ≡ some db'
      → r.content cf' k db' ≡ (
          if same_family cf cf' && (not (key_lt k lo) && key_lt k hi)
          then none
          else r.content cf' k db)
  pub last_value-content :
      (cf : ColumnFamily) (db : r.Db) (v : Text)
      → r.last_value cf db ≡ found v
      → (k : Text) × (r.content cf k db ≡ some v)
        × ((k' v' : Text) → r.content cf k' db ≡ some v' → key_lt k k' ≡ false)
  pub last_value-none :
      (cf : ColumnFamily) (k : Text) (db : r.Db)
      → r.last_value cf db ≡ ended
      → r.content cf k db ≡ none
