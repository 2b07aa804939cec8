-- ===== src/Raft/Storage/Keys.antt =====
-- The keys of the log in crates/vraftls-raft/src/storage.rs: their order is the order of the
-- indices, which ranges and the search for the last entry rely on.
use vraftls.Prelude.{
  ℕ, zero, suc, ◌*◌, ◌/◌, ◌%◌, ◌<◌, ◌≡◌, refl, ◌↔◌, ◌∙◌, ◌&&◌, ◌||◌, [], ◌∷◌, ◌++◌, Text, arith,
  length, length-append, list_eq, nat_eq, ◌==◌, ==_iff, ltb,
}
use vraftls.Core.Types.{u64_mod}
use vraftls.Raft.RocksDb.{key_lt}
use vraftls.Raft.Storage.{be_bytes, log_key}

key_lt-concat :
    (xs ys : Text) (x y : ℕ)
    → length xs ≡ length ys
    → key_lt (xs ++ x ∷ []) (ys ++ y ∷ []) ≡ (key_lt xs ys || (xs == ys) && ltb x y)
unfolding key_lt
key_lt-concat [] [] x y h = ground arith
key_lt-concat [] (b ∷ ys) x y h = absurd (omega arith)
key_lt-concat (a ∷ xs) [] x y h = absurd (omega arith)
key_lt-concat (a ∷ xs) (b ∷ ys) x y h = ground (arith, key_lt-concat xs ys x y)

equal-concat :
    (xs ys : Text) (x y : ℕ)
    → length xs ≡ length ys
    → ((xs ++ x ∷ []) == (ys ++ y ∷ [])) ≡ ((xs == ys) && (x == y))
equal-concat [] [] x y h = ground arith
equal-concat [] (b ∷ ys) x y h = absurd (omega arith)
equal-concat (a ∷ xs) [] x y h = absurd (omega arith)
equal-concat (a ∷ xs) (b ∷ ys) x y h = ground (arith, equal-concat xs ys x y)

length-be_bytes : (width n : ℕ) → length (be_bytes width n) ≡ width
unfolding be_bytes
length-be_bytes zero n = refl
length-be_bytes (suc width) n = omega (
  arith,
  length-append (be_bytes width (n / 256)) ((n % 256) ∷ []),
  length-be_bytes width (n / 256),
)

-- the numbers that so many bytes hold
abbrev bound : ℕ → ℕ
bound zero = 1
bound (suc width) = 256 * bound width

equal-be_bytes :
    (width a b : ℕ)
    → a < bound width
    → b < bound width
    → (be_bytes width a == be_bytes width b) ≡ (a == b)
unfolding be_bytes
equal-be_bytes zero a b ha hb = ground arith
equal-be_bytes (suc width) a b ha hb =
    equal-concat (be_bytes width (a / 256)) (be_bytes width (b / 256)) (a % 256) (b % 256)
      (omega (arith, length-be_bytes width (a / 256), length-be_bytes width (b / 256)))
    ∙ (ground (arith, equal-be_bytes width (a / 256) (b / 256) (omega arith) (omega arith)))

key_lt-be_bytes :
    (width a b : ℕ)
    → a < bound width
    → b < bound width
    → key_lt (be_bytes width a) (be_bytes width b) ≡ ltb a b
unfolding be_bytes key_lt
key_lt-be_bytes zero a b ha hb = ground arith
key_lt-be_bytes (suc width) a b ha hb =
    key_lt-concat (be_bytes width (a / 256)) (be_bytes width (b / 256)) (a % 256) (b % 256)
      (omega (arith, length-be_bytes width (a / 256), length-be_bytes width (b / 256)))
    ∙ (ground (
      arith,
      key_lt-be_bytes width (a / 256) (b / 256) (omega arith) (omega arith),
      equal-be_bytes width (a / 256) (b / 256) (omega arith) (omega arith),
    ))

-- The keys of the indices compare as bytes the way the indices compare as numbers, and no two
-- indices share a key.
pub log_key_lem :
    (a b : ℕ)
    → a < u64_mod
    → b < u64_mod
    → (key_lt (log_key a) (log_key b) ≡ ltb a b) × ((log_key a ≡ log_key b) ↔ (a ≡ b))
unfolding log_key
log_key_lem a b ha hb = (
  key_lt-be_bytes 8 a b ha hb,
  ground (arith, equal-be_bytes 8 a b ha hb, ==_iff (be_bytes 8 a) (be_bytes 8 b)),
)

pub equal-log_key : (a b : ℕ) → a < u64_mod → b < u64_mod → (log_key a == log_key b) ≡ (a == b)
unfolding log_key
equal-log_key a b ha hb = equal-be_bytes 8 a b ha hb
