-- ===== src/Lsp/Framing/Numbers.antt =====
-- The length in the header of a message (crates/vraftls-lsp/src/proxy.rs) is read as it was written.
use vraftls.Prelude.{
  ℕ, zero, suc, ◌+◌, ◌-◌, ◌*◌, ◌/◌, ◌%◌, ◌<◌, ◌≤◌, ◌≡◌, ◌≢◌, refl, ◌∙◌, inl, inr, none, some, [],
  ◌∷◌, ◌++◌, Text, decimal, decimal_digits, All, All-append, arith, ltb, Bool-cases, nat_eq,
}
use vraftls.Core.Types.{u64_mod}
use vraftls.Lsp.Framing.{parse_digits, parse_usize}

abbrev pub IsDigit : ℕ → Type 0
IsDigit c = (48 ≤ c) × (c ≤ 57)

decimal_digits-IsDigit : (fuel n : ℕ) → All IsDigit (decimal_digits fuel n)
unfolding decimal_digits
decimal_digits-IsDigit zero n = tt
decimal_digits-IsDigit (suc fuel) n = elim (Bool-cases (ltb n 10)) [
  | inl small ↦ rw (small, decimal_digits) ((omega arith, ground arith), tt)
  | inr large ↦
      rw (large, decimal_digits)
        (All-append IsDigit (decimal_digits fuel (n / 10)) ((48 + n % 10) ∷ [])
          (decimal_digits-IsDigit fuel (n / 10)) ((omega arith, omega arith), tt))
]

parse_digits-concat :
    (xs : Text) (acc d : ℕ)
    → parse_digits acc (xs ++ d ∷ [])
      ≡ (elim (parse_digits acc xs) [ none ↦ none | some v ↦ parse_digits v (d ∷ []) ])
unfolding parse_digits
parse_digits-concat [] acc d = refl
parse_digits-concat (c ∷ xs) acc d = ground (arith, parse_digits-concat xs (acc * 10 + (c - 48)) d)

parse_digit :
    (v d : ℕ) → d < 10 → v * 10 + d < u64_mod → parse_digits v ((48 + d) ∷ []) ≡ some (v * 10 + d)
unfolding parse_digits
parse_digit v d h small = ground arith

parse_digits-decimal_digits :
    (fuel n : ℕ) → n < fuel → n < u64_mod → parse_digits 0 (decimal_digits fuel n) ≡ some n
unfolding decimal_digits
parse_digits-decimal_digits zero n h small = absurd (omega arith)
parse_digits-decimal_digits (suc fuel) n h small = elim (Bool-cases (ltb n 10)) [
  | inl one ↦ rw (one, decimal_digits) (ground (arith, parse_digit 0 n))
  | inr more ↦
      rw (more, decimal_digits)
        (parse_digits-concat (decimal_digits fuel (n / 10)) 0 (48 + n % 10)
          ∙ (ground (
            arith,
            parse_digits-decimal_digits fuel (n / 10) (ground arith) (omega arith),
            parse_digit (n / 10) (n % 10),
          )))
]

concat_some : (xs : Text) (x : ℕ) → xs ++ x ∷ [] ≢ []
concat_some [] x h = cc
concat_some (y ∷ ys) x h = cc

decimal_digits_some : (fuel n : ℕ) → decimal_digits (suc fuel) n ≢ []
unfolding decimal_digits
decimal_digits_some fuel n h =
    ground (arith, concat_some (decimal_digits fuel (n / 10)) (48 + n % 10))

parse_usize_digits : (ds : Text) → ds ≢ [] → All IsDigit ds → parse_usize ds ≡ parse_digits 0 ds
unfolding parse_usize
parse_usize_digits [] ne h = absurd (ne refl)
parse_usize_digits (c ∷ []) ne h = ground arith
parse_usize_digits (c ∷ d ∷ ds) ne h = ground arith

pub decimal-IsDigit : (n : ℕ) → All IsDigit (decimal n)
unfolding decimal
decimal-IsDigit n = decimal_digits-IsDigit (suc n) n

pub decimal_some : (n : ℕ) → decimal n ≢ []
unfolding decimal
decimal_some n = decimal_digits_some n n

pub parse_usize-decimal : (n : ℕ) → n < u64_mod → parse_usize (decimal n) ≡ some n
unfolding decimal
parse_usize-decimal n small =
    parse_usize_digits (decimal_digits (suc n) n) (decimal_digits_some n n)
      (decimal_digits-IsDigit (suc n) n)
    ∙ parse_digits-decimal_digits (suc n) n (omega arith) small
