-- ===== src/Lsp/Framing/Lines.antt =====
-- The pieces of a header (crates/vraftls-lsp/src/proxy.rs): its lines, the value of a field, and the
-- content behind it.
use vraftls.Prelude.{
  ℕ, zero, suc, ◌<◌, ◌≤◌, ◌≡◌, ◌≢◌, refl, sym, ap, ◌∙◌, inl, inr, true, false, Option, some, [],
  ◌∷◌, ◌++◌, map, Text, codes, decimal, split, split-append, split_piece, has, starts_with, All,
  All-append, length, arith, Option-cases, nat_eq, list_eq, ◌==◌, ◌||◌,
}
use mathlib.Core.List.{append_assoc}
use vraftls.Core.Types.{u64_mod}
use vraftls.Lsp.Framing.{
  read_line, trim_start, trim_end, is_space, to_lower, header_line, parse_usize, read_exact,
}
use vraftls.Lsp.Framing.Numbers.{IsDigit, decimal-IsDigit, decimal_some, parse_usize-decimal}

-- a line up to its end
pub read_line_lem :
    (xs rest : Text)
    → has b'\n' xs ≡ false
    → read_line (xs ++ (b'\n' ∷ rest)) ≡ (xs ++ b'\n' ∷ [], rest)
unfolding read_line
read_line_lem [] rest h = refl
read_line_lem (c ∷ xs) rest h = ground (arith, read_line_lem xs rest)

-- A line takes a byte, where there is one, and leaves no more than there is.
pub read_line-length :
    (c : ℕ) (cs : Text)
    → (length (read_line (c ∷ cs)).1 ≤ length cs) × ((read_line (c ∷ cs)).0 ≢ [])
unfolding read_line
read_line-length c [] = ground arith
read_line-length c (d ∷ cs) = ground (arith, read_line-length d cs)

has_digits : (c : ℕ) (ds : Text) → c < 48 → All IsDigit ds → has c ds ≡ false
has_digits c [] h p = refl
has_digits c (d ∷ ds) h p = ground (arith, has_digits c ds h p.1)

pub has-append : (c : ℕ) (xs ys : Text) → has c (xs ++ ys) ≡ (has c xs || has c ys)
has-append c [] ys = refl
has-append c (x ∷ xs) ys = ground (arith, has-append c xs ys)

no_colon : (ds : Text) → All IsDigit ds → has b':' ds ≡ false
no_colon [] p = refl
no_colon (d ∷ ds) p = ground (arith, no_colon ds p.1)

trim_end_digits : (ds : Text) → All IsDigit ds → trim_end (ds ++ (13 ∷ 10 ∷ [])) ≡ ds
unfolding trim_end is_space
trim_end_digits [] p = refl
trim_end_digits (d ∷ []) p = ground arith
trim_end_digits (d ∷ e ∷ ds) p = ground (arith, trim_end_digits (e ∷ ds) p.1)

trim_start_digits :
    (ds rest : Text) → ds ≢ [] → All IsDigit ds → trim_start (32 ∷ (ds ++ rest)) ≡ ds ++ rest
unfolding trim_start is_space
trim_start_digits [] rest ne p = absurd (ne refl)
trim_start_digits (d ∷ ds) rest ne p = ground arith

-- the header line of a length
pub length_line : ℕ → Text
length_line n = codes "Content-Length: " ++ (decimal n ++ (13 ∷ 10 ∷ []))

split-length_line :
    (n : ℕ)
    → split b':' (length_line n)
      ≡ codes "Content-Length" ∷ (32 ∷ (decimal n ++ (13 ∷ 10 ∷ []))) ∷ []
unfolding length_line
split-length_line n =
    split-append b':' (codes "Content-Length") (32 ∷ (decimal n ++ (13 ∷ 10 ∷ []))) refl
    ∙ ap (λ l. codes "Content-Length" ∷ l)
        (split_piece b':' (32 ∷ (decimal n ++ (13 ∷ 10 ∷ []))) (
          ground (
            arith,
            has-append b':' (decimal n) (13 ∷ 10 ∷ []),
            no_colon (decimal n) (decimal-IsDigit n),
          )))

starts-length_line :
    (n : ℕ) → starts_with (map to_lower (length_line n)) (codes "content-length:") ≡ true
unfolding length_line to_lower
starts-length_line n = refl

trimmed :
    (n : ℕ)
    → parse_usize (trim_end (trim_start (32 ∷ (decimal n ++ (13 ∷ 10 ∷ [])))))
      ≡ parse_usize (decimal n)
trimmed n = ap parse_usize (
    ap trim_end (trim_start_digits (decimal n) (13 ∷ 10 ∷ []) (decimal_some n) (decimal-IsDigit n))
    ∙ trim_end_digits (decimal n) (decimal-IsDigit n))

-- The line of a length below 2 ^ 64 gives the length.
pub header_line-length_line :
    (n : ℕ) (before : Option ℕ) → n < u64_mod → header_line (length_line n) before ≡ some n
unfolding header_line to_lower
header_line-length_line n before small =
    rw (starts-length_line n, split-length_line n, header_line)
      (trimmed n ∙ parse_usize-decimal n small)

-- as many bytes as are asked for
pub read_exact-append : (xs rest : Text) → read_exact (length xs) (xs ++ rest) ≡ some (xs, rest)
unfolding read_exact
read_exact-append [] rest = refl
read_exact-append (x ∷ xs) rest = ground (arith, read_exact-append xs rest)

pub read_exact-length :
    (n : ℕ) (cs taken rest : Text) → read_exact n cs ≡ some (taken, rest) → length rest ≤ length cs
unfolding read_exact
read_exact-length zero cs taken rest h = ground arith
read_exact-length (suc n) [] taken rest h = absurd (cc)
read_exact-length (suc n) (c ∷ cs) taken rest h = elim (Option-cases (read_exact n cs)) [
  | inl p ↦ absurd (ground arith)
  | inr ((t, r), p) ↦ ground (arith, read_exact-length n cs t r p)
]

digits_ascii : (ds : Text) → All IsDigit ds → All (λ c. c < 128) ds
digits_ascii [] p = tt
digits_ascii (d ∷ ds) p = (omega arith, digits_ascii ds p.1)

pub length_line_ascii : (n : ℕ) → All (λ c. c < 128) (length_line n)
unfolding length_line
length_line_ascii n =
    All-append (λ c. c < 128) (codes "Content-Length: ") (decimal n ++ (13 ∷ 10 ∷ [])) (omega arith)
      (All-append (λ c. c < 128) (decimal n) (13 ∷ 10 ∷ [])
        (digits_ascii (decimal n) (decimal-IsDigit n)) (omega arith))

-- The first line of a frame, and what stands behind it.
pub read_line-length_line :
    (n : ℕ) (rest : Text)
    → read_line (codes "Content-Length: " ++ (decimal n ++ (13 ∷ 10 ∷ rest)))
      ≡ (length_line n, rest)
unfolding length_line
read_line-length_line n rest =
    let front = codes "Content-Length: " ++ (decimal n ++ 13 ∷ []) in
    ap read_line (
      sym (
        append_assoc (codes "Content-Length: ") (decimal n ++ 13 ∷ []) (10 ∷ rest)
        ∙ ap (◌++◌ (codes "Content-Length: ")) (append_assoc (decimal n) (13 ∷ []) (10 ∷ rest))))
    ∙ read_line_lem front rest (
        ground (
          arith,
          has-append 10 (decimal n) (13 ∷ []),
          has_digits 10 (decimal n) (omega arith) (decimal-IsDigit n),
        ))
    ∙ ap (λ l. (l, rest))
        (append_assoc (codes "Content-Length: ") (decimal n ++ 13 ∷ []) (10 ∷ [])
          ∙ ap (◌++◌ (codes "Content-Length: ")) (append_assoc (decimal n) (13 ∷ []) (10 ∷ [])))

pub length_line_some : (n : ℕ) → length_line n ≢ []
unfolding length_line
length_line_some n h = cc

pub length_line_full :
    (n : ℕ) → ((length_line n == (13 ∷ 10 ∷ [])) || (length_line n == (10 ∷ []))) ≡ false
unfolding length_line
length_line_full n = refl
