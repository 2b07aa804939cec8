-- ===== src/Lsp/Framing/RoundTrip.antt =====
-- What is framed is read back (crates/vraftls-lsp/src/proxy.rs), and the loops of the reader end.
use vraftls.Prelude.{
  ℕ, suc, ◌<◌, ◌≡◌, ◌≢◌, refl, ap, ◌∙◌, Bool, true, false, Option, none, some, [], ◌∷◌, ◌++◌, Text,
  codes, decimal, length, All, arith, nat_eq, list_eq, ◌==◌, ==_iff, ◌||◌,
}
use mathlib.Core.List.{append_assoc}
use vraftls.Core.Types.{u64_mod}
use vraftls.Lsp.Framing.{
  frame, read_line, header_line, received, read_content, read_header, read_message,
}
use vraftls.Lsp.Framing.Lines.{
  length_line, read_line_lem, header_line-length_line, read_exact-append, length_line_ascii,
  read_line-length_line, length_line_some, length_line_full,
}

frame_lines :
    (content rest : Text)
    → frame content ++ rest
      ≡ codes "Content-Length: "
        ++ (decimal (length content) ++ (13 ∷ 10 ∷ 13 ∷ 10 ∷ (content ++ rest)))
unfolding frame
frame_lines content rest =
    ap (◌++◌ (codes "Content-Length: "))
      (append_assoc (decimal (length content)) (13 ∷ 10 ∷ 13 ∷ 10 ∷ content) rest)

pub frame-length : (content rest : Text) → (k : ℕ) × (length (frame content ++ rest) ≡ suc k)
unfolding frame
frame-length content rest = (_, refl)

module _ (is_utf8 : Text → Bool) where
  -- a line that is not blank, and a blank one
  header_more :
      (fuel : ℕ) (before : Option ℕ) (input line rest : Text)
      → read_line input ≡ (line, rest)
      → line ≢ []
      → is_utf8 line ≡ true
      → ((line == (13 ∷ 10 ∷ [])) || (line == (10 ∷ []))) ≡ false
      → read_header is_utf8 (suc fuel) before input
        ≡ read_header is_utf8 fuel (header_line line before) rest
  unfolding read_header
  header_more fuel before input line rest p ne utf8 more =
      ground (arith, ap (λ x. x.0) p, ap (λ x. x.1) p, ==_iff line [])

  header_blank :
      (fuel : ℕ) (before : Option ℕ) (input rest : Text)
      → read_line input ≡ (13 ∷ 10 ∷ [], rest)
      → is_utf8 (13 ∷ 10 ∷ []) ≡ true
      → read_header is_utf8 (suc fuel) before input ≡ read_content before rest
  unfolding read_header
  header_blank fuel before input rest p utf8 = ground (arith, ap (λ x. x.0) p, ap (λ x. x.1) p)

module _ (is_utf8 : Text → Bool)
    (ascii : (s : Text) → All (λ c. c < 128) s → is_utf8 s ≡ true) where
  read_header-frame :
      (fuel : ℕ) (content rest : Text)
      → length content < u64_mod
      → read_header is_utf8 (suc (suc fuel)) none (frame content ++ rest) ≡ received content rest
  unfolding read_content frame
  read_header-frame fuel content rest small =
      let n = length content in
      let rest' = 13 ∷ 10 ∷ (content ++ rest) in
      ap (read_header is_utf8 (suc (suc fuel)) none) (frame_lines content rest)
      ∙ header_more is_utf8 (suc fuel) none _ (length_line n) rest' (read_line-length_line n rest')
          (length_line_some n) (ascii (length_line n) (length_line_ascii n)) (length_line_full n)
      ∙ ap (λ len. read_header is_utf8 (suc fuel) len rest') (header_line-length_line n none small)
      ∙ header_blank is_utf8 fuel (some n) rest' (content ++ rest)
          (read_line_lem (13 ∷ []) (content ++ rest) refl) (ascii (13 ∷ 10 ∷ []) (omega arith))
      ∙ (ground (arith, read_exact-append content rest))

  -- A framed content of fewer than 2 ^ 64 bytes is read back whole, whatever its bytes are, and the
  -- bytes behind it are left for the next round.
  pub read_message-frame :
      (content rest : Text)
      → length content < u64_mod
      → read_message is_utf8 (frame content ++ rest) ≡ received content rest
  unfolding read_message
  read_message-frame content rest small =
      let (k, e) = frame-length content rest in
      ap (λ m. read_header is_utf8 (suc m) none (frame content ++ rest)) e
      ∙ read_header-frame k content rest small
