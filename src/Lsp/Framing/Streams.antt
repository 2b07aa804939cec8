-- ===== src/Lsp/Framing/Streams.antt =====
-- The reader of a pipe (crates/vraftls-lsp/src/proxy.rs) over all that comes in: its loops end, and
-- it hands on the contents that were framed, in order.
use vraftls.Prelude.{
  ℕ, zero, suc, ◌<◌, ◌≤◌, ◌≡◌, ◌≢◌, refl, ap, ◌∙◌, ◌⊎◌, inl, inr, Bool, true, Option, none, some,
  List, [], ◌∷◌, ◌++◌, Text, length, All, arith, Bool-cases, Option-cases, nat_eq, list_eq, ◌==◌,
  ◌||◌,
}
use mathlib.Core.Path.{subst}
use mathlib.Core.List.{append_assoc}
use vraftls.Core.Types.{u64_mod}
use vraftls.Lsp.Framing.{
  frame, read_line, header_line, Round, unfinished, returned, skipped, received, read_content,
  read_exact, read_header, read_message, read_contents, read_responses,
}
use vraftls.Lsp.Framing.Lines.{read_line-length, read_exact-length}
use vraftls.Lsp.Framing.RoundTrip.{read_message-frame}

-- the round has ended, and what it leaves is shorter than what it began with
abbrev pub IsShorter : Text → Round → Type 0
IsShorter input unfinished = ⊥
IsShorter input returned = Unit
IsShorter input (skipped rest) = length rest < length input
IsShorter input (received content rest) = length rest < length input

read_content-IsShorter :
    (len : Option ℕ) (c : ℕ) (cs rest : Text)
    → length rest ≤ length cs
    → IsShorter (c ∷ cs) (read_content len rest)
unfolding read_content
read_content-IsShorter none c cs rest h = omega arith
read_content-IsShorter (some n) c cs rest h = elim (Option-cases (read_exact n rest)) [
  | inl p ↦ rw (p, read_content) tt
  | inr ((taken, left), p) ↦
      rw (p, read_content) (omega (arith, read_exact-length n rest taken left p))
]

IsShorter-weaken :
    (c : ℕ) (cs rest : Text) (round : Round)
    → length rest ≤ length cs
    → IsShorter rest round
    → IsShorter (c ∷ cs) round
IsShorter-weaken c cs rest unfinished h s = s
IsShorter-weaken c cs rest returned h s = tt
IsShorter-weaken c cs rest (skipped left) h s = omega arith
IsShorter-weaken c cs rest (received content left) h s = omega arith

Round-cases :
    (round : Round)
    → (round ≡ unfinished)
      ⊎ (round ≡ returned)
      ⊎ ((rest : Text) × (round ≡ skipped rest))
      ⊎ ((content : Text) × (rest : Text) × (round ≡ received content rest))
Round-cases unfinished = inl refl
Round-cases returned = inr (inl refl)
Round-cases (skipped rest) = inr (inr (inl (rest, refl)))
Round-cases (received content rest) = inr (inr (inr (content, rest, refl)))

module _ (is_utf8 : Text → Bool) where
  read_header-IsShorter :
      (fuel : ℕ) (len : Option ℕ) (input : Text)
      → length input < fuel
      → IsShorter input (read_header is_utf8 fuel len input)
  unfolding read_header read_line
  read_header-IsShorter zero len input h = absurd (omega arith)
  read_header-IsShorter (suc fuel) len [] h = tt
  read_header-IsShorter (suc fuel) len (c ∷ cs) h =
      let line = (read_line (c ∷ cs)).0 in
      let rest = (read_line (c ∷ cs)).1 in
      let (short, some_line) = read_line-length c cs in
      elim (Bool-cases (line == [])) [
        | inl p ↦ rw (p, read_header) tt
        | inr p ↦ elim (Bool-cases (is_utf8 line)) [
          | inr q ↦ rw (p, q, read_header) tt
          | inl q ↦ elim (Bool-cases ((line == (13 ∷ 10 ∷ [])) || (line == (10 ∷ [])))) [
            | inl u ↦ rw (p, q, u, read_header) (read_content-IsShorter len c cs rest short)
            | inr u ↦
                rw (p, q, u, read_header)
                  (IsShorter-weaken c cs rest (read_header is_utf8 fuel (header_line line len) rest)
                    short (read_header-IsShorter fuel (header_line line len) rest (omega arith)))
          ]
        ]
      ]

  -- more fuel than bytes changes nothing
  read_header_fuel :
      (fuel more : ℕ) (len : Option ℕ) (input : Text)
      → length input < fuel
      → length input < more
      → read_header is_utf8 fuel len input ≡ read_header is_utf8 more len input
  unfolding read_header read_line
  read_header_fuel zero more len input h g = absurd (omega arith)
  read_header_fuel (suc fuel) zero len input h g = absurd (omega arith)
  read_header_fuel (suc fuel) (suc more) len [] h g = refl
  read_header_fuel (suc fuel) (suc more) len (c ∷ cs) h g =
      let line = (read_line (c ∷ cs)).0 in
      let rest = (read_line (c ∷ cs)).1 in
      let short = (read_line-length c cs).0 in
      ground
        (arith, read_header_fuel fuel more (header_line line len) rest (omega arith) (omega arith))

  read_message-IsShorter : (input : Text) → IsShorter input (read_message is_utf8 input)
  unfolding read_message
  read_message-IsShorter input = read_header-IsShorter (suc (length input)) none input (omega arith)

  pub read_message-none : read_message is_utf8 [] ≡ returned
  unfolding read_message read_header read_line
  read_message-none = refl

  IsShorter-of :
      (input : Text) (round : Round) → read_message is_utf8 input ≡ round → IsShorter input round
  IsShorter-of input round p = rw (← p) (read_message-IsShorter input)

  read_contents-none : (fuel : ℕ) → read_contents is_utf8 (suc fuel) [] ≡ some []
  unfolding read_contents read_message read_header read_line
  read_contents-none fuel = refl

  -- the loop over the messages ends, and more fuel changes nothing
  read_contents_fuel :
      (fuel more : ℕ) (input : Text)
      → length input < fuel
      → length input < more
      → (contents : List Text) × (read_contents is_utf8 fuel input ≡ some contents)
        × (read_contents is_utf8 more input ≡ some contents)
  unfolding read_contents
  read_contents_fuel zero more input h g = absurd (omega arith)
  read_contents_fuel (suc fuel) zero input h g = absurd (omega arith)
  read_contents_fuel (suc fuel) (suc more) input h g =
      elim (Round-cases (read_message is_utf8 input)) [
        | inl p ↦ absurd (IsShorter-of input unfinished p)
        | inr (inl p) ↦ ([], rw (p, read_contents) refl, rw (p, read_contents) refl)
        | inr (inr (inl (rest, p))) ↦
            let short = IsShorter-of input (skipped rest) p in
            let (contents, one, two) =
              read_contents_fuel fuel more rest (omega arith) (omega arith) in
            (contents, rw (p, read_contents) one, rw (p, read_contents) two)
        | inr (inr (inr (content, rest, p))) ↦
            let short = IsShorter-of input (received content rest) p in
            let (contents, one, two) =
              read_contents_fuel fuel more rest (omega arith) (omega arith) in
            (content ∷ contents, rw (p, one, read_contents) refl, rw (p, two, read_contents) refl)
      ]

  -- a round has ended
  read_header_ends :
      (fuel : ℕ) (len : Option ℕ) (input : Text)
      → length input < fuel
      → read_header is_utf8 fuel len input ≢ unfinished
  read_header_ends fuel len input h p =
      subst (IsShorter input) p (read_header-IsShorter fuel len input h)

  -- Both loops of the reader end, over the lines of a header and over the messages: one round more
  -- than there are bytes is enough that neither runs out of rounds, and with more rounds each ends
  -- with the same.
  pub read_responses_ends :
      (more : ℕ) (len : Option ℕ) (input : Text)
      → length input < more
      → (read_header is_utf8 (suc (length input)) len input ≢ unfinished)
        × (read_header is_utf8 more len input ≡ read_header is_utf8 (suc (length input)) len input)
        × ((contents : List Text) × (read_responses is_utf8 input ≡ some contents)
            × (read_contents is_utf8 more input ≡ some contents))
  unfolding read_responses
  read_responses_ends more len input h = (
    read_header_ends (suc (length input)) len input (omega arith),
    read_header_fuel more (suc (length input)) len input h (omega arith),
    read_contents_fuel (suc (length input)) more input (omega arith) h,
  )

-- framed contents on a pipe, one behind the other
unfoldable pub frames : List Text → Text
frames [] = []
frames (m ∷ ms) = frame m ++ frames ms

module _ (is_utf8 : Text → Bool)
    (ascii : (s : Text) → All (λ c. c < 128) s → is_utf8 s ≡ true) where
  read_contents-frames :
      (ms : List Text) (tail : Text) (fuel : ℕ)
      → All (λ m. length m < u64_mod) ms
      → read_message is_utf8 tail ≡ returned
      → length (frames ms ++ tail) < fuel
      → read_contents is_utf8 fuel (frames ms ++ tail) ≡ some ms
  unfolding read_contents frames
  read_contents-frames ms tail zero small last h = absurd (omega arith)
  read_contents-frames [] tail (suc fuel) small last h = rw (last, read_contents) refl
  read_contents-frames (m ∷ ms) tail (suc fuel) small last h =
      let rest = frames ms ++ tail in
      let p = read_message-frame is_utf8 ascii m rest small.0 in
      let short = IsShorter-of is_utf8 (frame m ++ rest) (received m rest) p in
      let split : frames (m ∷ ms) ++ tail ≡ frame m ++ rest =
        append_assoc (frame m) (frames ms) tail in
      let later : read_contents is_utf8 fuel rest ≡ some ms =
        read_contents-frames ms tail fuel small.1 last (omega (arith, ap length split)) in
      ap (read_contents is_utf8 (suc fuel)) split ∙ (rw (p, later, read_contents) refl)

  -- Of contents of fewer than 2 ^ 64 bytes that are framed and written one behind the other, the
  -- reader hands on each, in the order written and nothing else, if what comes behind them is
  -- no message.
  pub read_responses-frames :
      (ms : List Text) (tail : Text)
      → All (λ m. length m < u64_mod) ms
      → read_message is_utf8 tail ≡ returned
      → read_responses is_utf8 (frames ms ++ tail) ≡ some ms
  unfolding read_responses
  read_responses-frames ms tail small last =
      read_contents-frames ms tail (suc (length (frames ms ++ tail))) small last (omega arith)
