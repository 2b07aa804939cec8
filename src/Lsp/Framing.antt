-- ===== src/Lsp/Framing.antt =====
-- The messages on the pipes of a language server (crates/vraftls-lsp/src/proxy.rs): how `request`
-- and `notify` frame them, and how `read_responses` takes them from the bytes that have come in.
-- The end of the bytes is the end of the pipe.
pub mod Numbers
pub mod Lines
pub mod RoundTrip
pub mod Streams
pub mod Frames
use vraftls.Prelude.{
  ℕ, zero, suc, ◌+◌, ◌-◌, ◌*◌, ◌<◌, ◌≡◌, Bool, true, false, ◌&&◌, ◌||◌, Option, none, some, List,
  [], ◌∷◌, ◌++◌, map, Text, codes, split, starts_with, decimal, length, All, nat_eq, list_eq, ◌==◌,
  ltb, leb, if◌then◌else◌,
}
use mathlib.Core.Option
use vraftls.Core.Types.{u64_mod}

-- `format!("Content-Length: {}\r\n\r\n{}", content.len(), content)`
unfoldable pub frame : Text → Text
unfolding decimal
frame content =
    codes "Content-Length: " ++ (decimal (length content) ++ (13 ∷ 10 ∷ 13 ∷ 10 ∷ content))

-- `read_line`: the line with its end, and what is left
unfoldable pub read_line : Text → Text × Text
read_line [] = ([], [])
read_line (c ∷ cs) =
    let rest = read_line cs in if c == b'\n' then (c ∷ [], cs) else (c ∷ rest.0, rest.1)

-- `to_lowercase`, of which only the ASCII letters matter to the test that follows
unfoldable pub to_lower : ℕ → ℕ
to_lower c = if leb b'A' c && leb c b'Z' then c + 32 else c

-- `trim`, at the white space of ASCII
unfoldable pub is_space : ℕ → Bool
is_space c = leb 9 c && leb c 13 || (c == 32)

unfoldable pub trim_start : Text → Text
unfolding is_space
trim_start [] = []
trim_start (c ∷ cs) = let rest = trim_start cs in if is_space c then rest else c ∷ cs

unfoldable pub trim_end : Text → Text
unfolding is_space
trim_end [] = []
trim_end (c ∷ cs) = elim (trim_end cs) [
  | [] ↦ if is_space c then [] else c ∷ []
  | d ∷ ds ↦ c ∷ d ∷ ds
]

-- the digits of `usize::from_str`, which fails at any other byte and on overflow
unfoldable pub parse_digits : ℕ → Text → Option ℕ
parse_digits acc [] = some acc
parse_digits acc (c ∷ cs) =
    let value = acc * 10 + (c - 48) in
    let rest = parse_digits value cs in
    if leb 48 c && leb c 57 && ltb value u64_mod then rest else none

-- `parse::<usize>()`
unfoldable pub parse_usize : Text → Option ℕ
unfolding parse_digits
parse_usize [] = none
parse_usize (c ∷ []) = if c == b'+' then none else parse_digits 0 (c ∷ [])
parse_usize (c ∷ d ∷ cs) =
    if c == b'+' then parse_digits 0 (d ∷ cs) else parse_digits 0 (c ∷ d ∷ cs)

-- what a line of the header makes of the content length
unfoldable pub header_line : Text → Option ℕ → Option ℕ
unfolding split to_lower trim_start trim_end parse_usize
header_line line content_length =
    if starts_with (map to_lower line) (codes "content-length:")
    then elim (split b':' line) [
      | [] ↦ content_length
      | name ∷ [] ↦ content_length
      | name ∷ value ∷ more ↦ parse_usize (trim_end (trim_start value))
    ]
    else content_length

-- what one round of the outer loop ends with: the task returns, no length was given, or a content
pub data Round : Type 0 where
  returned : Round
  skipped : Text → Round
  received : Text → Text → Round
  -- the fuel was not enough
  unfinished : Round

-- the first bytes and the rest, none if there are fewer: `read_exact`
unfoldable pub read_exact : ℕ → Text → Option (Text × Text)
read_exact zero cs = some ([], cs)
read_exact (suc n) [] = none
read_exact (suc n) (c ∷ cs) = elim (read_exact n cs) [
  | none ↦ none
  | some (taken, rest) ↦ some (c ∷ taken, rest)
]

unfoldable pub read_content : Option ℕ → Text → Round
unfolding read_exact
read_content none input = skipped input
read_content (some len) input = elim (read_exact len input) [
  | none ↦ returned
  | some (content, rest) ↦ received content rest
]

-- `is_utf8` says whether bytes are a `String`, which `read_line` checks
module _ (is_utf8 : Text → Bool) where
  -- The loop over the lines of the header. Every line takes a byte, so the bytes that there are
  -- give fuel enough.
  unfoldable pub read_header : ℕ → Option ℕ → Text → Round
  unfolding read_line header_line read_content
  read_header zero content_length input = unfinished
  read_header (suc fuel) content_length input =
      let line = (read_line input).0 in
      let rest = (read_line input).1 in
      let more = read_header fuel (header_line line content_length) rest in
      if line == []
      then returned
      else if is_utf8 line
      then (if (line == (13 ∷ 10 ∷ [])) || (line == (10 ∷ []))
          then read_content content_length rest
          else more)
      else returned

  unfoldable pub read_message : Text → Round
  unfolding read_header
  read_message input = read_header (suc (length input)) none input

  -- The contents that the outer loop hands on, one after the other; none if the fuel was not enough.
  unfoldable pub read_contents : ℕ → Text → Option (List Text)
  unfolding read_message
  read_contents zero input = none
  read_contents (suc fuel) input = elim (read_message input) [
    | unfinished ↦ none
    | returned ↦ some []
    | skipped rest ↦ read_contents fuel rest
    | received content rest ↦ Option.map (◌∷◌ content) (read_contents fuel rest)
  ]

  unfoldable pub read_responses : Text → Option (List Text)
  unfolding read_contents
  read_responses input = read_contents (suc (length input)) input
