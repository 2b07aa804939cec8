-- ===== src/Vfs/VfsPath.antt =====
-- crates/vraftls-vfs/src/path.rs, and of `std::path::Path::components` what it does on Unix.
pub mod Normal
pub mod Relations
use vraftls.Prelude.{
  ℕ, ◌-◌, ◌<◌, ◌≡◌, ◌↔◌, refl, Bool, true, false, ◌&&◌, Option, none, some, List, [], ◌∷◌, ◌++◌,
  arith, Eq, ◌==◌, ==_iff, nat_eq, list_eq, option_eq, leb, ltb, length, get_last?, drop_last, Text,
  codes, starts_with as text_starts_with, split, join as text_join, rsplit_once, if◌then◌else◌,
}
use vraftls.Core.Types.{ClientId, LanguageId, from_extension, PartitionKey}
use mathlib.Core.List.{foldl}
use mathlib.Core.Option

-- The bytes `/`, `.`.
abbrev pub slash : ℕ
slash = 47

abbrev pub dot : ℕ
dot = 46

pub data Component : Type 0 where
  prefix : Text → Component
  root_dir cur_dir parent_dir : Component
  normal : Text → Component

-- A piece between separators: an empty one and `.` are no components.
unfoldable pub parse_pieces : List Text → List Component
parse_pieces [] = []
parse_pieces (p ∷ ps) =
    let rest = parse_pieces ps in
    if p == []
    then rest
    else if p == codes "."
    then rest
    else if p == codes ".."
    then parent_dir ∷ rest
    else normal p ∷ rest

-- of a relative path: only a leading `.` is a `CurDir`
unfoldable pub relative_pieces : List Text → List Component
relative_pieces [] = []
relative_pieces (p ∷ ps) =
    if p == codes "." then cur_dir ∷ parse_pieces ps else parse_pieces (p ∷ ps)

-- `Path::components`
unfoldable pub path_components : Text → List Component
unfolding relative_pieces parse_pieces split
path_components path =
    if text_starts_with path (slash ∷ [])
    then root_dir ∷ parse_pieces (split slash path)
    else relative_pieces (split slash path)

-- one round of the loop of `normalize`; what splits at ASCII is UTF-8, so `to_str` gives a text
unfoldable pub normalize_step : List Text → Component → List Text
normalize_step components (normal c) = components ++ c ∷ []
normalize_step components root_dir = []
normalize_step components parent_dir = drop_last components
normalize_step components cur_dir = components
normalize_step components (prefix p) = components

unfoldable pub normalize : Text → List Text
unfolding path_components normalize_step
normalize path = foldl normalize_step [] (path_components path)

pub record VfsPath : Type 0 where
  pub client_id : Option ClientId
  pub components : List Text
  pub original : Text

-- the derived `PartialEq`
abbrev pub path_beq : VfsPath → VfsPath → Bool
path_beq p q =
    (p.client_id == q.client_id) && ((p.components == q.components) && (p.original == q.original))

pub path_beq_iff : (p q : VfsPath) → (path_beq p q ≡ true) ↔ (p ≡ q)
path_beq_iff p q = ground (
  arith,
  ==_iff p.client_id q.client_id,
  ==_iff p.components q.components,
  ==_iff p.original q.original,
)

instance abbrev pub path_eq : Eq VfsPath
path_eq = record { equal = path_beq; decides = path_beq_iff }

unfoldable pub new : Text → VfsPath
unfolding normalize
new path = record { client_id = none; components = normalize path; original = path }

unfoldable pub with_client : Text → ClientId → VfsPath
unfolding new
with_client path client_id = record (new path) { client_id = some client_id }

-- `Display`, `as_str`
abbrev pub as_str : VfsPath → Text
as_str p = p.original

unfoldable pub file_name : VfsPath → Option Text
file_name p = get_last? p.components

unfoldable pub extension : VfsPath → Option Text
unfolding file_name rsplit_once
extension p = elim (file_name p) [
  | none ↦ none
  | some name ↦ Option.map (λ (parts : Text × Text). parts.1) (rsplit_once dot name)
]

unfoldable pub parent : VfsPath → Option VfsPath
unfolding text_join
parent p =
    if leb (length p.components) 1
    then none
    else some (record {
      client_id = p.client_id;
      components = drop_last p.components;
      original = text_join slash (drop_last p.components);
    })

unfoldable pub join : VfsPath → Text → VfsPath
unfolding new text_join
join p other =
    let new_components = p.components ++ (new other).components in
    record {
      client_id = p.client_id;
      components = new_components;
      original = text_join slash new_components;
    }

-- The text of the `PathBuf`. Pushing the joined components on `/` puts them behind it, since they
-- do not begin with a separator.
unfoldable pub to_path_buf : VfsPath → Text
unfolding text_join
to_path_buf p =
    if text_starts_with p.original (slash ∷ [])
    then slash ∷ text_join slash p.components
    else text_join slash p.components

unfoldable pub language_id : VfsPath → Option LanguageId
unfolding extension from_extension
language_id p = Option.map from_extension (extension p)

-- `zip` and `all`
abbrev all_zip : List Text → List Text → Bool
all_zip [] ys = true
all_zip (x ∷ xs) [] = true
all_zip (x ∷ xs) (y ∷ ys) = (x == y) && all_zip xs ys

unfoldable pub starts_with : VfsPath → VfsPath → Bool
starts_with p other =
    if ltb (length p.components) (length other.components)
    then false
    else all_zip p.components other.components
