-- ===== src/Vfs/VfsPath/Normal.antt =====
-- What `VfsPath::normalize` (crates/vraftls-vfs/src/path.rs) leaves, and that writing the
-- components out and reading them again gives them back.
use mathlib.Core.List.{foldl, append_assoc, append-nil}
use vraftls.Prelude.{
  ◌≡◌, refl, ap, ◌∙◌, sym, leb, length, drop_last, some, false, List, [], ◌∷◌, ◌++◌, map, inl, inr,
  starts_with, arith, ◌==◌, nat_eq, list_eq, Bool-cases, Text, codes, All, All-append,
  All-drop_last, has, has-split, split, split-append, split-join, join as text_join,
}
use vraftls.Vfs.VfsPath.{
  Component, prefix, root_dir, cur_dir, parent_dir, normal, VfsPath, slash, parent, parse_pieces,
  relative_pieces, path_components, normalize_step, normalize, new, join, to_path_buf,
}

-- A proper name: not empty, not `.` or `..`, and with no separator inside.
pub record IsName (p : Text) : Type 0 where
  pub not_empty : p == [] ≡ false
  pub not_dot : p == codes "." ≡ false
  pub not_dots : p == codes ".." ≡ false
  pub no_slash : has slash p ≡ false

abbrev pub IsNormal : List Text → Type 0
IsNormal = All IsName

-- what the names among some components satisfy
abbrev Named : Component → Type 0
Named (normal p) = IsName p
Named _ = Unit

parse_pieces-Named :
    (ps : List Text) → All (λ p. has slash p ≡ false) ps → All Named (parse_pieces ps)
unfolding parse_pieces
parse_pieces-Named [] h = tt
parse_pieces-Named (p ∷ ps) h = let ih = parse_pieces-Named ps h.1 in ground arith

relative_pieces-Named :
    (ps : List Text) → All (λ p. has slash p ≡ false) ps → All Named (relative_pieces ps)
unfolding relative_pieces
relative_pieces-Named [] h = tt
relative_pieces-Named (p ∷ ps) h =
    let all = parse_pieces-Named (p ∷ ps) h in
    let rest = parse_pieces-Named ps h.1 in
    elim (Bool-cases (p == codes ".")) [ inl t ↦ rw t (tt, rest) | inr f ↦ rw f all ]

path_components-Named : (s : Text) → All Named (path_components s)
unfolding path_components
path_components-Named s =
    let pieces = has-split slash s in
    elim (Bool-cases (starts_with s (slash ∷ []))) [
      | inl t ↦ rw t (tt, parse_pieces-Named (split slash s) pieces)
      | inr f ↦ rw f (relative_pieces-Named (split slash s) pieces)
    ]

normalize_step-IsNormal :
    (cs : List Text) (c : Component) → IsNormal cs → Named c → IsNormal (normalize_step cs c)
unfolding normalize_step
normalize_step-IsNormal cs (normal p) h n = All-append IsName cs (p ∷ []) h (n, tt)
normalize_step-IsNormal cs root_dir h n = tt
normalize_step-IsNormal cs parent_dir h n = All-drop_last IsName cs h
normalize_step-IsNormal cs cur_dir h n = h
normalize_step-IsNormal cs (prefix p) h n = h

steps-IsNormal :
    (ks : List Component) (cs : List Text)
    → All Named ks
    → IsNormal cs
    → IsNormal (foldl normalize_step cs ks)
steps-IsNormal [] cs n h = h
steps-IsNormal (k ∷ ks) cs n h =
    steps-IsNormal ks (normalize_step cs k) n.1 (normalize_step-IsNormal cs k h n.0)

-- Whatever the text, its components are proper names: none is empty, `.` or `..`, and none holds a
-- separator.
pub normalize-IsNormal : (s : Text) → IsNormal (normalize s)
unfolding normalize
normalize-IsNormal s = steps-IsNormal (path_components s) [] (path_components-Named s) tt

parse_pieces_names : (cs : List Text) → IsNormal cs → parse_pieces cs ≡ map normal cs
unfolding parse_pieces
parse_pieces_names [] h = refl
parse_pieces_names (p ∷ ps) h = ground (arith, parse_pieces_names ps)

steps_names : (acc cs : List Text) → foldl normalize_step acc (map normal cs) ≡ acc ++ cs
unfolding normalize_step
steps_names acc [] = sym (append-nil acc)
steps_names acc (c ∷ cs) = steps_names (acc ++ c ∷ []) cs ∙ append_assoc acc (c ∷ []) cs

name_relative : (p rest : Text) → IsName p → starts_with (p ++ rest) (slash ∷ []) ≡ false
name_relative [] rest n = absurd (cc (n.not_empty))
name_relative (x ∷ p) rest n = ground (arith, n.no_slash)

pub join_relative :
    (cs : List Text) → IsNormal cs → starts_with (text_join slash cs) (slash ∷ []) ≡ false
unfolding text_join
join_relative [] h = refl
join_relative (p ∷ []) h = rw (← append-nil p) (name_relative p [] h.0)
join_relative (p ∷ q ∷ ps) h = name_relative p (slash ∷ text_join slash (q ∷ ps)) h.0

no_slashes : (cs : List Text) → IsNormal cs → All (λ q. has slash q ≡ false) cs
no_slashes [] n = tt
no_slashes (c ∷ cs) n = (n.0.no_slash, no_slashes cs n.1)

split_names :
    (p : Text) (ps : List Text)
    → IsNormal (p ∷ ps)
    → split slash (text_join slash (p ∷ ps)) ≡ p ∷ ps
split_names p ps h = split-join slash p ps (no_slashes (p ∷ ps) h)

relative_names : (cs : List Text) → IsNormal cs → relative_pieces cs ≡ map normal cs
unfolding relative_pieces
relative_names [] h = refl
relative_names (p ∷ ps) h = rw (h.0.not_dot) (parse_pieces_names (p ∷ ps) h)

-- The pieces of a joined text; the text of no component at all is empty, and has one empty piece.
join_components :
    (cs : List Text) → IsNormal cs → path_components (text_join slash cs) ≡ map normal cs
unfolding path_components text_join
join_components [] h = refl
join_components (p ∷ ps) h =
    unfold path_components in
    rw (join_relative (p ∷ ps) h, split_names p ps h) (relative_names (p ∷ ps) h)

-- Joining proper names by separators and normalizing the text gives the names back.
pub normalize-join : (cs : List Text) → IsNormal cs → normalize (text_join slash cs) ≡ cs
unfolding normalize
normalize-join cs h = rw (join_components cs h) (steps_names [] cs)

absolute_components :
    (s : Text) → path_components (slash ∷ s) ≡ root_dir ∷ parse_pieces (split slash s)
unfolding path_components
absolute_components s = ap (λ ps. root_dir ∷ parse_pieces ps) (split-append slash [] s refl)

normalize-absolute : (cs : List Text) → IsNormal cs → normalize (slash ∷ text_join slash cs) ≡ cs
unfolding normalize normalize_step text_join
normalize-absolute [] h = refl
normalize-absolute (p ∷ ps) h =
    rw
      (
        absolute_components (text_join slash (p ∷ ps)),
        split_names p ps h,
        parse_pieces_names (p ∷ ps) h,
      )
      (steps_names [] (p ∷ ps))

-- Every way to make a path leaves it with proper names as components.
pub new-IsNormal : (s : Text) → IsNormal (new s).components
unfolding new
new-IsNormal s = normalize-IsNormal s

pub join-IsNormal :
    (p : VfsPath) (other : Text) → IsNormal p.components → IsNormal (join p other).components
unfolding join
join-IsNormal p other h = All-append IsName p.components _ h (new-IsNormal other)

pub parent-IsNormal :
    (p q : VfsPath) → IsNormal p.components → parent p ≡ some q → IsNormal q.components
unfolding parent
parent-IsNormal p q h e = elim (Bool-cases (leb (length p.components) 1)) [
  | inl short ↦ absurd (ground arith)
  | inr long ↦
      let same : drop_last p.components ≡ q.components = ground arith in
      rw (← same) (All-drop_last IsName p.components h)
]

-- The text of a path's `PathBuf`, read again, has the components of the path, for a relative and
-- for an absolute path.
pub new-to_path_buf :
    (p : VfsPath) → IsNormal p.components → (new (to_path_buf p)).components ≡ p.components
unfolding new to_path_buf
new-to_path_buf p h = elim (Bool-cases (starts_with p.original (slash ∷ []))) [
  | inl t ↦ rw t (normalize-absolute p.components h)
  | inr f ↦ rw f (normalize-join p.components h)
]

-- The text that `join` stores, read again, has the components that `join` stores.
pub new-join :
    (p : VfsPath) (other : Text)
    → IsNormal p.components
    → (new (join p other).original).components ≡ (join p other).components
unfolding new join
new-join p other h = normalize-join _ (All-append IsName p.components _ h (new-IsNormal other))
