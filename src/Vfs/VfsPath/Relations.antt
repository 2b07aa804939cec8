-- ===== src/Vfs/VfsPath/Relations.antt =====
-- How a path stands to its parent, its extension and the paths joined to it
-- (crates/vraftls-vfs/src/path.rs).
use vraftls.Prelude.{
  ◌≤◌, ◌≡◌, ◌≢◌, ◌↔◌, refl, ap, true, false, none, some, ◌⊎◌, inl, inr, List, [], ◌∷◌, ◌++◌, arith,
  ==_iff, beq_refl, nat_eq, list_eq, leb, ltb, length, All-drop_last, get_last?, drop_last, Text,
  has, join as text_join, starts_with as text_starts_with, rsplit_once, rsplit_once_parts,
  Option-cases, Bool-cases,
}
use vraftls.Vfs.VfsPath.{
  VfsPath, slash, dot, new, file_name, extension, parent, join, starts_with, all_zip,
}
use vraftls.Vfs.VfsPath.Normal.{IsNormal, IsName, join_relative, join-IsNormal}

zip_prefix :
    (xs ys : List Text)
    → ltb (length xs) (length ys) ≡ false
    → all_zip xs ys ≡ true
    → (rest : List Text) × (xs ≡ ys ++ rest)
zip_prefix xs [] n h = (xs, refl)
zip_prefix [] (y ∷ ys) n h = absurd (ground arith)
zip_prefix (x ∷ xs) (y ∷ ys) n h =
    let (rest, e) = zip_prefix xs ys (ground arith) (ground arith) in
    (rest, ground (arith, ==_iff x y))

prefix_zip :
    (ys rest : List Text)
    → (ltb (length (ys ++ rest)) (length ys) ≡ false) × (all_zip (ys ++ rest) ys ≡ true)
prefix_zip [] [] = (refl, refl)
prefix_zip [] (x ∷ rest) = (ground arith, refl)
prefix_zip (y ∷ ys) rest = ground (arith, prefix_zip ys rest, beq_refl y)

-- A path starts with another exactly if the other's components begin its own.
pub starts_with_iff :
    (p q : VfsPath)
    → (starts_with p q ≡ true) ↔ ((rest : List Text) × (p.components ≡ q.components ++ rest))
unfolding starts_with
starts_with_iff p q = (
  λ h. zip_prefix p.components q.components (ground arith) (ground arith),
  λ (rest, e). rw e (ground (arith, prefix_zip q.components rest)),
)

-- Whatever is joined, also `..` and an absolute path, the result lies below the path.
pub starts_with-join : (p : VfsPath) (other : Text) → starts_with (join p other) p ≡ true
unfolding join
starts_with-join p other = (starts_with_iff (join p other) p).1 ((new other).components, refl)

last_cut : (xs : List Text) (n : Text) → get_last? xs ≡ some n → xs ≡ drop_last xs ++ n ∷ []
last_cut [] n h = cc
last_cut (x ∷ []) n h = cc
last_cut (x ∷ y ∷ xs) n h = ap (◌∷◌ x) (last_cut (y ∷ xs) n h)

last_some : (x : Text) (xs : List Text) → (n : Text) × (get_last? (x ∷ xs) ≡ some n)
last_some x [] = (x, refl)
last_some x (y ∷ xs) = last_some y xs

long_last : (xs : List Text) → leb (length xs) 1 ≡ false → (n : Text) × (get_last? xs ≡ some n)
long_last [] h = absurd (ground arith)
long_last (x ∷ xs) h = last_some x xs

-- A path of two components or more has a parent, of the same client: its components with the file
-- name behind them are the path's. Any other path has none.
pub parent_lem :
    (p : VfsPath)
    → ((length p.components ≤ 1) × (parent p ≡ none))
      ⊎ ((q : VfsPath) × (name : Text) × (parent p ≡ some q)
          × (file_name p ≡ some name)
          × (p.components ≡ q.components ++ name ∷ [])
          × (q.client_id ≡ p.client_id))
unfolding parent file_name
parent_lem p = elim (Bool-cases (leb (length p.components) 1)) [
  | inl short ↦ inl (ground arith, ground arith)
  | inr long ↦
      let (name, found) = long_last p.components long in
      inr (
        record {
          client_id = p.client_id;
          components = drop_last p.components;
          original = text_join slash (drop_last p.components);
        },
        name,
        ground arith,
        found,
        last_cut p.components name found,
        refl,
      )
]

-- The extension is what stands behind the last dot of the file name.
pub extension_parts :
    (p : VfsPath) (ext : Text)
    → extension p ≡ some ext
    → (stem : Text) × (file_name p ≡ some (stem ++ (dot ∷ ext))) × (has dot ext ≡ false)
unfolding extension
extension_parts p ext h = elim (Option-cases (file_name p)) [
  | inl absent ↦ absurd (ground arith)
  | inr (name, found) ↦ elim (Option-cases (rsplit_once dot name)) [
    | inl absent ↦ absurd (ground arith)
    | inr ((a, b), cut) ↦
        let (whole, last) = rsplit_once_parts dot name a b cut in
        let same : b ≡ ext = ground arith in (a, ground arith, ground arith)
  ]
]

relative_spelling : (cs : List Text) (s : Text) → IsNormal cs → text_join slash cs ≢ slash ∷ s
relative_spelling cs s h e = cc (join_relative cs h, ap (λ t. text_starts_with t (slash ∷ [])) e)

-- Neither `join` nor `parent` ever gives the path that is read from an absolute text, not even
-- from an absolute path: the text that they store begins with a name, and the text counts when
-- paths are compared.
pub join-ne-absolute :
    (p : VfsPath) (other s : Text)
    → IsNormal p.components
    → (join p other ≢ new (slash ∷ s)) × (parent p ≢ some (new (slash ∷ s)))
unfolding join new parent
join-ne-absolute p other s h = (
  λ e. relative_spelling _ s (join-IsNormal p other h) (ap (λ (q : VfsPath). q.original) e),
  λ e. elim (Bool-cases (leb (length p.components) 1)) [
    | inl short ↦ ground arith
    | inr long ↦
        relative_spelling (drop_last p.components) s (All-drop_last IsName p.components h)
          (ground arith)
  ],
)
