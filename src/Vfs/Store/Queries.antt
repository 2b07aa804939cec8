-- ===== src/Vfs/Store/Queries.antt =====
-- What the queries of `Vfs` (crates/vraftls-vfs/src/vfs.rs) answer on a valid file system.
use vraftls.Prelude.{
  ◌≡◌, ◌↔◌, inl, inr, true, some, Memᴰ, arith, nat_eq, Text, mem-filter, contains, Option-cases,
}
use vraftls.Prelude.Map
use vraftls.Prelude.Map.{mem-values}
use vraftls.Core.Types.{FileId}
use vraftls.Vfs.VfsPath.{VfsPath, path_eq, starts_with, as_str}
use vraftls.Vfs.VfsFile.{Env, VfsFile}
use vraftls.Vfs.Store.{Vfs, get_file, get_file_by_path, list_directory, find_files}
use vraftls.Vfs.Store.Invariant.{IsValid}

module _ (env : Env) (v : Vfs) (h : IsValid env v) where
  found_by_path :
      (p : VfsPath) (f : VfsFile)
      → get_file_by_path p v ≡ some f
      → (id : FileId) × (get_file id v ≡ some f) × (f.path ≡ p)
  unfolding get_file get_file_by_path
  found_by_path p f q = elim (Option-cases (Map.get p v.path_index)) [
    | inl absent ↦ absurd (ground arith)
    | inr (id, present) ↦ (id, ground arith, ground (arith, h.backed id p))
  ]

  -- A look-up by path finds a file exactly if some id holds that file under that path.
  pub get_file_by_path_iff :
      (p : VfsPath) (f : VfsFile)
      → (get_file_by_path p v ≡ some f) ↔ ((id : FileId) × (get_file id v ≡ some f) × (f.path ≡ p))
  unfolding get_file get_file_by_path
  get_file_by_path_iff p f = (found_by_path p f, λ (id, found, e). ground (arith, h.indexed id p))

  -- Two files never share a path.
  pub path_unique :
      (i j : FileId) (f g : VfsFile)
      → get_file i v ≡ some f
      → get_file j v ≡ some g
      → f.path ≡ g.path
      → i ≡ j
  unfolding get_file
  path_unique i j f g at_i at_j same = ground (arith, h.indexed i f.path, h.indexed j f.path)

  -- A directory lists exactly the stored files whose path starts with it.
  pub mem-list_directory :
      (p : VfsPath) (f : VfsFile)
      → Memᴰ f (list_directory p v)
        ↔ ((id : FileId) × (get_file id v ≡ some f) × (starts_with f.path p ≡ true))
  unfolding get_file list_directory
  mem-list_directory p f = (
    λ m.
        let (listed, passes) =
          (mem-filter (λ g. starts_with g.path p) f (Map.values v.files)).0 m in
        let (id, found) = (mem-values f v.files h.files_map).0 listed in (id, found, passes),
    λ (id, found, passes).
        (mem-filter (λ g. starts_with g.path p) f (Map.values v.files)).1
          ((mem-values f v.files h.files_map).1 (id, found), passes),
  )

  -- A search lists exactly the stored files whose path, as it was written, holds the pattern.
  pub mem-find_files :
      (pattern : Text) (f : VfsFile)
      → Memᴰ f (find_files pattern v)
        ↔ ((id : FileId) × (get_file id v ≡ some f) × (contains (as_str f.path) pattern ≡ true))
  unfolding get_file find_files
  mem-find_files pattern f = (
    λ m.
        let (listed, passes) =
          (mem-filter (λ g. contains (as_str g.path) pattern) f (Map.values v.files)).0 m in
        let (id, found) = (mem-values f v.files h.files_map).0 listed in (id, found, passes),
    λ (id, found, passes).
        (mem-filter (λ g. contains (as_str g.path) pattern) f (Map.values v.files)).1
          ((mem-values f v.files h.files_map).1 (id, found), passes),
  )
