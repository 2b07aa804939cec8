-- ===== src/Vfs/Store/Invariant.antt =====
-- The invariant of `Vfs` (crates/vraftls-vfs/src/vfs.rs): the two maps are inverse to one another.
pub mod Apply
use vraftls.Prelude.{
  ℕ, ◌+◌, ◌≤◌, ◌<◌, ◌≡◌, ◌≢◌, refl, Bool, true, false, Option, none, some, List, [], ◌∷◌, arith,
  inl, inr, ◌==◌, ==_iff, nat_eq, Text, Bool-cases, Option-cases, if◌then◌else◌,
}
use vraftls.Prelude.Map
use vraftls.Prelude.Map.{
  Map, IsMap, get-insert, get-remove, insert-IsMap, remove-IsMap, get-empty, contains_key-get,
}
use vraftls.Core.Types.{FileId, u64_mod, RaftGroupId}
use vraftls.Vfs.VfsPath.{VfsPath, path_eq}
use vraftls.Vfs.FileContent.{FileContent, loaded}
use vraftls.Vfs.VfsFile
use vraftls.Vfs.VfsFile.{Env, VfsFile, update_content}
use vraftls.Vfs.Commands.{BatchWriteOp, VfsCommand}
use vraftls.Vfs.Store.{
  Vfs, new, create_file, write_file, update_file, delete_file, rename_file, batch_op, batch_ops,
  batch_write, apply,
}

-- The path of the file with an id.
abbrev pub path_of : FileId → Vfs → Option VfsPath
path_of id v = elim (Map.get id v.files) [ none ↦ none | some f ↦ some f.path ]

-- The content is in memory and has the checksum.
abbrev pub IsIntact : Env → FileContent → ℕ → Type 0
IsIntact env (loaded s) checksum = checksum ≡ env.hash s
IsIntact env _ checksum = ⊥

-- What holds of each stored file.
pub record IsStored (env : Env) (v : Vfs) (id : FileId) (f : VfsFile) : Type 0 where
  pub named : f.id ≡ id
  pub issued : id < v.next_file_id
  pub owned : f.owning_group ≡ v.group_id
  pub intact : IsIntact env f.content f.checksum

pub record IsValid (env : Env) (v : Vfs) : Type 0 where
  pub files_map : IsMap v.files
  pub index_map : IsMap v.path_index
  pub stored : (id : FileId) (f : VfsFile) → Map.get id v.files ≡ some f → IsStored env v id f
  pub indexed :
      (id : FileId) (p : VfsPath) → path_of id v ≡ some p → Map.get p v.path_index ≡ some id
  pub backed :
      (id : FileId) (p : VfsPath) → Map.get p v.path_index ≡ some id → path_of id v ≡ some p

module _ (env : Env) where
  pub new-IsValid : (group_id : RaftGroupId) → IsValid env (new group_id)
  unfolding new Map.get
  new-IsValid group_id = record {
    files_map = tt;
    index_map = tt;
    stored = λ id f h. cc;
    indexed = λ id p h. cc;
    backed = λ id p h. cc;
  }

  -- The next id is not in use.
  pub next_file_id_fresh : (v : Vfs) → IsValid env v → Map.get v.next_file_id v.files ≡ none
  next_file_id_fresh v h = elim (Option-cases (Map.get v.next_file_id v.files)) [
    | inl absent ↦ absent
    | inr (f, found) ↦ absurd (omega (arith, (h.stored v.next_file_id f found).issued))
  ]

  pub create_file-IsValid :
      (path : VfsPath) (content : Text) (v : Vfs)
      → v.next_file_id + 1 < u64_mod
      → IsValid env v
      → IsValid env (create_file env path content v).0
  unfolding create_file
  create_file-IsValid path content v room h =
      elim (Bool-cases (Map.contains_key path v.path_index)) [
        | inl taken ↦ rw taken h
        | inr free ↦ rw free (
            let file = VfsFile.new env (env.now v.reads) v.next_file_id path content v.group_id in
            let unused = next_file_id_fresh v h in
            let unindexed = (contains_key-get path v.path_index).0 free in
            record {
              files_map = insert-IsMap _ _ v.files h.files_map;
              index_map = insert-IsMap _ _ v.path_index h.index_map;
              stored =
                  λ id f. ground (arith, get-insert v.next_file_id id file v.files, h.stored id f);
              indexed = λ id p. ground (
                arith,
                get-insert v.next_file_id id file v.files,
                get-insert path p v.next_file_id v.path_index,
                h.indexed id p,
                ==_iff path p,
              );
              backed = λ id p. ground (
                arith,
                get-insert v.next_file_id id file v.files,
                get-insert path p v.next_file_id v.path_index,
                h.backed id p,
                ==_iff path p,
              );
            })
      ]

  pub write_file-IsValid :
      (id : FileId) (content : Text) (old : VfsFile) (v : Vfs)
      → Map.get id v.files ≡ some old
      → IsValid env v
      → IsValid env (write_file env id content old v).0
  unfolding write_file
  write_file-IsValid id content old v found h =
      let file = update_content env (env.now v.reads) content old in
      record {
        files_map = insert-IsMap _ _ v.files h.files_map;
        index_map = h.index_map;
        stored = λ j f. ground (arith, get-insert id j file v.files, h.stored j f, h.stored id old);
        indexed = λ j p. ground (arith, get-insert id j file v.files, h.indexed j p);
        backed = λ j p. ground (arith, get-insert id j file v.files, h.backed j p);
      }

  pub update_file-IsValid :
      (id : FileId) (content : Text) (expected : Option ℕ) (v : Vfs)
      → IsValid env v
      → IsValid env (update_file env id content expected v).0
  unfolding update_file
  update_file-IsValid id content none v h = elim (Option-cases (Map.get id v.files)) [
    | inl absent ↦ rw (absent, update_file) h
    | inr (old, found) ↦ rw (found, update_file) (write_file-IsValid id content old v found h)
  ]
  update_file-IsValid id content (some expected) v h = elim (Option-cases (Map.get id v.files)) [
    | inl absent ↦ rw (absent, update_file) h
    | inr (old, found) ↦ elim (Bool-cases (old.version == expected)) [
      | inl same ↦ rw (found, update_file) (rw same (write_file-IsValid id content old v found h))
      | inr other ↦ rw (found, update_file) (rw other h)
    ]
  ]

  pub delete_file-IsValid :
      (id : FileId) (v : Vfs) → IsValid env v → IsValid env (delete_file env id v).0
  unfolding delete_file
  delete_file-IsValid id v h = elim (Option-cases (Map.get id v.files)) [
    | inl absent ↦ rw (absent, delete_file) h
    | inr (old, found) ↦
        rw (found, delete_file)
          (record {
            files_map = remove-IsMap id v.files h.files_map;
            index_map = remove-IsMap old.path v.path_index h.index_map;
            stored = λ j f. ground (arith, get-remove id j v.files, h.stored j f);
            indexed = λ j p. ground (
              arith,
              get-remove id j v.files,
              get-remove old.path p v.path_index,
              h.indexed j p,
              h.indexed id p,
              ==_iff old.path p,
            );
            backed = λ j p. ground (
              arith,
              get-remove id j v.files,
              get-remove old.path p v.path_index,
              h.backed j p,
              ==_iff old.path p,
            );
          })
  ]

  pub rename_file-IsValid :
      (id : FileId) (path : VfsPath) (v : Vfs)
      → IsValid env v
      → IsValid env (rename_file env id path v).0
  unfolding rename_file
  rename_file-IsValid id path v h = elim (Bool-cases (Map.contains_key path v.path_index)) [
    | inl taken ↦ rw taken h
    | inr free ↦ rw free (elim (Option-cases (Map.get id v.files)) [
      | inl absent ↦ rw (absent, rename_file) h
      | inr (old, found) ↦
          rw (found, rename_file)
            (let moved = record old { path = path; last_modified = env.now v.reads } in
              let rest = Map.remove old.path v.path_index in
              let unindexed = (contains_key-get path v.path_index).0 free in
              record {
                files_map = insert-IsMap _ _ v.files h.files_map;
                index_map = insert-IsMap _ _ rest (remove-IsMap old.path v.path_index h.index_map);
                stored = λ j f.
                    ground (arith, get-insert id j moved v.files, h.stored j f, h.stored id old);
                indexed = λ j p. ground (
                  arith,
                  get-insert id j moved v.files,
                  get-insert path p id rest,
                  get-remove old.path p v.path_index,
                  h.indexed j p,
                  h.indexed id p,
                  ==_iff old.path p,
                  ==_iff path p,
                );
                backed = λ j p. ground (
                  arith,
                  get-insert id j moved v.files,
                  get-insert path p id rest,
                  get-remove old.path p v.path_index,
                  h.backed j p,
                  ==_iff old.path p,
                  ==_iff path p,
                );
              })
    ])
  ]
