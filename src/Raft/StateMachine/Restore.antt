-- ===== src/Raft/StateMachine/Restore.antt =====
-- What a snapshot carries over (crates/vraftls-raft/src/state_machine.rs): `build_snapshot` on one
-- node and `install_snapshot` on another.
use mathlib.Core.Option
use vraftls.Prelude.{
  ℕ, ◌+◌, ◌<◌, ◌≤◌, ◌≡◌, inl, inr, Option, none, some, List, [], ◌∷◌, arith, Text, ◌==◌, ==_iff,
  nat_eq, Option-cases, length, if◌then◌else◌,
}
use vraftls.Prelude.Map
use vraftls.Prelude.Map.{Map, IsMap, get-insert, contains_key-get}
use vraftls.Core.Types.{u64_mod}
use vraftls.Vfs.FileContent
use vraftls.Vfs.FileContent.{FileContent, loaded}
use vraftls.Vfs.VfsPath.{VfsPath, path_eq}
use vraftls.Vfs.VfsFile
use vraftls.Vfs.VfsFile.{Env, VfsFile}
use vraftls.Vfs.Store
use vraftls.Vfs.Store.{Vfs, create_file, get_file_by_path}
use vraftls.Vfs.Store.Invariant.{IsValid, create_file-IsValid}
use vraftls.Raft.Types.{OpenRaft}
use vraftls.Raft.StateMachine.{restore_files}

-- What a client reads at a path: the content of the file and its version.
abbrev pub read_at : VfsPath → Vfs → Option (FileContent × ℕ)
read_at p v = elim (get_file_by_path p v) [ none ↦ none | some f ↦ some (f.content, f.version) ]

-- The content that is restored for a file.
abbrev pub restored : VfsFile → Text
restored f = Option.get_or (FileContent.as_str f.content) []

-- the first file of a snapshot under a path, as a new file
abbrev pub listed : VfsPath → List VfsFile → Option (FileContent × ℕ)
listed p [] = none
listed p (f ∷ fs) = if f.path == p then some (loaded (restored f), 0) else listed p fs

abbrev pub or_else {ℓ} : {A : Type ℓ} → Option A → Option A → Option A
or_else (some a) b = some a
or_else none b = b

module _ (o : OpenRaft) (env : Env) where
  create_file_reads :
      (q p : VfsPath) (content : Text) (v : Vfs)
      → IsValid env v
      → read_at p (create_file env q content v).0
        ≡ or_else (read_at p v) (if q == p then some (loaded content, 0) else none)
  unfolding create_file get_file_by_path
  create_file_reads q p content v h =
      let f = VfsFile.new env (env.now v.reads) v.next_file_id q content v.group_id in
      let id = v.next_file_id in
      elim (Option-cases (Map.get p v.path_index)) [
        | inl absent ↦ ground (
          arith,
          get-insert q p id v.path_index,
          get-insert id id f v.files,
          ==_iff q p,
          contains_key-get q v.path_index,
        )
        | inr (j, present) ↦ elim (Option-cases (Map.get j v.files)) [
          | inl gone ↦ absurd (ground (arith, h.backed j p))
          | inr (g, found) ↦ ground (
            arith,
            get-insert q p id v.path_index,
            get-insert id j f v.files,
            ==_iff q p,
            contains_key-get q v.path_index,
            (h.stored j g found).issued,
          )
        ]
      ]

  create_file_next :
      (q : VfsPath) (content : Text) (v : Vfs)
      → v.next_file_id + 1 < u64_mod
      → (create_file env q content v).0.next_file_id ≤ v.next_file_id + 1
  unfolding create_file
  create_file_next q content v room = ground arith

  -- The files are created one after the other; a path that is there already keeps what it has.
  pub restore_files_reads :
      (fs : List VfsFile) (p : VfsPath) (v : Vfs)
      → v.next_file_id + length fs < u64_mod
      → IsValid env v
      → read_at p (restore_files o env fs v) ≡ or_else (read_at p v) (listed p fs)
  unfolding restore_files Store.apply
  restore_files_reads [] p v room h = ground arith
  restore_files_reads (f ∷ fs) p v room h =
      let used = create_file_next f.path (restored f) v (omega arith) in
      let v' = (create_file env f.path (restored f) v).0 in
      ground (
        arith,
        restore_files_reads fs p v' (omega arith)
            (create_file-IsValid env f.path (restored f) v (omega arith) h),
        create_file_reads f.path p (restored f) v h,
      )

  pub restore_files-IsValid :
      (fs : List VfsFile) (v : Vfs)
      → v.next_file_id + length fs < u64_mod
      → IsValid env v
      → IsValid env (restore_files o env fs v)
  unfolding restore_files Store.apply
  restore_files-IsValid [] v room h = h
  restore_files-IsValid (f ∷ fs) v room h =
      let used = create_file_next f.path (restored f) v (omega arith) in
      restore_files-IsValid fs (create_file env f.path (restored f) v).0 (omega arith)
        (create_file-IsValid env f.path (restored f) v (omega arith) h)
