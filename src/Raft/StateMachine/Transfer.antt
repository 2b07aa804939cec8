-- ===== src/Raft/StateMachine/Transfer.antt =====
-- A snapshot that is built on one node and installed on another
-- (crates/vraftls-raft/src/state_machine.rs).
use mathlib.Core.List.{filter_map}
use mathlib.Core.Option
use vraftls.Prelude.{
  ℕ, ◌+◌, ◌<◌, ◌≡◌, ◌≢◌, refl, ap, ◌∙◌, inl, inr, none, some, [], ◌∷◌, arith, Text, ◌==◌, ==_iff,
  nat_eq, Option-cases, Bool-cases, length,
}
use vraftls.Prelude.Map
use vraftls.Prelude.Map.{Map, IsMap, keys, values}
use vraftls.Core.Types.{u64_mod, FileId, RaftGroupId}
use vraftls.Vfs.FileContent
use vraftls.Vfs.FileContent.{FileContent, loaded, on_disk, remote, not_loaded}
use vraftls.Vfs.VfsPath.{VfsPath, path_eq}
use vraftls.Vfs.VfsFile.{Env, VfsFile}
use vraftls.Vfs.Commands.{VfsResponse, version_mismatch}
use vraftls.Vfs.Store
use vraftls.Vfs.Store.{Vfs, get_file, get_file_by_path, all_file_ids, update_file, write_file}
use vraftls.Vfs.Store.Invariant.{IsValid, IsIntact, new-IsValid}
use vraftls.Raft.Types.{OpenRaft, ok}
use vraftls.Raft.StateMachine.{
  VfsStateMachine, Codec, IsLawful, Snapshot, new, restore_files, snapshot_of, build_snapshot,
  install_snapshot,
}
use vraftls.Raft.StateMachine.Restore.{
  read_at, restored, listed, or_else, restore_files_reads, restore_files-IsValid,
}

-- Every id of the map is found, so the files are the values.
found_values :
    (whole m : Map FileId VfsFile)
    → IsMap m
    → ((id : FileId) (f : VfsFile) → Map.get id m ≡ some f → Map.get id whole ≡ some f)
    → filter_map (λ id. Map.get id whole) (keys m) ≡ values m
unfolding filter_map Map.get
found_values whole [] u inside = refl
found_values whole ((k, f) ∷ m) u inside =
    let here : Map.get k whole ≡ some f = inside k f (ground (arith, ==_iff k k)) in
    let rest = found_values whole m u.1 (λ id g h. inside id g (ground (arith, ==_iff k id))) in
    ground arith

listed_found :
    (p : VfsPath) (id : FileId) (f : VfsFile) (m : Map FileId VfsFile)
    → Map.get id m ≡ some f
    → f.path ≡ p
    → IsMap m
    → ((j : FileId) (g : VfsFile) → Map.get j m ≡ some g → g.path ≡ p → j ≡ id)
    → listed p (values m) ≡ some (loaded (restored f), 0)
unfolding Map.get
listed_found p id f [] h e u only = absurd (cc)
listed_found p id f ((k, g) ∷ m) h e u only = elim (Bool-cases (g.path == p)) [
  | inl here ↦
      let same : k ≡ id = only k g (ground (arith, ==_iff k k)) (ground (arith, ==_iff g.path p)) in
      ground (arith, ==_iff k id)
  | inr other ↦ rw other (
      listed_found p id f m (ground (arith, ==_iff k id, ==_iff g.path p)) e u.1
        (λ j x q r. only j x (ground (arith, ==_iff k j)) r))
]

listed_absent :
    (p : VfsPath) (m : Map FileId VfsFile)
    → IsMap m
    → ((j : FileId) (g : VfsFile) → Map.get j m ≡ some g → g.path ≢ p)
    → listed p (values m) ≡ none
unfolding Map.get
listed_absent p [] u free = refl
listed_absent p ((k, g) ∷ m) u free =
    let other = free k g (ground (arith, ==_iff k k)) in
    let rest = listed_absent p m u.1 (λ j x q. free j x (ground (arith, ==_iff k j))) in
    ground (arith, ==_iff g.path p)

-- The version that a restored file has.
abbrev pub reset : FileContent × ℕ → FileContent × ℕ
reset (content, version) = (content, 0)

intact_restored :
    (env : Env) (c : FileContent) (checksum : ℕ)
    → IsIntact env c checksum
    → c ≡ loaded (Option.get_or (FileContent.as_str c) [])
unfolding FileContent.as_str
intact_restored env (loaded s) checksum h = refl
intact_restored env (on_disk s) checksum h = absurd h
intact_restored env (remote node offset length) checksum h = absurd h
intact_restored env not_loaded checksum h = absurd h

module _ (env : Env) (v : Vfs) (h : IsValid env v) where
  listed_reads : (p : VfsPath) → listed p (values v.files) ≡ Option.map reset (read_at p v)
  unfolding get_file_by_path
  listed_reads p = elim (Option-cases (Map.get p v.path_index)) [
    | inl absent ↦
        let none_listed =
          listed_absent p v.files h.files_map (λ j g q r. ground (arith, h.indexed j p)) in
        ground arith
    | inr (id, present) ↦ elim (Option-cases (Map.get id v.files)) [
      | inl gone ↦ absurd (ground (arith, h.backed id p))
      | inr (f, found) ↦
          let same : f.path ≡ p = ground (arith, h.backed id p) in
          let one =
            listed_found p id f v.files found same h.files_map
              (λ j g q r. ground (arith, h.indexed j p)) in
          let whole = intact_restored env f.content f.checksum (h.stored id f found).intact in
          ground arith
    ]
  ]

  snapshot_files :
      (o : OpenRaft) (sm : VfsStateMachine o)
      → sm.vfs ≡ v
      → (snapshot_of o sm).files ≡ values v.files
  unfolding snapshot_of
  snapshot_files o sm e = rw e (found_values v.files v.files h.files_map (λ id f q. q))

length-values : (m : Map FileId VfsFile) → length (values m) ≡ length m
length-values [] = refl
length-values (x ∷ m) = omega (arith, length-values m)

read_new : (p : VfsPath) (group : RaftGroupId) → read_at p (Store.new group) ≡ none
unfolding Store.new get_file_by_path Map.get
read_new p group = refl

next_new : (group : RaftGroupId) → (Store.new group).next_file_id ≡ 1
unfolding Store.new
next_new group = refl

restored_reads :
    (o : OpenRaft) (env env' : Env) (sm : VfsStateMachine o) (group : RaftGroupId)
    → IsValid env sm.vfs
    → 1 + length sm.vfs.files < u64_mod
    → (p : VfsPath)
    → read_at p (restore_files o env' (snapshot_of o sm).files (Store.new group))
      ≡ Option.map reset (read_at p sm.vfs)
restored_reads o env env' sm group h room p =
    let fs = values sm.vfs.files in
    let room' : (Store.new group).next_file_id + length fs < u64_mod =
      omega (arith, next_new group, length-values sm.vfs.files) in
    rw (snapshot_files env sm.vfs h o sm refl) (
      restore_files_reads o env' fs p (Store.new group) room' (new-IsValid env' group)
      ∙ ap (λ r. or_else r (listed p fs)) (read_new p group)
      ∙ listed_reads env sm.vfs h p)

restored-IsValid :
    (o : OpenRaft) (env env' : Env) (sm : VfsStateMachine o) (group : RaftGroupId)
    → IsValid env sm.vfs
    → 1 + length sm.vfs.files < u64_mod
    → IsValid env' (restore_files o env' (snapshot_of o sm).files (Store.new group))
restored-IsValid o env env' sm group h room =
    let fs = values sm.vfs.files in
    let room' : (Store.new group).next_file_id + length fs < u64_mod =
      omega (arith, next_new group, length-values sm.vfs.files) in
    rw (snapshot_files env sm.vfs h o sm refl)
      (restore_files-IsValid o env' fs (Store.new group) room' (new-IsValid env' group))

module _ (env : Env) (v : Vfs) (h : IsValid env v) (p : VfsPath) (f : VfsFile) (text : Text) where
  own_id : get_file_by_path p v ≡ some f → Map.get f.id v.files ≡ some f
  unfolding get_file_by_path
  own_id found = elim (Option-cases (Map.get p v.path_index)) [
    | inl absent ↦ absurd (ground arith)
    | inr (id, present) ↦
        let there : Map.get id v.files ≡ some f = ground arith in
        ground (arith, (h.stored id f there).named)
  ]

  update_own :
      get_file_by_path p v ≡ some f
      → (update_file env f.id text (some f.version) v).1 ≡ VfsResponse.ok (some f.id)
  unfolding update_file write_file
  update_own found = ground (arith, own_id found)

  update_stale :
      (n : ℕ)
      → get_file_by_path p v ≡ some f
      → f.version ≡ 0
      → n ≢ 0
      → update_file env f.id text (some n) v ≡ (v, VfsResponse.error (version_mismatch n 0))
  unfolding update_file
  update_stale n found zero other = ground (arith, own_id found)

module _ (o : OpenRaft) (codec : Codec o) (lawful : IsLawful o codec) (env env' : Env) where
  -- A snapshot of a valid node, installed on a new one, installs, and brings the log position, the
  -- membership and, at every path, the same content, in a valid file system; every version starts
  -- again at 0.
  pub install-build :
      (sm : VfsStateMachine o) (now : Text) (s : Snapshot o) (group : RaftGroupId)
      → IsValid env sm.vfs
      → 1 + length sm.vfs.files < u64_mod
      → build_snapshot o codec now sm ≡ ok s
      → (sm' : VfsStateMachine o) × (install_snapshot o codec env' s.meta s.snapshot (new o group)
          ≡ ok sm')
        × (sm'.last_applied_log ≡ sm.last_applied_log)
        × (sm'.membership ≡ sm.membership)
        × IsValid env' sm'.vfs
        × ((p : VfsPath) → read_at p sm'.vfs ≡ Option.map reset (read_at p sm.vfs))
  unfolding build_snapshot install_snapshot new
  install-build sm now s group h room built =
      elim (Option-cases (codec.to_vec (snapshot_of o sm))) [
        | inl failed ↦ absurd (ground arith)
        | inr (bytes, written) ↦
            let same : bytes ≡ s.snapshot = ground arith in
            let back = lawful (snapshot_of o sm) bytes written in
            (
              record (new o group) {
                vfs = restore_files o env' (snapshot_of o sm).files (Store.new group);
                last_applied_log = sm.last_applied_log;
                membership = sm.membership;
              },
              rw (← same) (rw (back, install_snapshot)),
              refl,
              refl,
              restored-IsValid o env env' sm group h room,
              restored_reads o env env' sm group h room,
            )
      ]

  -- A client writes by the version that it read, which was not 0. The node that built the snapshot
  -- takes the write; a node that installed it refuses the same write of the same file, and changes
  -- nothing.
  pub install-forgets_version :
      (sm sm' : VfsStateMachine o) (now text : Text) (s : Snapshot o) (group : RaftGroupId)
      (p : VfsPath) (f g : VfsFile)
      → IsValid env sm.vfs
      → 1 + length sm.vfs.files < u64_mod
      → build_snapshot o codec now sm ≡ ok s
      → install_snapshot o codec env' s.meta s.snapshot (new o group) ≡ ok sm'
      → get_file_by_path p sm.vfs ≡ some f
      → f.version ≢ 0
      → get_file_by_path p sm'.vfs ≡ some g
      → ((update_file env f.id text (some f.version) sm.vfs).1 ≡ VfsResponse.ok (some f.id))
        × (update_file env' g.id text (some f.version) sm'.vfs
            ≡ (sm'.vfs, VfsResponse.error (version_mismatch f.version 0)))
  install-forgets_version sm sm' now text s group p f g h room built installed found old there =
      let (sm'', same, _, _, valid, reads) = install-build sm now s group h room built in
      let one : sm'.vfs ≡ sm''.vfs = ground arith in
      let again : read_at p sm'.vfs ≡ some (f.content, 0) = ground (arith, reads p) in
      (
        update_own env sm.vfs h p f text found,
        update_stale env' sm'.vfs (rw one valid) p g text f.version there (ground arith) old,
      )
