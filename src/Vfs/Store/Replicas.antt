-- ===== src/Vfs/Store/Replicas.antt =====
-- Replicas of a `Vfs` (crates/vraftls-vfs/src/vfs.rs) that run the same commands, each by its own
-- clock.
use mathlib.Core.List.{map-append}
use mathlib.Core.Option
use vraftls.Prelude.{
  ℕ, ◌≡◌, refl, ap, Option, none, some, ◌⊎◌, inl, inr, List, [], ◌∷◌, ◌++◌, ◌+◌, map, arith, nat_eq,
  Text, Option-cases,
}
use vraftls.Prelude.Map
use vraftls.Prelude.Map.{map_values, get-map_values, map_values-insert, map_values-remove}
use vraftls.Core.Types.{FileId, initial_version}
use vraftls.Vfs.VfsPath.{VfsPath, path_eq}
use vraftls.Vfs.VfsFile
use vraftls.Vfs.VfsFile.{
  Env, VfsFile, FileChangeEvent, change_event, created, modified, deleted, renamed, update_content,
}
use vraftls.Vfs.Commands.{BatchWriteOp, VfsCommand, VfsResponse}
use vraftls.Vfs.Store.{
  Vfs, create_file, write_file, update_file, delete_file, rename_file, create_result, update_result,
  delete_result, batch_op, batch_ops, batch_write, apply,
}

abbrev pub timeless_file : VfsFile → VfsFile
timeless_file f = record f { last_modified = 0 }

abbrev pub timeless_event : FileChangeEvent → FileChangeEvent
timeless_event x = record x { timestamp = 0 }

-- The same files, index, ids and events, but for the timestamps.
pub record SameData (v w : Vfs) : Type 0 where
  pub files : map_values timeless_file v.files ≡ map_values timeless_file w.files
  pub path_index : v.path_index ≡ w.path_index
  pub next_file_id : v.next_file_id ≡ w.next_file_id
  pub group_id : v.group_id ≡ w.group_id
  pub sent : map timeless_event v.sent ≡ map timeless_event w.sent

sent_concat :
    (xs ys : List FileChangeEvent) (x y : FileChangeEvent)
    → map timeless_event xs ≡ map timeless_event ys
    → timeless_event x ≡ timeless_event y
    → map timeless_event (xs ++ x ∷ []) ≡ map timeless_event (ys ++ y ∷ [])
sent_concat xs ys x y h e = simp map-append (cc (h, e))

module _ (env env' : Env) (hash : env.hash ≡ env'.hash) (v w : Vfs) (h : SameData v w) where
  same_hash : (content : Text) → env.hash content ≡ env'.hash content
  same_hash content = ap (λ (f : Text → ℕ). f content) hash

  same_get :
      (id : FileId)
      → Option.map timeless_file (Map.get id v.files)
        ≡ Option.map timeless_file (Map.get id w.files)
  same_get id =
      cc (get-map_values timeless_file id v.files, get-map_values timeless_file id w.files, h.files)

  same_cases :
      (id : FileId)
      → (Map.get id v.files ≡ none) × (Map.get id w.files ≡ none)
        ⊎ ((f : VfsFile) × (g : VfsFile) × (Map.get id v.files ≡ some f)
            × (Map.get id w.files ≡ some g)
            × (timeless_file f ≡ timeless_file g))
  same_cases id = elim (Option-cases (Map.get id v.files)) [
    | inl p ↦ inl (p, ground (arith, same_get id))
    | inr (f, p) ↦ elim (Option-cases (Map.get id w.files)) [
      | inl q ↦ absurd (ground (arith, same_get id))
      | inr (g, q) ↦ inr (f, g, p, q, ground (arith, same_get id))
    ]
  ]

  create_file-SameData :
      (path : VfsPath) (content : Text)
      → SameData (create_file env path content v).0 (create_file env' path content w).0
        × ((create_file env path content v).1 ≡ (create_file env' path content w).1)
  unfolding create_file
  create_file-SameData path content =
      let f = VfsFile.new env (env.now v.reads) v.next_file_id path content v.group_id in
      let g = VfsFile.new env' (env'.now w.reads) w.next_file_id path content w.group_id in
      let at_v = change_event created v.next_file_id path initial_version (env.now (v.reads + 1)) in
      let at_w =
        change_event created w.next_file_id path initial_version (env'.now (w.reads + 1)) in
      ground (
        arith,
        map_values-insert timeless_file v.next_file_id f v.files,
        map_values-insert timeless_file w.next_file_id g w.files,
        sent_concat v.sent w.sent at_v at_w,
        same_hash content,
      )

  write_file-SameData :
      (id : FileId) (content : Text) (f g : VfsFile)
      → timeless_file f ≡ timeless_file g
      → SameData (write_file env id content f v).0 (write_file env' id content g w).0
        × ((write_file env id content f v).1 ≡ (write_file env' id content g w).1)
  unfolding write_file
  write_file-SameData id content f g e =
      let f' = update_content env (env.now v.reads) content f in
      let g' = update_content env' (env'.now w.reads) content g in
      ground (
        arith,
        map_values-insert timeless_file id f' v.files,
        map_values-insert timeless_file id g' w.files,
        sent_concat v.sent w.sent
            (change_event modified id f.path f'.version (env.now (v.reads + 1)))
            (change_event modified id g.path g'.version (env'.now (w.reads + 1))),
        same_hash content,
      )

  update_file-SameData :
      (id : FileId) (content : Text) (expected : Option ℕ)
      → SameData
          (update_file env id content expected v).0
          (update_file env' id content expected w).0
        × ((update_file env id content expected v).1 ≡ (update_file env' id content expected w).1)
  unfolding update_file
  update_file-SameData id content none = elim (same_cases id) [
    | inl (p, q) ↦ rw (p, update_file) (rw (q, update_file) (h, refl))
    | inr (f, g, p, q, e) ↦
        rw (p, update_file) (rw (q, update_file) (write_file-SameData id content f g e))
  ]
  update_file-SameData id content (some expected) = elim (same_cases id) [
    | inl (p, q) ↦ rw (p, update_file) (rw (q, update_file) (h, refl))
    | inr (f, g, p, q, e) ↦
        rw (p, update_file)
          (rw (q, update_file) (ground (arith, write_file-SameData id content f g e)))
  ]

  delete_file-SameData :
      (id : FileId)
      → SameData (delete_file env id v).0 (delete_file env' id w).0
        × ((delete_file env id v).1 ≡ (delete_file env' id w).1)
  unfolding delete_file
  delete_file-SameData id = elim (same_cases id) [
    | inl (p, q) ↦ rw (p, delete_file) (rw (q, delete_file) (h, refl))
    | inr (f, g, p, q, e) ↦
        rw (p, delete_file)
          (rw (q, delete_file)
            (ground (
              arith,
              map_values-remove timeless_file id v.files,
              map_values-remove timeless_file id w.files,
              sent_concat v.sent w.sent (change_event deleted id f.path f.version (env.now v.reads))
                  (change_event deleted id g.path g.version (env'.now w.reads)),
            )))
  ]

  rename_file-SameData :
      (id : FileId) (path : VfsPath)
      → SameData (rename_file env id path v).0 (rename_file env' id path w).0
        × ((rename_file env id path v).1 ≡ (rename_file env' id path w).1)
  unfolding rename_file
  rename_file-SameData id path = elim (same_cases id) [
    | inl (p, q) ↦ rw (p, rename_file) (rw (q, rename_file) (ground arith))
    | inr (f, g, p, q, e) ↦
        let f' = record f { path = path; last_modified = env.now v.reads } in
        let g' = record g { path = path; last_modified = env'.now w.reads } in
        rw (p, rename_file)
          (rw (q, rename_file)
            (ground (
              arith,
              map_values-insert timeless_file id f' v.files,
              map_values-insert timeless_file id g' w.files,
              sent_concat v.sent w.sent
                  (change_event renamed id path f.version (env.now (v.reads + 1)))
                  (change_event renamed id path g.version (env'.now (w.reads + 1))),
            )))
  ]

module _ (env env' : Env) (hash : env.hash ≡ env'.hash) where
  batch_op-SameData :
      (op : BatchWriteOp) (v w : Vfs) (h : SameData v w)
      → SameData (batch_op env op v).0 (batch_op env' op w).0
        × ((batch_op env op v).1 ≡ (batch_op env' op w).1)
  unfolding batch_op
  batch_op-SameData (BatchWriteOp.create path content) v w h =
      let (s, r) = create_file-SameData env env' hash v w h path content in (s, ap create_result r)
  batch_op-SameData (BatchWriteOp.update id content) v w h =
      let (s, r) = update_file-SameData env env' hash v w h id content none in
      (s, ap update_result r)
  batch_op-SameData (BatchWriteOp.delete id) v w h =
      let (s, r) = delete_file-SameData env env' hash v w h id in (s, ap delete_result r)

  batch_ops-SameData :
      (ops : List BatchWriteOp) (v w : Vfs) (h : SameData v w)
      → SameData (batch_ops env ops v).0 (batch_ops env' ops w).0
        × ((batch_ops env ops v).1 ≡ (batch_ops env' ops w).1)
  unfolding batch_ops
  batch_ops-SameData [] v w h = (h, refl)
  batch_ops-SameData (op ∷ ops) v w h =
      let (s, r) = batch_op-SameData op v w h in
      let (t, rs) = batch_ops-SameData ops (batch_op env op v).0 (batch_op env' op w).0 s in
      (t, cc (r, rs))

  -- Two replicas that hold the same data, and whose hash functions agree, give the same response
  -- to the same command and hold the same data after it, whatever their clocks show.
  pub apply-SameData :
      (c : VfsCommand) (v w : Vfs) (h : SameData v w)
      → SameData (apply env c v).0 (apply env' c w).0 × ((apply env c v).1 ≡ (apply env' c w).1)
  unfolding apply batch_write
  apply-SameData (VfsCommand.create_file path content) v w h =
      create_file-SameData env env' hash v w h path content
  apply-SameData (VfsCommand.update_file id content expected) v w h =
      update_file-SameData env env' hash v w h id content expected
  apply-SameData (VfsCommand.delete_file id) v w h = delete_file-SameData env env' hash v w h id
  apply-SameData (VfsCommand.rename_file id path) v w h =
      rename_file-SameData env env' hash v w h id path
  apply-SameData (VfsCommand.batch_write operations) v w h =
      let (s, rs) = batch_ops-SameData operations v w h in (s, ap VfsResponse.batch_results rs)
  apply-SameData (VfsCommand.invalidate_cache ids) v w h = (h, refl)
