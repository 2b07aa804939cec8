-- ===== src/Lsp/Gateway/Documents.antt =====
-- The documents of an editor over time (crates/vraftls-lsp/src/gateway.rs): what reaches the file
-- system of the gateway, and what reaches a language server.
use vraftls.Prelude.{
  ◌≡◌, refl, sym, inl, inr, ◌∙◌, ap, Option, none, some, List, [], ◌∷◌, Text, arith, Eq, nat_eq,
  Option-cases, Bool-cases, beq_refl, if◌then◌else◌,
}
use mathlib.Core.Option
use mathlib.Core.Path.{subst}
use vraftls.Prelude.Map
use vraftls.Vfs.VfsPath.{VfsPath, path_eq}
use vraftls.Vfs.FileContent.{FileContent, loaded}
use vraftls.Vfs.VfsFile
use vraftls.Vfs.VfsFile.{Env, VfsFile}
use vraftls.Vfs.Store
use vraftls.Vfs.Store.{Vfs, get_file_by_path}
use vraftls.Lsp.Gateway.{
  LspTypes, TextDocumentItem, Notice, LspGateway, uri_to_vfs_path, forward, open_document,
  change_document, close_document, save_document,
}

-- a notification of the editor
pub data Event (l : LspTypes) : Type 0 where
  opening : TextDocumentItem l → Event l
  changing : l.Url → l.Version → l.Changes → Event l
  closing saving : l.Url → Event l

module _ (l : LspTypes) (env : Env) where
  instance abbrev url_key : Eq l.Url
  url_key = l.url_eq

  unfoldable pub handle : Event l → LspGateway l → LspGateway l
  unfolding open_document change_document close_document save_document
  handle (opening doc) = open_document l env doc
  handle (changing uri version changes) = change_document l env uri version changes
  handle (closing uri) = close_document l env uri
  handle (saving uri) = save_document l env uri

  unfoldable pub run : List (Event l) → LspGateway l → LspGateway l
  unfolding handle
  run [] g = g
  run (event ∷ events) g = run events (handle event g)

  -- no document is opened
  abbrev pub NoOpening : List (Event l) → Type 0
  NoOpening [] = Unit
  NoOpening (opening doc ∷ events) = ⊥
  NoOpening (changing uri version changes ∷ events) = NoOpening events
  NoOpening (closing uri ∷ events) = NoOpening events
  NoOpening (saving uri ∷ events) = NoOpening events

  vfs-forward :
      (path : VfsPath) (notice : Notice l) (g : LspGateway l)
      → (forward l env path notice g).vfs ≡ g.vfs
  unfolding forward
  vfs-forward path notice g = ground arith

  -- Changing, closing and saving documents leaves the file system as it is.
  pub vfs-run :
      (events : List (Event l)) (g : LspGateway l) → NoOpening events → (run events g).vfs ≡ g.vfs
  unfolding run handle change_document close_document save_document
  vfs-run [] g h = refl
  vfs-run (opening doc ∷ events) g h = absurd h
  vfs-run (changing uri version changes ∷ events) g h =
      vfs-run events (change_document l env uri version changes g) h
      ∙ (elim (Option-cases (Map.get uri g.open_documents)) [
        | inl p ↦ rw (p, change_document) refl
        | inr (doc, p) ↦ rw (p, change_document) (vfs-forward doc.vfs_path _ _)
      ])
  vfs-run (closing uri ∷ events) g h =
      vfs-run events (close_document l env uri g) h
      ∙ (elim (Option-cases (Map.get uri g.open_documents)) [
        | inl p ↦ rw (p, close_document) refl
        | inr (doc, p) ↦ rw (p, close_document) (vfs-forward doc.vfs_path _ _)
      ])
  vfs-run (saving uri ∷ events) g h =
      vfs-run events (save_document l env uri g) h
      ∙ (elim (Option-cases (Map.get uri g.open_documents)) [
        | inl p ↦ rw (p, save_document) refl
        | inr (doc, p) ↦ rw (p, save_document) (vfs-forward doc.vfs_path _ _)
      ])

  -- the content of the file at a path, none where there is no file
  abbrev pub content_at : VfsPath → Vfs → Option FileContent
  content_at path v = Option.map (λ (f : VfsFile). f.content) (get_file_by_path path v)

  content_at-create_file :
      (path : VfsPath) (text : Text) (v : Vfs)
      → content_at path (Store.create_file env path text v).0
        ≡ (if Map.contains_key path v.path_index then content_at path v else some (loaded text))
  unfolding Store.create_file get_file_by_path VfsFile.new
  content_at-create_file path text v = elim (Bool-cases (Map.contains_key path v.path_index)) [
    | inl taken ↦ rw (taken, Store.create_file) refl
    | inr free ↦
        rw (free, Store.create_file)
          (ground (
            arith,
            Map.get-insert path path v.next_file_id v.path_index,
            Map.get-insert v.next_file_id v.next_file_id
                (VfsFile.new env (env.now v.reads) v.next_file_id path text v.group_id) v.files,
            beq_refl path,
          ))
  ]

  -- However a document is changed, saved and closed after it was opened, the file system of the
  -- gateway has at its path what it had before the opening, or, if it had no file there, the text
  -- with which the document was opened.
  pub content_at-run :
      (doc : TextDocumentItem l) (events : List (Event l)) (path : VfsPath) (g : LspGateway l)
      → NoOpening events
      → uri_to_vfs_path l env doc.uri ≡ some path
      → content_at path (run events (open_document l env doc g)).vfs ≡ (
          if Map.contains_key path g.vfs.path_index
          then content_at path g.vfs
          else some (loaded doc.text))
  unfolding open_document Store.apply
  content_at-run doc events path g h p =
      ap (content_at path) (vfs-run events (open_document l env doc g) h)
      ∙ rw (p, open_document)
          (ap (content_at path) (vfs-forward path _ _) ∙ content_at-create_file path doc.text g.vfs)

  pub open_documents-forward :
      (path : VfsPath) (notice : Notice l) (g : LspGateway l)
      → (forward l env path notice g).open_documents ≡ g.open_documents
  unfolding forward
  open_documents-forward path notice g = ground arith

  pub closed :
      (uri : l.Url) (g : LspGateway l)
      → Map.get uri (close_document l env uri g).open_documents ≡ none
  unfolding close_document
  closed uri g = elim (Option-cases (Map.get uri g.open_documents)) [
    | inl p ↦ rw (p, close_document) p
    | inr (doc, p) ↦
        rw (p, close_document)
          (ap (Map.get uri) (open_documents-forward doc.vfs_path _ _)
            ∙ (ground (arith, Map.get-remove uri uri g.open_documents, beq_refl uri)))
  ]

  -- the events are changes, closings and savings of one document
  abbrev pub OnlyAbout : l.Url → List (Event l) → Type 0
  OnlyAbout uri [] = Unit
  OnlyAbout uri (opening doc ∷ events) = ⊥
  OnlyAbout uri (changing u version changes ∷ events) = (u ≡ uri) × OnlyAbout uri events
  OnlyAbout uri (closing u ∷ events) = (u ≡ uri) × OnlyAbout uri events
  OnlyAbout uri (saving u ∷ events) = (u ≡ uri) × OnlyAbout uri events

  run-not_open :
      (uri : l.Url) (events : List (Event l)) (g : LspGateway l)
      → Map.get uri g.open_documents ≡ none
      → OnlyAbout uri events
      → run events g ≡ g
  unfolding run handle change_document close_document save_document
  run-not_open uri [] g p h = refl
  run-not_open uri (opening doc ∷ events) g p h = absurd h
  run-not_open uri (changing u version changes ∷ events) g p h =
      let q = subst (λ x. Map.get x g.open_documents ≡ none) (sym h.0) p in
      ap (run events) (rw (q, change_document) refl) ∙ run-not_open uri events g p h.1
  run-not_open uri (closing u ∷ events) g p h =
      let q = subst (λ x. Map.get x g.open_documents ≡ none) (sym h.0) p in
      ap (run events) (rw (q, close_document) refl) ∙ run-not_open uri events g p h.1
  run-not_open uri (saving u ∷ events) g p h =
      let q = subst (λ x. Map.get x g.open_documents ≡ none) (sym h.0) p in
      ap (run events) (rw (q, save_document) refl) ∙ run-not_open uri events g p h.1

  -- After a document is closed, nothing about it is forwarded or changed until it is opened again.
  pub run-close_document :
      (uri : l.Url) (events : List (Event l)) (g : LspGateway l)
      → OnlyAbout uri events
      → run events (close_document l env uri g) ≡ close_document l env uri g
  unfolding close_document forward
  run-close_document uri events g h =
      run-not_open uri events (close_document l env uri g) (closed uri g) h
