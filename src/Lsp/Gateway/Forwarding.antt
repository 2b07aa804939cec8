-- ===== src/Lsp/Gateway/Forwarding.antt =====
-- What reaches the language server about a document while it is open, whatever the editor does with
-- other documents meanwhile (crates/vraftls-lsp/src/gateway.rs).
use mathlib.Core.List.{append-nil, append_assoc}
use mathlib.Core.Path.{subst}
use vraftls.Prelude.{
  true, false, Bool-cases, Option-cases, inl, inr, ◌==◌, ==_iff, if◌then◌else◌, ◌≡◌, ◌≢◌, refl, sym,
  ◌∙◌, ap, some, List, [], ◌∷◌, ◌++◌, arith, Eq,
}
use vraftls.Prelude.Map
use vraftls.Core.Types.{LanguageId}
use vraftls.Vfs.VfsPath.{VfsPath, language_id}
use vraftls.Vfs.VfsFile.{Env}
use vraftls.Vfs.Store
use vraftls.Lsp.Gateway.{
  LspTypes, DocumentState, Notice, LspGateway, did_open, did_change, did_close, did_save,
  uri_to_vfs_path, forward, open_document, change_document, close_document, save_document,
}
use vraftls.Lsp.Gateway.Documents.{
  Event, opening, changing, closing, saving, handle, run, open_documents-forward,
}

module _ (l : LspTypes) (env : Env) where
  instance abbrev url_key : Eq l.Url
  url_key = l.url_eq

  -- an event does not open or close the document
  abbrev pub Keeps : l.Url → Event l → Type 0
  Keeps uri (opening doc) = doc.uri ≢ uri
  Keeps uri (changing u version changes) = Unit
  Keeps uri (closing u) = u ≢ uri
  Keeps uri (saving u) = Unit

  abbrev pub StaysOpen : l.Url → List (Event l) → Type 0
  StaysOpen uri [] = Unit
  StaysOpen uri (event ∷ events) = Keeps uri event × StaysOpen uri events

  -- what the server is to be sent of an event about the document, and of all of them
  abbrev pub told : l.Url → LanguageId → Event l → List (LanguageId × Notice l)
  told uri language (opening doc) = []
  told uri language (changing u version changes) =
      if u == uri then (language, did_change u version changes) ∷ [] else []
  told uri language (closing u) = []
  told uri language (saving u) = if u == uri then (language, did_save u) ∷ [] else []

  abbrev pub notices : l.Url → LanguageId → List (Event l) → List (LanguageId × Notice l)
  notices uri language [] = []
  notices uri language (event ∷ events) = told uri language event ++ notices uri language events

  -- the document that a notice is about, and the notices about one
  abbrev pub subject : Notice l → l.Url
  subject (did_open doc) = doc.uri
  subject (did_change u version changes) = u
  subject (did_close u) = u
  subject (did_save u) = u

  abbrev pub about : l.Url → List (LanguageId × Notice l) → List (LanguageId × Notice l)
  about uri [] = []
  about uri (n ∷ ns) = if subject n.1 == uri then n ∷ about uri ns else about uri ns

  about-append :
      (uri : l.Url) (xs ys : List (LanguageId × Notice l))
      → about uri (xs ++ ys) ≡ about uri xs ++ about uri ys
  about-append uri [] ys = refl
  about-append uri (x ∷ xs) ys = ground (arith, about-append uri xs ys)

  forwarded-forward :
      (path : VfsPath) (language : LanguageId) (notice : Notice l) (g : LspGateway l)
      → language_id path ≡ some language
      → l.serves language ≡ true
      → (forward l env path notice g).forwarded ≡ g.forwarded ++ (language, notice) ∷ []
  unfolding forward
  forwarded-forward path language notice g p q = rw (p, q, forward) refl

  about-forward :
      (uri : l.Url) (path : VfsPath) (language : LanguageId) (notice : Notice l) (g : LspGateway l)
      → (subject notice == uri) ≡ true
      → language_id path ≡ some language
      → l.serves language ≡ true
      → about uri (forward l env path notice g).forwarded
        ≡ about uri g.forwarded ++ (language, notice) ∷ []
  about-forward uri path language notice g e p q =
      ap (about uri) (forwarded-forward path language notice g p q)
      ∙ about-append uri g.forwarded ((language, notice) ∷ [])
      ∙ (rw (e) refl)

  about-forward_other :
      (uri : l.Url) (path : VfsPath) (notice : Notice l) (g : LspGateway l)
      → (subject notice == uri) ≡ false
      → about uri (forward l env path notice g).forwarded ≡ about uri g.forwarded
  unfolding forward
  about-forward_other uri path notice g e = elim (Option-cases (language_id path)) [
    | inl p ↦ rw (p, forward) refl
    | inr (language, p) ↦ elim (Bool-cases (l.serves language)) [
      | inl q ↦
          ap (about uri) (forwarded-forward path language notice g p q)
          ∙ about-append uri g.forwarded ((language, notice) ∷ [])
          ∙ (rw (e) (append-nil (about uri g.forwarded)))
      | inr q ↦ rw (p, q, forward) refl
    ]
  ]

  insert_other :
      (u uri : l.Url) (doc : DocumentState l) (docs : Map.Map l.Url (DocumentState l))
      → u ≢ uri
      → Map.get uri (Map.insert u doc docs) ≡ Map.get uri docs
  insert_other u uri doc docs h = ground (arith, h, ==_iff u uri, Map.get-insert u uri doc docs)

  -- One event that keeps a document open leaves it open at its path.
  handle-open :
      (uri : l.Url) (event : Event l) (doc : DocumentState l) (g : LspGateway l)
      → Map.get uri g.open_documents ≡ some doc
      → Keeps uri event
      → (later : DocumentState l) × (Map.get uri (handle l env event g).open_documents ≡ some later)
        × (later.vfs_path ≡ doc.vfs_path)
  unfolding handle open_document change_document close_document save_document Store.apply
  handle-open uri (opening new) doc g at h = elim (Option-cases (uri_to_vfs_path l env new.uri)) [
    | inl p ↦ (doc, rw (p, open_document) at, refl)
    | inr (path, p) ↦ (
      doc,
      rw (p, open_document)
          (ap (Map.get uri) (open_documents-forward l env path _ _)
            ∙ insert_other new.uri uri _ g.open_documents h
            ∙ at),
      refl,
    )
  ]
  handle-open uri (changing u version changes) doc g at h =
      elim (Option-cases (Map.get u g.open_documents)) [
        | inl p ↦ (doc, rw (p, change_document) at, refl)
        | inr (old, p) ↦
            let changed : DocumentState l = record old { version = version } in
            let docs = Map.insert u changed g.open_documents in
            elim (Bool-cases (u == uri)) [
              | inl e ↦ (
                changed,
                rw (p, change_document)
                    (ap (Map.get uri) (open_documents-forward l env old.vfs_path _ _)
                      ∙ (ground (arith, e, Map.get-insert u uri changed g.open_documents))),
                ground (arith, at, p, ap (λ x. Map.get x g.open_documents) ((==_iff u uri).0 e)),
              )
              | inr e ↦ (
                doc,
                rw (p, change_document)
                    (ap (Map.get uri) (open_documents-forward l env old.vfs_path _ _)
                      ∙ (ground (arith, e, at, Map.get-insert u uri changed g.open_documents))),
                refl,
              )
            ]
      ]
  handle-open uri (closing u) doc g at h = elim (Option-cases (Map.get u g.open_documents)) [
    | inl p ↦ (doc, rw (p, close_document) at, refl)
    | inr (old, p) ↦ (
      doc,
      rw (p, close_document)
          (ap (Map.get uri) (open_documents-forward l env old.vfs_path _ _)
            ∙ (ground (arith, h, at, ==_iff u uri, Map.get-remove u uri g.open_documents))),
      refl,
    )
  ]
  handle-open uri (saving u) doc g at h = elim (Option-cases (Map.get u g.open_documents)) [
    | inl p ↦ (doc, rw (p, save_document) at, refl)
    | inr (old, p) ↦ (
      doc,
      rw (p, save_document) (ap (Map.get uri) (open_documents-forward l env old.vfs_path _ _) ∙ at),
      refl,
    )
  ]

  -- The server of an open document is sent of one event what is about the document.
  about-handle :
      (uri : l.Url) (event : Event l) (doc : DocumentState l) (language : LanguageId)
      (g : LspGateway l)
      → Map.get uri g.open_documents ≡ some doc
      → language_id doc.vfs_path ≡ some language
      → l.serves language ≡ true
      → Keeps uri event
      → about uri (handle l env event g).forwarded
        ≡ about uri g.forwarded ++ told uri language event
  unfolding handle open_document change_document close_document save_document Store.apply
  about-handle uri (opening new) doc language g at p q h =
      elim (Option-cases (uri_to_vfs_path l env new.uri)) [
        | inl e ↦ rw (e, open_document) (sym (append-nil _))
        | inr (path, e) ↦
            rw (e, open_document)
              (about-forward_other uri path _ _ (ground (arith, h, ==_iff new.uri uri))
                ∙ sym (append-nil _))
      ]
  about-handle uri (closing u) doc language g at p q h =
      elim (Option-cases (Map.get u g.open_documents)) [
        | inl e ↦ rw (e, close_document) (sym (append-nil _))
        | inr (old, e) ↦
            rw (e, close_document)
              (about-forward_other uri old.vfs_path _ _ (ground (arith, h, ==_iff u uri))
                ∙ sym (append-nil _))
      ]
  about-handle uri (saving u) doc language g at p q h = elim (Bool-cases (u == uri)) [
    | inl e ↦
        let at_u =
          subst (λ x. Map.get x g.open_documents ≡ some doc) (sym ((==_iff u uri).0 e)) at in
        rw (at_u, save_document, e) (about-forward uri doc.vfs_path language (did_save u) g e p q)
    | inr e ↦ elim (Option-cases (Map.get u g.open_documents)) [
      | inl none_at ↦ rw (none_at, save_document, e) (sym (append-nil _))
      | inr (old, some_at) ↦
          rw (some_at, save_document, e)
            (about-forward_other uri old.vfs_path _ _ e ∙ sym (append-nil _))
    ]
  ]
  about-handle uri (changing u version changes) doc language g at p q h =
      elim (Bool-cases (u == uri)) [
        | inl e ↦
            let at_u =
              subst (λ x. Map.get x g.open_documents ≡ some doc) (sym ((==_iff u uri).0 e)) at in
            rw (at_u, change_document, e)
              (about-forward uri doc.vfs_path language (did_change u version changes) _ e p q)
        | inr e ↦ elim (Option-cases (Map.get u g.open_documents)) [
          | inl none_at ↦ rw (none_at, change_document, e) (sym (append-nil _))
          | inr (old, some_at) ↦
              rw (some_at, change_document, e)
                (about-forward_other uri old.vfs_path _ _ e ∙ sym (append-nil _))
        ]
      ]

  -- A document stays open at its path over events that do not open or close it.
  pub run-open :
      (uri : l.Url) (events : List (Event l)) (doc : DocumentState l) (g : LspGateway l)
      → Map.get uri g.open_documents ≡ some doc
      → StaysOpen uri events
      → (later : DocumentState l) × (Map.get uri (run l env events g).open_documents ≡ some later)
        × (later.vfs_path ≡ doc.vfs_path)
  unfolding run
  run-open uri [] doc g at h = (doc, at, refl)
  run-open uri (event ∷ events) doc g at h =
      let (next, at_next, same) = handle-open uri event doc g at h.0 in
      let (later, there, path) = run-open uri events next (handle l env event g) at_next h.1 in
      (later, there, path ∙ same)

  -- While a document whose language has a server is open and not opened a second time, that server
  -- is sent each change and each saving of it, once and in order, and no other notice about it is
  -- forwarded, whatever other documents are opened, changed, saved and closed meanwhile.
  pub forwarded-run :
      (uri : l.Url) (events : List (Event l)) (doc : DocumentState l) (language : LanguageId)
      (g : LspGateway l)
      → Map.get uri g.open_documents ≡ some doc
      → language_id doc.vfs_path ≡ some language
      → l.serves language ≡ true
      → StaysOpen uri events
      → about uri (run l env events g).forwarded
        ≡ about uri g.forwarded ++ notices uri language events
  unfolding run
  forwarded-run uri [] doc language g at p q h = sym (append-nil (about uri g.forwarded))
  forwarded-run uri (event ∷ events) doc language g at p q h =
      let (next, at_next, same) = handle-open uri event doc g at h.0 in
      forwarded-run uri events next language (handle l env event g) at_next
        (ap language_id same ∙ p) q h.1
      ∙ ap (λ f. f ++ notices uri language events)
          (about-handle uri event doc language g at p q h.0)
      ∙ append_assoc (about uri g.forwarded) _ _
