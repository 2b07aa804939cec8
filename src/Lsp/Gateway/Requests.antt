-- ===== src/Lsp/Gateway/Requests.antt =====
-- The requests of an editor about a document (crates/vraftls-lsp/src/gateway.rs), which pass to the
-- proxy of a language server, and the proxy's methods for them (crates/vraftls-lsp/src/proxy.rs).
use vraftls.Prelude.{
  true, ◌≡◌, refl, ◌∙◌, ap, Option, none, some, List, Text, codes, Eq, if◌then◌else◌,
}
use vraftls.Prelude.Map
use vraftls.Core.Types.{LanguageId}
use vraftls.Vfs.VfsPath.{VfsPath, language_id}
use vraftls.Vfs.VfsFile.{Env}
use vraftls.Lsp.Proxy.Methods
use vraftls.Lsp.Proxy.Methods.{JsonRpcResult, answered}
use vraftls.Lsp.Gateway.{LspTypes, DocumentState, LspGateway, close_document}
use vraftls.Lsp.Gateway.Documents.{Event, run, closed}
use vraftls.Lsp.Gateway.Forwarding.{StaysOpen, run-open}

-- `Params` and `Answer` are those of all methods, `uri_of` finds the address in the parameters, and
-- `ask` is what `request` of the proxy of a language returns.
module _ (l : LspTypes) {Params Answer : Type 0} (uri_of : Params → l.Url)
    (ask : LanguageId → Text → Params → JsonRpcResult Answer) where
  instance abbrev request_key : Eq l.Url
  request_key = l.url_eq

  -- the language of the server that `get_language_server` gives
  unfoldable pub get_language_server : VfsPath → Option LanguageId
  unfolding language_id
  get_language_server path = elim (language_id path) [
    | none ↦ none
    | some language ↦ if l.serves language then some language else none
  ]

  unfoldable pub completion : Params → LspGateway l → JsonRpcResult Answer
  unfolding get_language_server Methods.completion Map.get
  completion params g = elim (Map.get (uri_of params) g.open_documents) [
    | none ↦ answered none
    | some doc ↦ elim (get_language_server doc.vfs_path) [
      | none ↦ answered none
      | some language ↦ Methods.completion (ask language) params
    ]
  ]

  unfoldable pub hover : Params → LspGateway l → JsonRpcResult Answer
  unfolding get_language_server Methods.hover Map.get
  hover params g = elim (Map.get (uri_of params) g.open_documents) [
    | none ↦ answered none
    | some doc ↦ elim (get_language_server doc.vfs_path) [
      | none ↦ answered none
      | some language ↦ Methods.hover (ask language) params
    ]
  ]

  unfoldable pub goto_definition : Params → LspGateway l → JsonRpcResult Answer
  unfolding get_language_server Methods.goto_definition Map.get
  goto_definition params g = elim (Map.get (uri_of params) g.open_documents) [
    | none ↦ answered none
    | some doc ↦ elim (get_language_server doc.vfs_path) [
      | none ↦ answered none
      | some language ↦ Methods.goto_definition (ask language) params
    ]
  ]

  unfoldable pub references : Params → LspGateway l → JsonRpcResult Answer
  unfolding get_language_server Methods.references Map.get
  references params g = elim (Map.get (uri_of params) g.open_documents) [
    | none ↦ answered none
    | some doc ↦ elim (get_language_server doc.vfs_path) [
      | none ↦ answered none
      | some language ↦ Methods.references (ask language) params
    ]
  ]

  unfoldable pub document_symbol : Params → LspGateway l → JsonRpcResult Answer
  unfolding get_language_server Methods.document_symbol Map.get
  document_symbol params g = elim (Map.get (uri_of params) g.open_documents) [
    | none ↦ answered none
    | some doc ↦ elim (get_language_server doc.vfs_path) [
      | none ↦ answered none
      | some language ↦ Methods.document_symbol (ask language) params
    ]
  ]

  unfoldable pub formatting : Params → LspGateway l → JsonRpcResult Answer
  unfolding get_language_server Methods.formatting Map.get
  formatting params g = elim (Map.get (uri_of params) g.open_documents) [
    | none ↦ answered none
    | some doc ↦ elim (get_language_server doc.vfs_path) [
      | none ↦ answered none
      | some language ↦ Methods.formatting (ask language) params
    ]
  ]

  unfoldable pub rename : Params → LspGateway l → JsonRpcResult Answer
  unfolding get_language_server Methods.rename Map.get
  rename params g = elim (Map.get (uri_of params) g.open_documents) [
    | none ↦ answered none
    | some doc ↦ elim (get_language_server doc.vfs_path) [
      | none ↦ answered none
      | some language ↦ Methods.rename (ask language) params
    ]
  ]

  unfoldable pub code_action : Params → LspGateway l → JsonRpcResult Answer
  unfolding get_language_server Methods.code_action Map.get
  code_action params g = elim (Map.get (uri_of params) g.open_documents) [
    | none ↦ answered none
    | some doc ↦ elim (get_language_server doc.vfs_path) [
      | none ↦ answered none
      | some language ↦ Methods.code_action (ask language) params
    ]
  ]

  -- The gateway answers its eight requests with these parameters by `reply` and the name that the
  -- Language Server Protocol gives to the request.
  abbrev pub Replies : (Text → JsonRpcResult Answer) → Params → LspGateway l → Type 0
  Replies reply params g =
      (completion params g ≡ reply (codes "textDocument/completion"))
      × (hover params g ≡ reply (codes "textDocument/hover"))
      × (goto_definition params g ≡ reply (codes "textDocument/definition"))
      × (references params g ≡ reply (codes "textDocument/references"))
      × (document_symbol params g ≡ reply (codes "textDocument/documentSymbol"))
      × (formatting params g ≡ reply (codes "textDocument/formatting"))
      × (rename params g ≡ reply (codes "textDocument/rename"))
      × (code_action params g ≡ reply (codes "textDocument/codeAction"))

  Replies-served :
      (params : Params) (doc : DocumentState l) (language : LanguageId) (g : LspGateway l)
      → Map.get (uri_of params) g.open_documents ≡ some doc
      → language_id doc.vfs_path ≡ some language
      → l.serves language ≡ true
      → Replies (λ name. ask language name params) params g
  unfolding completion hover goto_definition references document_symbol formatting rename
      code_action get_language_server
  Replies-served params doc language g at p q =
      let serves : get_language_server doc.vfs_path ≡ some language =
        rw (p, q, get_language_server) refl in
      (
        rw (at, serves, completion) refl,
        rw (at, serves, hover) refl,
        rw (at, serves, goto_definition) refl,
        rw (at, serves, references) refl,
        rw (at, serves, document_symbol) refl,
        rw (at, serves, formatting) refl,
        rw (at, serves, rename) refl,
        rw (at, serves, code_action) refl,
      )

  Replies-nothing :
      (params : Params) (g : LspGateway l)
      → Map.get (uri_of params) g.open_documents ≡ none
      → Replies (λ name. answered none) params g
  unfolding completion hover goto_definition references document_symbol formatting rename
      code_action
  Replies-nothing params g at = (
    rw (at, completion) refl,
    rw (at, hover) refl,
    rw (at, goto_definition) refl,
    rw (at, references) refl,
    rw (at, document_symbol) refl,
    rw (at, formatting) refl,
    rw (at, rename) refl,
    rw (at, code_action) refl,
  )

  -- While a document whose language has a server is open and not opened a second time, each of the
  -- eight requests about it is answered by that server, asked under the name that the protocol
  -- gives to the request, whatever other documents are opened and closed meanwhile and whatever is
  -- changed and saved; and once the document is closed each of them is answered with nothing.
  pub request-run :
      (env : Env) (events : List (Event l)) (doc : DocumentState l) (language : LanguageId)
      (g : LspGateway l) (params : Params)
      → Map.get (uri_of params) g.open_documents ≡ some doc
      → language_id doc.vfs_path ≡ some language
      → l.serves language ≡ true
      → StaysOpen l env (uri_of params) events
      → Replies (λ name. ask language name params) params (run l env events g)
        × Replies
            (λ name. answered none)
            params
            (close_document l env (uri_of params) (run l env events g))
  request-run env events doc language g params at p q h =
      let (later, there, path) = run-open l env (uri_of params) events doc g at h in
      (
        Replies-served params later language (run l env events g) there (ap language_id path ∙ p) q,
        Replies-nothing params (close_document l env (uri_of params) (run l env events g))
            (closed l env (uri_of params) (run l env events g)),
      )
