-- ===== src/Lsp/Gateway.antt =====
-- crates/vraftls-lsp/src/gateway.rs: the notifications of an editor about its documents, with the
-- file system of the gateway behind them. What is forwarded to a language server is written down
-- with the language of the server, in order.
pub mod Documents
pub mod Forwarding
pub mod Requests
use vraftls.Prelude.{
  Bool, true, false, ◌&&◌, ◌||◌, ◌≡◌, Option, none, some, List, [], ◌∷◌, ◌++◌, Text, codes, nat_eq,
  list_eq, Eq, ◌==◌, if◌then◌else◌,
}
use mathlib.Core.Option
use vraftls.Prelude.Map
use vraftls.Prelude.Map.{Map}
use vraftls.Core.Types.{LanguageId, rust, type_script, java_script, go, python, other}
use vraftls.Vfs.VfsPath
use vraftls.Vfs.VfsPath.{VfsPath, language_id}
use vraftls.Vfs.VfsFile.{Env}
use vraftls.Vfs.Commands.{VfsCommand, create_file}
use vraftls.Vfs.Store
use vraftls.Vfs.Store.{Vfs}

-- what the gateway takes from `lsp_types`, from `url`, and from the proxy of language servers:
-- `serves` says whether `get_or_spawn` gives a server
pub record LspTypes : Type 1 where
  pub Url : Type 0
  pub url_eq : Eq Url
  pub to_file_path : Url → Option Text
  pub Version : Type 0
  pub Changes : Type 0
  pub serves : LanguageId → Bool

pub record DocumentState (l : LspTypes) : Type 0 where
  pub version : l.Version
  pub language_id : LanguageId
  pub vfs_path : VfsPath

pub record TextDocumentItem (l : LspTypes) : Type 0 where
  pub uri : l.Url
  pub language_id : Text
  pub version : l.Version
  pub text : Text

-- a notification as it is forwarded
pub data Notice (l : LspTypes) : Type 0 where
  did_open : TextDocumentItem l → Notice l
  did_change : l.Url → l.Version → l.Changes → Notice l
  did_close did_save : l.Url → Notice l

pub record LspGateway (l : LspTypes) : Type 0 where
  pub vfs : Vfs
  pub open_documents : Map l.Url (DocumentState l)
  pub forwarded : List (LanguageId × Notice l)

-- the `match` on the language that the editor names
unfoldable pub parse_language : Text → LanguageId
parse_language s =
    if s == codes "rust"
    then rust
    else if s == codes "typescript" || s == codes "typescriptreact"
    then type_script
    else if s == codes "javascript" || s == codes "javascriptreact"
    then java_script
    else if s == codes "go"
    then go
    else if s == codes "python"
    then python
    else other s

module _ (l : LspTypes) (env : Env) where
  instance abbrev key_eq : Eq l.Url
  key_eq = l.url_eq

  unfoldable pub new : LspGateway l
  unfolding Store.new
  new = record { vfs = Store.new 1; open_documents = []; forwarded = [] }

  unfoldable pub uri_to_vfs_path : l.Url → Option VfsPath
  unfolding VfsPath.new
  uri_to_vfs_path uri = Option.map VfsPath.new (l.to_file_path uri)

  -- `if let Some(ls) = self.get_language_server(path).await` and the call of the server
  unfoldable pub forward : VfsPath → Notice l → LspGateway l → LspGateway l
  unfolding language_id
  forward path notice g = elim (language_id path) [
    | none ↦ g
    | some language ↦
        if l.serves language
        then record g { forwarded = g.forwarded ++ (language, notice) ∷ [] }
        else g
  ]

  unfoldable pub open_document : TextDocumentItem l → LspGateway l → LspGateway l
  unfolding uri_to_vfs_path forward parse_language Store.apply Map.insert
  open_document doc g = elim (uri_to_vfs_path doc.uri) [
    | none ↦ g
    | some vfs_path ↦
        let stored = (Store.apply env (create_file vfs_path doc.text) g.vfs).0 in
        forward vfs_path (did_open doc) (record g {
          vfs = stored;
          open_documents =
              Map.insert doc.uri
                (record {
                  version = doc.version;
                  language_id = parse_language doc.language_id;
                  vfs_path = vfs_path;
                })
                g.open_documents;
        })
  ]

  unfoldable pub change_document : l.Url → l.Version → l.Changes → LspGateway l → LspGateway l
  unfolding forward Map.insert Map.get
  change_document uri version changes g = elim (Map.get uri g.open_documents) [
    | none ↦ g
    | some doc ↦
        let changed = record doc { version = version } in
        forward doc.vfs_path (did_change uri version changes)
          (record g { open_documents = Map.insert uri changed g.open_documents })
  ]

  unfoldable pub close_document : l.Url → LspGateway l → LspGateway l
  unfolding forward Map.remove Map.get
  close_document uri g = elim (Map.get uri g.open_documents) [
    | none ↦ g
    | some doc ↦
        forward doc.vfs_path (did_close uri)
          (record g { open_documents = Map.remove uri g.open_documents })
  ]

  unfoldable pub save_document : l.Url → LspGateway l → LspGateway l
  unfolding forward Map.get
  save_document uri g = elim (Map.get uri g.open_documents) [
    | none ↦ g
    | some doc ↦ forward doc.vfs_path (did_save uri) g
  ]
