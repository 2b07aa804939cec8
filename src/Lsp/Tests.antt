-- ===== src/Lsp/Tests.antt =====
-- The theorems about crates/vraftls-lsp at small inputs.
use vraftls.Prelude.{
  list_eq, length, ◌+◌, ◌++◌, ◌≡◌, ◌≢◌, refl, ◌↔◌, ◌⊎◌, inl, inr, true, none, some, List, [], ◌∷◌,
  Text, codes, ℕ, nat_eq,
}
use vraftls.Prelude.Map
use vraftls.Prelude.Sets.{member, IsDistinct}
use vraftls.Core.Types.{LanguageId, RaftGroupId, rust}
use vraftls.Vfs.VfsPath.{VfsPath, language_id}
use vraftls.Lsp.Router
use vraftls.Lsp.Router.{
  local_only, single, scatter_gather, route_for_file, route_workspace, empty_aggregator,
  into_results, into_locations, has_errors,
}
use vraftls.Lsp.Router.Calls.{
  Call, leading, owning, run, owner, leader, route_for_file-run, route_workspace-run,
}
use vraftls.Lsp.Gateway.{DocumentState, LspGateway}
use vraftls.Lsp.Proxy.Methods.{JsonRpcResult, answered}
use vraftls.Lsp.Gateway.Requests.{Replies, request-run}
use vraftls.Lsp.Gateway.Forwarding.{StaysOpen, about, notices, forwarded-run}
use vraftls.Vfs.FileContent.{loaded}
use vraftls.Vfs.VfsFile.{Env}
use vraftls.Lsp.Gateway
use vraftls.Lsp.Gateway.{LspTypes, TextDocumentItem, uri_to_vfs_path, open_document, close_document}
use vraftls.Lsp.Gateway.Documents
use vraftls.Lsp.Gateway.Documents.{
  Event, opening, changing, closing, saving, content_at, content_at-run, run-close_document,
}

abbrev lib_rs : VfsPath
lib_rs = record { client_id = none; components = codes "lib.rs" ∷ []; original = codes "/lib.rs" }

abbrev two_groups : List Call
two_groups = leading 1 7 ∷ leading 2 8 ∷ leading 1 9 ∷ owning lib_rs 8 ∷ []

routed :
    (route_for_file lib_rs (run two_groups Router.new) ≡ single 8)
    × (route_workspace (run two_groups Router.new) ≡ scatter_gather (1 ∷ 2 ∷ []))
unfolding run route_for_file route_workspace
routed = (refl, refl)

route_for_file-run_example :
    route_for_file lib_rs (run two_groups Router.new)
    ≡ (elim (owner lib_rs two_groups none) [ none ↦ local_only | some node ↦ single node ])
route_for_file-run_example = route_for_file-run two_groups lib_rs

route_workspace-run_example :
    ((route_workspace (run two_groups Router.new) ≡ local_only)
      × ((group : RaftGroupId) → leader group two_groups none ≡ none))
    ⊎ ((groups : List RaftGroupId) × (route_workspace (run two_groups Router.new)
          ≡ scatter_gather groups)
        × (groups ≢ [])
        × IsDistinct groups
        × ((group : RaftGroupId)
            → (member group groups ≡ true) ↔ (leader group two_groups none ≢ none)))
route_workspace-run_example = route_workspace-run two_groups

abbrev two_answers : List (ℕ ⊎ Text)
two_answers = inl 5 ∷ inr (codes "timeout") ∷ []

-- an address is the path itself, a version is a number, a change is the new text, and there is a
-- server for every language
abbrev editor : LspTypes
editor = record {
  Url = Text;
  url_eq = list_eq;
  to_file_path = λ url. some url;
  Version = ℕ;
  Changes = Text;
  serves = λ language. true;
}

abbrev clock : Env
clock = record { hash = length; now = λ n. n + 100 }

abbrev lib_url : Text
lib_url = codes "/lib.rs"

abbrev lib_document : TextDocumentItem editor
lib_document = record { uri = lib_url; language_id = codes "rust"; version = 1; text = codes "fn" }

abbrev edits : List (Event editor)
edits = changing lib_url 2 (codes "fn f") ∷ saving lib_url ∷ closing lib_url ∷ []

lib_language : language_id lib_rs ≡ some rust
unfolding language_id
lib_language = refl

lib_path : uri_to_vfs_path editor clock lib_url ≡ some lib_rs
unfolding uri_to_vfs_path
lib_path = refl

content_at-run_example :
    content_at editor clock lib_rs
      (Documents.run editor clock edits
        (open_document editor clock lib_document (Gateway.new editor clock))).vfs
    ≡ some (loaded (codes "fn"))
unfolding Gateway.new Map.contains_key
content_at-run_example =
    content_at-run editor clock lib_document edits lib_rs (Gateway.new editor clock) tt lib_path

abbrev lib_state : DocumentState editor
lib_state = record { version = 1; language_id = rust; vfs_path = lib_rs }

abbrev main_url : Text
main_url = codes "/main.py"

abbrev main_document : TextDocumentItem editor
main_document = record {
  uri = main_url;
  language_id = codes "python";
  version = 1;
  text = codes "pass";
}

abbrev typing : List (Event editor)
typing =
    opening main_document
    ∷ changing lib_url 2 (codes "fn f")
    ∷ saving main_url
    ∷ saving lib_url
    ∷ closing main_url
    ∷ []

another : main_url ≢ lib_url
another p = absurd (cc)

stays : StaysOpen editor clock lib_url typing
stays = (another, (tt, (tt, (tt, (another, tt)))))

abbrev opened : LspGateway editor
opened = open_document editor clock lib_document (Gateway.new editor clock)

lib_open : Map.get lib_url opened.open_documents ≡ some lib_state
unfolding open_document Gateway.new Map.get
lib_open = refl

forwarded-run_example :
    about editor clock lib_url (Documents.run editor clock typing opened).forwarded
    ≡ about editor clock lib_url opened.forwarded ++ notices editor clock lib_url rust typing
forwarded-run_example =
    forwarded-run editor clock lib_url typing lib_state rust opened lib_open lib_language refl stays

abbrev ask_server : LanguageId → Text → Text → JsonRpcResult Text
ask_server language method params = answered (some method)

request-run_example :
    Replies editor
      (λ uri. uri)
      ask_server
      (λ name. ask_server rust name lib_url)
      lib_url
      (Documents.run editor clock typing opened)
    × Replies editor
        (λ uri. uri)
        ask_server
        (λ name. answered none)
        lib_url
        (close_document editor clock lib_url (Documents.run editor clock typing opened))
request-run_example =
    request-run editor (λ uri. uri) ask_server clock typing lib_state rust opened lib_url lib_open
      lib_language refl stays
