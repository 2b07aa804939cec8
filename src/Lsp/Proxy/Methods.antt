-- ===== src/Lsp/Proxy/Methods.antt =====
-- The requests that a proxy passes to its language server (crates/vraftls-lsp/src/proxy.rs), for what
-- its `request` makes of a name and parameters.
use vraftls.Prelude.{Option, Text, codes}

-- `JsonRpcResult<Option<_>>`
pub data JsonRpcResult (Answer : Type 0) : Type 0 where
  answered : Option Answer → JsonRpcResult Answer
  internal_error : JsonRpcResult Answer

module _ {Params Answer : Type 0} (request : Text → Params → JsonRpcResult Answer) where
  unfoldable pub completion : Params → JsonRpcResult Answer
  completion params = request (codes "textDocument/completion") params

  unfoldable pub hover : Params → JsonRpcResult Answer
  hover params = request (codes "textDocument/hover") params

  unfoldable pub goto_definition : Params → JsonRpcResult Answer
  goto_definition params = request (codes "textDocument/definition") params

  unfoldable pub references : Params → JsonRpcResult Answer
  references params = request (codes "textDocument/references") params

  unfoldable pub document_symbol : Params → JsonRpcResult Answer
  document_symbol params = request (codes "textDocument/documentSymbol") params

  unfoldable pub formatting : Params → JsonRpcResult Answer
  formatting params = request (codes "textDocument/formatting") params

  unfoldable pub rename : Params → JsonRpcResult Answer
  rename params = request (codes "textDocument/rename") params

  unfoldable pub code_action : Params → JsonRpcResult Answer
  code_action params = request (codes "textDocument/codeAction") params
