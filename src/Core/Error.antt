-- ===== src/Core/Error.antt =====
-- crates/vraftls-core/src/error.rs. An `io::Error` is known by its text.
use vraftls.Prelude.{Bool, true, false, Option, Text}
use vraftls.Core.Types.{FileId, NodeId, RaftGroupId}

pub data VRaftError : Type 0 where
  not_leader : Option NodeId → VRaftError
  group_not_found : RaftGroupId → VRaftError
  raft_consensus raft_log : Text → VRaftError
  file_not_found : FileId → VRaftError
  file_exists invalid_path path_not_in_workspace : Text → VRaftError
  node_unreachable : NodeId → VRaftError
  timeout : VRaftError
  connection_failed language_server unsupported_language : Text → VRaftError
  language_server_not_running : VRaftError
  invalid_lsp_request storage serialization transaction_aborted : Text → VRaftError
  transaction_timeout : VRaftError
  internal io : Text → VRaftError

unfoldable pub is_retriable : VRaftError → Bool
is_retriable (not_leader leader) = true
is_retriable (node_unreachable id) = true
is_retriable timeout = true
is_retriable transaction_timeout = true
is_retriable _ = false

unfoldable pub is_not_leader : VRaftError → Bool
is_not_leader (not_leader leader) = true
is_not_leader _ = false

-- `std::result::Result<T, VRaftError>`
pub data Result {ℓ} (A : Type ℓ) : Type ℓ where
  ok : A → Result A
  err : VRaftError → Result A
