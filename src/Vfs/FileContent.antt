-- ===== src/Vfs/FileContent.antt =====
-- crates/vraftls-vfs/src/file.rs: where the content of a file is.
use vraftls.Prelude.{
  ℕ, Bool, true, false, Option, none, some, [], ◌==◌, nat_eq, list_eq, length, Text,
}
use vraftls.Core.Types.{NodeId}

pub data FileContent : Type 0 where
  loaded on_disk : Text → FileContent
  remote : NodeId → ℕ → ℕ → FileContent
  not_loaded : FileContent

unfoldable pub is_loaded : FileContent → Bool
is_loaded (loaded s) = true
is_loaded _ = false

unfoldable pub as_str : FileContent → Option Text
as_str (loaded s) = some s
as_str _ = none

unfoldable pub len : FileContent → Option ℕ
len (loaded s) = some (length s)
len (remote node_id offset length) = some length
len _ = none

unfoldable pub is_empty : FileContent → Bool
is_empty (loaded s) = s == []
is_empty _ = false
