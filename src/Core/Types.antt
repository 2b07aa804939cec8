-- ===== src/Core/Types.antt =====
-- crates/vraftls-core/src/types.rs. A newtype over `u64` is its number. `u64` addition wraps, as
-- it does in a release build.
use vraftls.Prelude.{
  ℕ, ◌+◌, ◌%◌, ◌^◌, ◌||◌, Option, none, some, List, nat_eq, list_eq, ◌==◌, Text, codes,
  if◌then◌else◌,
}

abbrev pub u64_mod : ℕ
u64_mod = 2 ^ 64

abbrev pub FileId : Type 0
FileId = ℕ

abbrev pub NodeId : Type 0
NodeId = ℕ

abbrev pub RaftGroupId : Type 0
RaftGroupId = ℕ

-- `RaftGroupId::METADATA`
abbrev pub metadata_group : RaftGroupId
metadata_group = 0

abbrev pub ClientId : Type 0
ClientId = ℕ

-- milliseconds since the Unix epoch
abbrev pub Timestamp : Type 0
Timestamp = ℕ

abbrev pub FileVersion : Type 0
FileVersion = ℕ

-- `FileVersion::initial()`
abbrev pub initial_version : FileVersion
initial_version = 0

-- `FileVersion::next`
unfoldable pub next_version : FileVersion → FileVersion
next_version v = (v + 1) % u64_mod

abbrev pub PartitionKey : Type 0
PartitionKey = List ℕ

pub data LanguageId : Type 0 where
  rust type_script java_script go python : LanguageId
  other : Text → LanguageId

unfoldable pub from_extension : Text → LanguageId
from_extension ext =
    if ext == codes "rs"
    then rust
    else if ext == codes "ts" || ext == codes "tsx"
    then type_script
    else if ext == codes "js" || ext == codes "jsx" || ext == codes "mjs" || ext == codes "cjs"
    then java_script
    else if ext == codes "go"
    then go
    else if ext == codes "py" || ext == codes "pyi"
    then python
    else other ext

unfoldable pub language_server_command : LanguageId → Option Text
language_server_command rust = some (codes "rust-analyzer")
language_server_command type_script = some (codes "typescript-language-server")
language_server_command java_script = some (codes "typescript-language-server")
language_server_command go = some (codes "gopls")
language_server_command python = some (codes "pyright-langserver")
language_server_command (other ext) = none
