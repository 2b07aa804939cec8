-- ===== src/Vfs/VfsFile.antt =====
-- crates/vraftls-vfs/src/file.rs. `DefaultHasher` is the function `hash` of the environment, and
-- the system clock its reading at each call of `Timestamp::now`.
use vraftls.Prelude.{ℕ, Bool, false, Option, none, [], ◌==◌, nat_eq, list_eq, Text}
use vraftls.Prelude.Map.{Map}
use vraftls.Core.Types.{FileId, RaftGroupId, Timestamp, FileVersion, initial_version, next_version}
use vraftls.Vfs.FileContent
use vraftls.Vfs.FileContent.{FileContent, loaded}
use vraftls.Vfs.LineEnding.{LineEnding, lf}
use vraftls.Vfs.VfsPath.{VfsPath}

-- What the program takes from the standard library and cannot know: the hash of a text, and what
-- the clock shows when it is read for the n-th time.
pub record Env : Type 0 where
  pub hash : Text → ℕ
  pub now : ℕ → Timestamp

pub record FileMetadata : Type 0 where
  pub read_only : Bool
  pub encoding : Option Text
  pub line_ending : LineEnding
  pub attributes : Map Text Text

-- `FileMetadata::default()`
abbrev pub default_metadata : FileMetadata
default_metadata = record { read_only = false; encoding = none; line_ending = lf; attributes = [] }

pub record VfsFile : Type 0 where
  pub id : FileId
  pub path : VfsPath
  pub version : FileVersion
  pub content : FileContent
  pub checksum : ℕ
  pub last_modified : Timestamp
  pub owning_group : RaftGroupId
  pub metadata : FileMetadata

-- `Checksum::verify`
unfoldable pub verify : Env → ℕ → Text → Bool
verify env checksum content = env.hash content == checksum

-- `VfsFile::new`, with the clock's reading
unfoldable pub new : Env → Timestamp → FileId → VfsPath → Text → RaftGroupId → VfsFile
new env now id path content owning_group = record {
  id = id;
  path = path;
  version = initial_version;
  content = loaded content;
  checksum = env.hash content;
  last_modified = now;
  owning_group = owning_group;
  metadata = default_metadata;
}

unfoldable pub update_content : Env → Timestamp → Text → VfsFile → VfsFile
unfolding next_version
update_content env now content file = record file {
  checksum = env.hash content;
  content = loaded content;
  version = next_version file.version;
  last_modified = now;
}

unfoldable pub content_str : VfsFile → Option Text
unfolding FileContent.as_str
content_str file = FileContent.as_str file.content

pub data FileChangeType : Type 0 where
  created modified deleted renamed : FileChangeType

pub record FileChangeEvent : Type 0 where
  pub change_type : FileChangeType
  pub file_id : FileId
  pub path : VfsPath
  pub version : FileVersion
  pub timestamp : Timestamp

abbrev pub change_event :
    FileChangeType → FileId → VfsPath → FileVersion → Timestamp → FileChangeEvent
change_event change_type file_id path version timestamp = record {
  change_type = change_type;
  file_id = file_id;
  path = path;
  version = version;
  timestamp = timestamp;
}
