-- ===== src/Vfs/LineEnding.antt =====
-- crates/vraftls-vfs/src/file.rs: line endings and how they are detected.
use vraftls.Prelude.{Text, codes, contains, if◌then◌else◌}

pub data LineEnding : Type 0 where
  lf cr_lf cr : LineEnding

unfoldable pub as_str : LineEnding → Text
as_str lf = codes "\n"
as_str cr_lf = codes "\r\n"
as_str cr = codes "\r"

unfoldable pub detect : Text → LineEnding
detect content =
    if contains content (codes "\r\n")
    then cr_lf
    else if contains content (codes "\r")
    then cr
    else lf
