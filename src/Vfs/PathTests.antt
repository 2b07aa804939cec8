-- ===== src/Vfs/PathTests.antt =====
-- Paths of the tests of crates/vraftls-vfs/src/path.rs, and the theorems at them.
use mathlib.Core.Logic.{◌≢◌}
use vraftls.Prelude.{◌≡◌, refl, some, [], ◌∷◌, codes}
use vraftls.Vfs.VfsPath
use vraftls.Vfs.VfsPath.{VfsPath, slash, dot, normalize}
use vraftls.Core.Types
use vraftls.Vfs.VfsPath.Normal.{IsNormal, normalize-IsNormal, new-IsNormal, new-to_path_buf}
use vraftls.Vfs.VfsPath.Relations.{join-ne-absolute}

abbrev project : VfsPath
project = VfsPath.new (codes "/project")

abbrev main_rs : VfsPath
main_rs = VfsPath.new (codes "/project/src/main.rs")

normalized : normalize (codes "/foo/bar/../baz") ≡ codes "foo" ∷ codes "baz" ∷ []
unfolding normalize
normalized = refl

dots_dropped : normalize (codes "./a//./b/../../../c") ≡ codes "c" ∷ []
unfolding normalize
dots_dropped = refl

main_extension : VfsPath.extension main_rs ≡ some (codes "rs")
unfolding VfsPath.extension VfsPath.new
main_extension = refl

main_language : VfsPath.language_id main_rs ≡ some Types.rust
unfolding VfsPath.language_id VfsPath.new
main_language = refl

joined :
    (VfsPath.join project (codes "src/main.rs")).components
    ≡ codes "project" ∷ codes "src" ∷ codes "main.rs" ∷ []
unfolding VfsPath.join
joined = refl

normalize-IsNormal_example : IsNormal (normalize (codes "/foo/bar/../baz"))
normalize-IsNormal_example = normalize-IsNormal (codes "/foo/bar/../baz")

new-to_path_buf_example :
    (VfsPath.new (VfsPath.to_path_buf main_rs)).components ≡ main_rs.components
new-to_path_buf_example = new-to_path_buf main_rs (new-IsNormal (codes "/project/src/main.rs"))

join-ne-absolute_example :
    (VfsPath.join project (codes "src") ≢ VfsPath.new (codes "/project/src"))
    × (VfsPath.parent project ≢ some (VfsPath.new (codes "/project/src")))
join-ne-absolute_example =
    join-ne-absolute project (codes "src") (codes "project/src") (new-IsNormal (codes "/project"))
