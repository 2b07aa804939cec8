-- ===== src/Vfs/Tests.antt =====
-- Runs of the file system on small inputs, after the tests of crates/vraftls-vfs/src/vfs.rs, and
-- the theorems at them.
use vraftls.Prelude.{◌+◌, ◌≡◌, refl, none, some, [], ◌∷◌, arith, codes, length}
use vraftls.Prelude.Map
use vraftls.Core.Error
use vraftls.Vfs.VfsPath.{VfsPath}
use vraftls.Vfs.VfsFile
use vraftls.Vfs.VfsFile.{Env, VfsFile}
use vraftls.Vfs.Commands
use vraftls.Vfs.Commands.{VfsCommand, VfsCommandError, VfsResponse}
use vraftls.Vfs.Store
use vraftls.Vfs.Store.{Vfs}
use vraftls.Vfs.Store.Invariant.{IsValid, new-IsValid}
use vraftls.Vfs.Store.Invariant.Apply.{apply-IsValid}
use vraftls.Vfs.Store.Reference.{table_of, perform}
use vraftls.Vfs.Store.Reference.Refines.{apply-perform}
use vraftls.Vfs.Store.Events.{IsTold, new-IsTold, apply-IsTold}
use vraftls.Vfs.Store.History.{apply_error, update_file_conflict}

abbrev pub test_env : Env
test_env = record { hash = length; now = λ n. n + 1000 }

abbrev pub main_rs : VfsPath
main_rs = record {
  client_id = none;
  components = codes "src" ∷ codes "main.rs" ∷ [];
  original = codes "/src/main.rs";
}

abbrev pub src_dir : VfsPath
src_dir = record { client_id = none; components = codes "src" ∷ []; original = codes "/src" }

abbrev pub create_main : VfsCommand
create_main = VfsCommand.create_file main_rs (codes "fn main() {}")

abbrev pub one_file : Vfs
one_file = (Store.apply test_env create_main (Store.new 1)).0

abbrev pub write_main : VfsCommand
write_main = VfsCommand.update_file 1 (codes "mod a;") (some 0)

abbrev batch : VfsCommand
batch =
    VfsCommand.batch_write
      (Commands.create src_dir [] ∷ Commands.update 1 (codes "x") ∷ Commands.delete 7 ∷ [])

-- the code of the file system, for the tests by evaluation
unfoldable pub program : Unit {0}
unfolding Store.new Store.apply Store.create_file Store.update_file Store.delete_file
    Store.rename_file Store.batch_write Store.batch_ops Store.batch_op Store.get_file
    Store.get_file_by_path Store.get_content Map.get Map.insert Map.contains_key
program = tt

created_first : (Store.apply test_env create_main (Store.new 1)).1 ≡ VfsResponse.created 1
unfolding program
created_first = refl

written :
    Store.get_content 1 (Store.apply test_env write_main one_file).0 ≡ Error.ok (codes "mod a;")
unfolding program
written = refl

batched :
    (Store.apply test_env batch one_file).1
    ≡ VfsResponse.batch_results (
        Commands.success (some 2)
        ∷ Commands.success (some 1)
        ∷ Commands.error (Commands.file_not_found 7)
        ∷ [])
unfolding program
batched = refl

pub one_file-IsValid : IsValid test_env one_file
unfolding Store.new
one_file-IsValid =
    apply-IsValid test_env create_main (Store.new 1) (omega arith) (new-IsValid test_env 1)

apply-IsValid_example : IsValid test_env (Store.apply test_env write_main one_file).0
unfolding program
apply-IsValid_example = apply-IsValid test_env write_main one_file (omega arith) one_file-IsValid

apply-perform_example :
    (table_of (Store.apply test_env batch one_file).0 ≡ (perform batch (table_of one_file)).0)
    × ((Store.apply test_env batch one_file).1 ≡ (perform batch (table_of one_file)).1)
unfolding program
apply-perform_example = apply-perform test_env batch one_file (omega arith) one_file-IsValid

apply-IsTold_example : IsTold (Store.apply test_env create_main (Store.new 1)).0
apply-IsTold_example = apply-IsTold test_env create_main (Store.new 1) (new-IsTold test_env 1)

apply_error_example : (Store.apply test_env create_main one_file).0 ≡ one_file
unfolding program
apply_error_example =
    apply_error test_env create_main one_file (Commands.file_already_exists (codes "/src/main.rs"))
      refl

abbrev main_file : VfsFile
main_file = VfsFile.new test_env 1000 1 main_rs (codes "fn main() {}") 1

update_file_conflict_example :
    let v = (Store.update_file test_env 1 (codes "a") (some 0) one_file).0 in
    ((Store.update_file test_env 1 (codes "a") (some 0) one_file).1 ≡ VfsResponse.ok (some 1))
    × (Store.update_file test_env 1 (codes "b") (some 0) v
        ≡ (v, VfsResponse.error (Commands.version_mismatch 0 1)))
    × (Store.get_content 1 v ≡ Error.ok (codes "a"))
unfolding program VfsFile.new
update_file_conflict_example =
    update_file_conflict test_env 1 (codes "a") (codes "b") main_file one_file refl (omega arith)
