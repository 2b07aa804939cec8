-- ===== src/Raft/Tests.antt =====
-- Runs of the state machine on small logs, and the theorems at them.
mod Formats
use mathlib.Core.List.{filter_map}
use mathlib.Core.Option
use vraftls.Prelude.{
  ℕ, ◌+◌, ◌<◌, ◌≡◌, ◌≢◌, refl, Option, none, some, List, [], ◌∷◌, ◌++◌, arith, Text, codes, length,
  decimal,
}
use vraftls.Core.Types.{u64_mod, FileId}
use vraftls.Vfs.FileContent.{FileContent, loaded}
use vraftls.Vfs.VfsPath.{VfsPath}
use vraftls.Vfs.VfsFile
use vraftls.Vfs.VfsFile.{Env, VfsFile}
use vraftls.Vfs.Commands
use vraftls.Vfs.Commands.{VfsCommand, VfsResponse}
use vraftls.Vfs.Store
use vraftls.Vfs.Store.Invariant.{IsValid}
use vraftls.Vfs.Store.Invariant.Apply.{apply-IsValid}
use Formats.{Format, as_format, pair_format, option_format, list_format, nat_format, file_format}
use vraftls.Vfs.Store.Replicas.{SameData}
use vraftls.Vfs.Store.History.{IsRetired}
use vraftls.Vfs.Tests.{
  test_env, main_rs, one_file, one_file-IsValid, create_main, write_main, program,
}
use vraftls.Raft.Types.{OpenRaft, Entry, blank, normal, membership, ok}
use vraftls.Raft.StateMachine
use vraftls.Raft.StateMachine.{
  VfsStateMachine, VfsSnapshot, Codec, Snapshot, SnapshotMeta, IsLawful,
}
use vraftls.Raft.StateMachine.Apply.{apply-append, apply_log, last_log, last_membership}
use vraftls.Raft.StateMachine.Logs.{SameState, apply-SameState, apply_log-IsRetired}
use vraftls.Raft.StateMachine.Restore.{read_at}
use vraftls.Raft.StateMachine.Transfer.{install-build, install-forgets_version, reset}
use vraftls.Raft.StateMachine.Stale.{install-keeps_old}

-- log ids and memberships as numbers
abbrev raft : OpenRaft
raft = record {
  LogId = ℕ;
  index = λ n. n;
  Membership = ℕ;
  StoredMembership = Option ℕ × ℕ;
  stored = λ id m. (id, m);
  unstored = (none, 0);
}

abbrev other_env : Env
other_env = record { hash = length; now = λ n. 7 }

abbrev log : List (Entry raft)
log =
    record { log_id = 1; payload = blank }
    ∷ record { log_id = 2; payload = membership 3 }
    ∷ record { log_id = 3; payload = normal (record { group_id = 1; command = create_main }) }
    ∷ record { log_id = 4; payload = normal (record { group_id = 1; command = write_main }) }
    ∷ []

abbrev start : VfsStateMachine raft
start = StateMachine.new raft 1

start-SameState : SameState raft start start
start-SameState = record {
  data_same = record {
    files = refl;
    path_index = refl;
    next_file_id = refl;
    group_id = refl;
    sent = refl;
  };
  log_same = refl;
  membership_same = refl;
}

apply-SameState_example :
    SameState raft
      (StateMachine.apply raft test_env log start).0
      (StateMachine.apply raft other_env log start).0
    × ((StateMachine.apply raft test_env log start).1
        ≡ (StateMachine.apply raft other_env log start).1)
apply-SameState_example =
    apply-SameState raft test_env other_env refl log start start start-SameState

apply_log_example :
    ((StateMachine.apply raft test_env log start).0.last_applied_log ≡ some 4)
    × ((StateMachine.apply raft test_env log start).0.membership ≡ (some 2, 3))
    × (length (StateMachine.apply raft test_env log start).1 ≡ 4)
apply_log_example = apply_log raft test_env log start

abbrev deleted : VfsStateMachine raft
deleted = record start { vfs = (Store.apply test_env (VfsCommand.delete_file 1) one_file).0 }

apply_log-IsRetired_example :
    IsRetired test_env 1 (StateMachine.apply raft test_env log deleted).0.vfs
unfolding program
apply_log-IsRetired_example =
    apply_log-IsRetired raft test_env 1 log deleted (omega arith) (omega arith, refl)

abbrev snapshot_format : Format (VfsSnapshot raft)
snapshot_format =
    as_format
      (pair_format (option_format nat_format)
        (pair_format (pair_format (option_format nat_format) nat_format) (list_format file_format)))
      (λ (last, (members, files)). record {
        last_applied_log = last;
        membership = members;
        files = files;
      })
      (λ s. (s.last_applied_log, (s.membership, s.files))) (λ s. refl)

abbrev codec : Codec raft
codec = record {
  to_vec = λ s. some (snapshot_format.put s []);
  from_slice = λ t. Option.map (λ (r : VfsSnapshot raft × Text). r.0) (snapshot_format.get t);
}

decode : (s : VfsSnapshot raft) → codec.from_slice (snapshot_format.put s []) ≡ some s
decode s = rw (snapshot_format.back s [])

codec-IsLawful : IsLawful raft codec
codec-IsLawful s d h = let e : snapshot_format.put s [] ≡ d = ground arith in rw (← e) (decode s)

-- the state after the log: one file, of version 1
abbrev source : VfsStateMachine raft
source = record start {
  vfs = (Store.apply test_env write_main one_file).0;
  last_applied_log = some 4;
}

source-IsValid : IsValid test_env source.vfs
unfolding program
source-IsValid = apply-IsValid test_env write_main one_file (omega arith) one_file-IsValid

abbrev taken : Snapshot raft
taken = record {
  meta = record {
    last_log_id = some 4;
    last_membership = source.membership;
    snapshot_id = decimal 4 ++ (codes "-" ++ codes "1700000000");
  };
  snapshot = snapshot_format.put (StateMachine.snapshot_of raft source) [];
}

build_taken : StateMachine.build_snapshot raft codec (codes "1700000000") source ≡ ok taken
unfolding StateMachine.build_snapshot
build_taken = refl

install-build_example :
    (sm' : VfsStateMachine raft) × (StateMachine.install_snapshot raft codec other_env taken.meta
        taken.snapshot
        (StateMachine.new raft 1)
      ≡ ok sm')
    × (sm'.last_applied_log ≡ some 4)
    × (sm'.membership ≡ source.membership)
    × IsValid other_env sm'.vfs
    × ((p : VfsPath) → read_at p sm'.vfs ≡ Option.map reset (read_at p source.vfs))
unfolding program
install-build_example =
    install-build raft codec codec-IsLawful test_env other_env source (codes "1700000000") taken 1
      source-IsValid (omega arith) build_taken

abbrev target : VfsStateMachine raft
target = record (StateMachine.new raft 1) {
  vfs =
      StateMachine.restore_files raft other_env (StateMachine.snapshot_of raft source).files
        (Store.new 1);
  last_applied_log = some 4;
  membership = source.membership;
}

install_taken :
    StateMachine.install_snapshot raft codec other_env taken.meta taken.snapshot
      (StateMachine.new raft 1)
    ≡ ok target
unfolding StateMachine.install_snapshot StateMachine.snapshot_of StateMachine.new
install_taken = rw (decode (StateMachine.snapshot_of raft source), StateMachine.install_snapshot)

abbrev source_file : VfsFile
source_file =
    VfsFile.update_content test_env 1002 (codes "mod a;")
      (VfsFile.new test_env 1000 1 main_rs (codes "fn main() {}") 1)

abbrev target_file : VfsFile
target_file = VfsFile.new other_env 7 1 main_rs (codes "mod a;") 1

source_reads : Store.get_file_by_path main_rs source.vfs ≡ some source_file
unfolding program VfsFile.new VfsFile.update_content
source_reads = refl

target_reads : Store.get_file_by_path main_rs target.vfs ≡ some target_file
unfolding program StateMachine.restore_files StateMachine.snapshot_of VfsFile.new filter_map
target_reads = refl

install-forgets_version_example :
    ((Store.update_file test_env 1 (codes "x") (some 1) source.vfs).1 ≡ VfsResponse.ok (some 1))
    × (Store.update_file other_env 1 (codes "x") (some 1) target.vfs
        ≡ (target.vfs, VfsResponse.error (Commands.version_mismatch 1 0)))
unfolding program VfsFile.new VfsFile.update_content
install-forgets_version_example =
    install-forgets_version raft codec codec-IsLawful test_env other_env source target
      (codes "1700000000") (codes "x") taken 1 main_rs source_file target_file source-IsValid
      (omega arith) build_taken install_taken source_reads (omega arith) target_reads

-- a node with the file as it was created, which installs the snapshot
abbrev behind : VfsStateMachine raft
behind = record start { vfs = one_file; last_applied_log = some 3 }

abbrev behind_after : VfsStateMachine raft
behind_after = record behind {
  vfs =
      StateMachine.restore_files raft test_env (StateMachine.snapshot_of raft source).files
        one_file;
  last_applied_log = some 4;
  membership = source.membership;
}

install_behind :
    StateMachine.install_snapshot raft codec test_env taken.meta taken.snapshot behind
    ≡ ok behind_after
unfolding StateMachine.install_snapshot StateMachine.snapshot_of StateMachine.new
install_behind = rw (decode (StateMachine.snapshot_of raft source), StateMachine.install_snapshot)

behind_reads : read_at main_rs one_file ≡ some (loaded (codes "fn main() {}"), 0)
unfolding program
behind_reads = refl

install-keeps_old_example :
    (read_at main_rs behind_after.vfs ≡ some (loaded (codes "fn main() {}"), 0))
    × (behind_after.last_applied_log ≡ some 4)
unfolding program StateMachine.snapshot_of filter_map
install-keeps_old_example =
    install-keeps_old raft codec test_env behind behind_after (StateMachine.snapshot_of raft source)
      taken.meta taken.snapshot main_rs (loaded (codes "fn main() {}"), 0) one_file-IsValid
      (decode (StateMachine.snapshot_of raft source)) (omega arith) install_behind behind_reads
