-- ===== src/Raft/Types.antt =====
-- crates/vraftls-raft/src/types.rs, and what the crate takes from OpenRaft: log ids and memberships
-- as unknown types, the payloads and the errors by the constructors that the source names.
use vraftls.Prelude.{ℕ, Option, ◌≡◌, refl, ◌⊎◌, inl, inr}
use vraftls.Core.Types.{RaftGroupId}
use vraftls.Vfs.Commands.{VfsCommand, VfsResponse}

pub record OpenRaft : Type 1 where
  pub LogId : Type 0
  pub index : LogId → ℕ
  pub Membership : Type 0
  pub StoredMembership : Type 0
  -- `StoredMembership::new`, `StoredMembership::default`
  pub stored : Option LogId → Membership → StoredMembership
  pub unstored : StoredMembership

pub record VfsRequest : Type 0 where
  pub group_id : RaftGroupId
  pub command : VfsCommand

pub record VfsStateMachineResponse : Type 0 where
  pub response : VfsResponse

pub data EntryPayload (o : OpenRaft) : Type 0 where
  blank : EntryPayload o
  normal : VfsRequest → EntryPayload o
  membership : o.Membership → EntryPayload o

pub record Entry (o : OpenRaft) : Type 0 where
  pub log_id : o.LogId
  pub payload : EntryPayload o

pub data ErrorSubject : Type 0 where
  store vote logs state_machine : ErrorSubject

pub data ErrorVerb : Type 0 where
  read write : ErrorVerb

-- `StorageError::from_io_error`, without the cause
pub record StorageError : Type 0 where
  pub subject : ErrorSubject
  pub verb : ErrorVerb

pub data StorageResult {ℓ} (A : Type ℓ) : Type ℓ where
  ok : A → StorageResult A
  err : StorageError → StorageResult A

pub StorageResult-cases {ℓ} :
    {A : Type ℓ} (x : StorageResult A) → ((a : A) × (x ≡ ok a)) ⊎ ((e : StorageError) × (x ≡ err e))
StorageResult-cases (ok a) = inl (a, refl)
StorageResult-cases (err e) = inr (e, refl)
