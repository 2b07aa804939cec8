-- ===== src/Cluster/Failure.antt =====
-- crates/vraftls-cluster/src/failure.rs. A duration is its number of nanoseconds, and `elapsed` is
-- what `last_heartbeat.elapsed()` reads.
use vraftls.Prelude.{ℕ, ◌≤◌, ◌<◌, ◌≡◌, ◌⊎◌, Bool, true, false, ltb, arith}

pub record FailureDetector : Type 0 where
  pub suspicion_timeout : ℕ
  pub failure_timeout : ℕ

unfoldable pub is_suspect : ℕ → FailureDetector → Bool
is_suspect elapsed d = ltb d.suspicion_timeout elapsed

unfoldable pub is_failed : ℕ → FailureDetector → Bool
is_failed elapsed d = ltb d.failure_timeout elapsed

-- `Duration::from_secs(5)`, `Duration::from_secs(10)`
abbrev pub default : FailureDetector
default = record { suspicion_timeout = 5000000000; failure_timeout = 10000000000 }

-- With the suspicion limit at most the failure limit, a silence makes a node neither, then suspect
-- alone, then both: which one, the two limits alone decide.
pub is_failed_lem :
    (elapsed : ℕ) (d : FailureDetector)
    → d.suspicion_timeout ≤ d.failure_timeout
    → (elapsed ≤ d.suspicion_timeout)
        × (is_suspect elapsed d ≡ false)
        × (is_failed elapsed d ≡ false)
      ⊎ ((d.suspicion_timeout < elapsed)
            × (elapsed ≤ d.failure_timeout)
            × (is_suspect elapsed d ≡ true)
            × (is_failed elapsed d ≡ false)
          ⊎ (d.failure_timeout < elapsed)
            × (is_suspect elapsed d ≡ true)
            × (is_failed elapsed d ≡ true))
unfolding is_suspect is_failed
is_failed_lem elapsed d h = ground arith
