-- ===== src/Core/Config.antt =====
-- crates/vraftls-core/src/config.rs: the configurations with their defaults, and how their durations
-- are written and read.
use vraftls.Prelude.{
  ℕ, ◌+◌, ◌*◌, ◌/◌, ◌%◌, ◌<◌, ◌≡◌, Bool, true, Option, none, some, List, [], ◌∷◌, Text, codes,
  arith, ltb, if◌then◌else◌,
}
use mathlib.Core.Option
use vraftls.Core.Types.{u64_mod}

-- `std::time::Duration`: seconds below 2 ^ 64 and nanoseconds below 10 ^ 9
pub record Duration : Type 0 where
  pub secs : ℕ
  pub nanos : ℕ

unfoldable pub from_secs : ℕ → Duration
from_secs secs = record { secs = secs; nanos = 0 }

unfoldable pub from_millis : ℕ → Duration
from_millis millis = record { secs = millis / 1000; nanos = millis % 1000 * 1000000 }

unfoldable pub as_millis : Duration → ℕ
as_millis d = d.secs * 1000 + d.nanos / 1000000

-- `u64::deserialize` of a number that was written
unfoldable pub read_u64 : ℕ → Option ℕ
read_u64 n = if ltb n u64_mod then some n else none

-- the modules `duration_millis` and `duration_secs`
unfoldable pub serialize_millis : Duration → ℕ
unfolding as_millis
serialize_millis d = as_millis d

unfoldable pub deserialize_millis : ℕ → Option Duration
unfolding read_u64 from_millis
deserialize_millis n = Option.map from_millis (read_u64 n)

unfoldable pub serialize_secs : Duration → ℕ
serialize_secs d = d.secs

unfoldable pub deserialize_secs : ℕ → Option Duration
unfolding read_u64 from_secs
deserialize_secs n = Option.map from_secs (read_u64 n)

pub record RaftConfig : Type 0 where
  pub heartbeat_interval : Duration
  pub election_timeout_min : Duration
  pub election_timeout_max : Duration
  pub max_append_entries : ℕ
  pub snapshot_chunk_size : ℕ
  pub max_log_entries : ℕ
  pub max_log_bytes : ℕ

unfoldable pub default_raft : RaftConfig
unfolding from_millis
default_raft = record {
  heartbeat_interval = from_millis 100;
  election_timeout_min = from_millis 300;
  election_timeout_max = from_millis 500;
  max_append_entries = 100;
  snapshot_chunk_size = 1024 * 1024;
  max_log_entries = 10000;
  max_log_bytes = 100 * 1024 * 1024;
}

pub record VfsConfig : Type 0 where
  pub max_file_size : ℕ
  pub max_files_per_group : ℕ
  pub enable_compression : Bool

unfoldable pub default_vfs : VfsConfig
default_vfs = record {
  max_file_size = 10 * 1024 * 1024;
  max_files_per_group = 200;
  enable_compression = true;
}

pub record CacheConfig : Type 0 where
  pub l1_max_entries : ℕ
  pub l2_max_bytes : ℕ
  pub ttl : Duration

unfoldable pub default_cache : CacheConfig
unfolding from_secs
default_cache = record {
  l1_max_entries = 10000;
  l2_max_bytes = 1024 * 1024 * 1024;
  ttl = from_secs 3600;
}

pub record NodeConfig (SocketAddr : Type 0) : Type 0 where
  pub node_id : ℕ
  pub cluster_addr : SocketAddr
  pub data_dir : Text
  pub raft : RaftConfig
  pub vfs : VfsConfig
  pub cache : CacheConfig

pub record GatewayConfig (SocketAddr : Type 0) : Type 0 where
  pub cluster_nodes : List SocketAddr
  pub request_timeout : Duration
  pub pool_size : ℕ

-- `parse` reads a socket address; where it fails, `unwrap` panics.
module _ {SocketAddr : Type 0} (parse : Text → Option SocketAddr) where
  unfoldable pub default_node : Option (NodeConfig SocketAddr)
  unfolding default_raft default_vfs default_cache
  default_node = elim (parse (codes "127.0.0.1:8080")) [
    | none ↦ none
    | some addr ↦ some (record {
      node_id = 1;
      cluster_addr = addr;
      data_dir = codes "./data";
      raft = default_raft;
      vfs = default_vfs;
      cache = default_cache;
    })
  ]

  unfoldable pub default_gateway : Option (GatewayConfig SocketAddr)
  unfolding from_secs
  default_gateway = elim (parse (codes "127.0.0.1:8080")) [
    | none ↦ none
    | some addr ↦
        some (record { cluster_nodes = addr ∷ []; request_timeout = from_secs 30; pool_size = 10 })
  ]

-- A duration that is written in milliseconds and read again has lost the part below a millisecond,
-- and no more; it cannot be read where its milliseconds do not fit 64 bits.
deserialize-serialize_millis :
    (d : Duration)
    → d.nanos < 1000000000
    → deserialize_millis (serialize_millis d) ≡ (
        if ltb (as_millis d) u64_mod
        then some (record { secs = d.secs; nanos = d.nanos / 1000000 * 1000000 })
        else none)
unfolding deserialize_millis serialize_millis read_u64 from_millis as_millis
deserialize-serialize_millis d h =
    let whole : (d.secs * 1000 + d.nanos / 1000000) / 1000 ≡ d.secs = omega arith in
    let part : (d.secs * 1000 + d.nanos / 1000000) % 1000 ≡ d.nanos / 1000000 = omega arith in
    ground (arith, whole, part)

-- A duration in seconds loses the part below a second.
deserialize-serialize_secs :
    (d : Duration)
    → d.secs < u64_mod
    → deserialize_secs (serialize_secs d) ≡ some (from_secs d.secs)
unfolding deserialize_secs serialize_secs read_u64 from_secs
deserialize-serialize_secs d h = ground arith

-- The defaults keep to what Raft asks for: a heartbeat comes before the least election timeout, which
-- is below the greatest.
default_raft_timeouts :
    (as_millis default_raft.heartbeat_interval < as_millis default_raft.election_timeout_min)
    × (as_millis default_raft.election_timeout_min < as_millis default_raft.election_timeout_max)
unfolding default_raft from_millis as_millis
default_raft_timeouts = (omega arith, omega arith)
