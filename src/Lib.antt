-- ===== src/Lib.antt =====
-- VRaftLS is a language server whose files live in a virtual file system that Raft replicates: a
-- command on files becomes a log entry, every node applies the log to its own file system, and a
-- snapshot brings a new node up to date. Around it stand a cache of which results a changed file
-- makes stale, the tables of the cluster, a router of editor requests, and the proxies of the
-- language servers that answer them. This library models these parts and proves what makes each
-- of them correct.
--
-- Parts and files (paths from the repository's root):
-- - Prelude: shared names; `Map` and `Set` are association lists and lists for `DashMap`,
--   `HashMap`, `BTreeMap` and `HashSet`; texts are lists of bytes.
-- - Core/Types, Core/Error: crates/vraftls-core/src/types.rs and error.rs. A newtype over `u64`
--   is its number; sums on `u64` wrap, as in a release build.
-- - Core/Config: crates/vraftls-core/src/config.rs.
-- - Vfs/VfsPath, Vfs/FileContent, Vfs/LineEnding, Vfs/VfsFile, Vfs/Commands:
--   crates/vraftls-vfs/src/path.rs, file.rs and commands.rs. `std::path::Path::components` is modelled as its
--   documentation says for Unix paths.
-- - Vfs/Store: crates/vraftls-vfs/src/vfs.rs, `Vfs::apply` with the five commands behind it and
--   the queries. `Vfs/Store/Reference` is the plain table of paths, contents and versions that
--   it implements; the other children hold its invariant, its events and its history.
-- - Raft/Types, Raft/StateMachine: crates/vraftls-raft/src/types.rs and state_machine.rs, which
--   passes each entry of the log to `Vfs.Store.apply`, builds snapshots, and installs them by
--   commands on the file system.
-- - Raft/RocksDb, Raft/Storage: crates/vraftls-raft/src/storage.rs, the log of a node with its
--   cache, and the vote, the committed and the last purged id. `Raft/Storage/Calls` is the map
--   from indexes to entries that it implements; `Raft/Storage/Restart` opens the database again.
-- - Raft/Network: crates/vraftls-raft/src/network.rs, the calls on another node over HTTP.
-- - Cache/Invalidation: crates/vraftls-cache/src/invalidation.rs.
-- - Cluster/Membership, Cluster/Metadata, Cluster/Failure: the files of those names under
--   crates/vraftls-cluster/src.
-- - Lsp/Router, Lsp/Gateway: crates/vraftls-lsp/src/router.rs, and the notifications about
--   documents of gateway.rs, which stores opened texts by `Vfs.Store.apply` and forwards to
--   language servers, and in `Lsp/Gateway/Requests` its requests about a document, which call the
--   methods of a proxy in `Lsp/Proxy/Methods`.
-- - Lsp/Framing, Lsp/Proxy, Lsp/Pool: crates/vraftls-lsp/src/proxy.rs: the messages on a pipe
--   and the reader of them; the requests of a proxy, each in the steps between which others run,
--   with `Lsp/Proxy/Steps` as the relation from one session to the next; and the pool of
--   servers.
--
-- State is a record that each operation takes and returns. A method with several calls has a
-- data type of calls and a `run` over a list of them where its theorems speak of any history.
--
-- Parameters: `Env` holds the hash of a content (`DefaultHasher`, 64 bits) and what the clock
-- shows at its n-th reading; `OpenRaft` holds log ids and memberships; `Codec` holds how
-- serde_json writes and reads a snapshot, with the hypothesis `IsLawful`, that what is written
-- is read back; `LspTypes` holds addresses of documents, versions and edits, and which
-- languages have a server; a socket address and an answer of a node are elements of any type.
-- `RocksDb` holds the calls on a database, each of which may fail, with the hypothesis
-- `IsLawful`, what its documentation says of keys and ranges; `Formats` holds how votes, log
-- ids and entries are written, with `IsSerde`, that what is written is read back; `Json` holds
-- the values of serde_json; `send` is the HTTP client, `ask` what `request` of the proxy of a
-- language returns; `is_utf8` says which bytes are a `String`, with the hypothesis `ascii`,
-- that bytes below 128 are. `read_line` and `read_exact` of tokio are modelled as their
-- documentation says, as those of the standard library, over all bytes that come in until the
-- pipe ends, and `trim` at the white space of ASCII. How a write to a pipe goes, what a
-- process that is spawned gives, whether it can be killed, and when an answer comes or a time
-- is over are arguments of the steps; `new` of the log storage takes whether it runs inside a
-- runtime of tokio, where `blocking_write` panics. The iterator of `get_log_state` may stand
-- on an error, which the code does not ask for.
--
-- Bounds and fuel: ids and versions are below 2 ^ 64, and where a theorem needs that a counter
-- does not wrap, it says so. The loops of the reader of a pipe take a byte at least in each
-- round, so the bytes that there are give fuel enough, as `read_responses_ends` says. The other
-- loop without a structural measure is the worklist of `transitive_dependents`: its fuel is one
-- more than the number of recorded dependents, each round takes one file from the stack, and
-- each file is pushed at most once after the first, so the fuel is enough on every graph, as its
-- theorem says.
--
-- Two operations of the log storage do not compile as they stand and are modelled as they are
-- meant: in `purge`, what `split_off` returns becomes the cache; in `try_get_log_entries`, which
-- drops the guard of the cache inside its loop, the cache is looked up in every round.
--
-- Not modelled: calls of the file system, of the Raft storage and of the tables at the same
-- time (there each method runs alone; the writers of the dependency graph run lock by lock in
-- Cache/Invalidation/Interleaved, and the requests of a proxy step by step), a request that is
-- dropped before it ends, the conversion of an answer by `from_value`, whose failure is
-- another `internal_error`, the HTTP client, `initialize` of the gateway, the cache of values
-- (one call of moka per method), partition keys made by a hash, service discovery, and the
-- binaries.
pub mod Prelude
pub mod Core
pub mod Vfs
pub mod Raft
pub mod Cache
pub mod Cluster
pub mod Lsp
