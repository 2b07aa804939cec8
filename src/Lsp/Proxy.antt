-- ===== src/Lsp/Proxy.antt =====
-- crates/vraftls-lsp/src/proxy.rs: the proxy of a language server. A request runs in steps, between
-- which other requests and the reader of the pipe run: it begins, it writes its message, and it
-- waits for its answer. The requests of a proxy are numbered from 0 as they begin, and the channel
-- of a request has its number.
pub mod Steps
pub mod Valid
pub mod Pending
pub mod Methods
pub mod Answers
pub mod Sent
mod Tests
use vraftls.Prelude.{
  ℕ, ◌+◌, ◌%◌, ◌≡◌, Bool, true, false, Option, none, some, List, [], ◌∷◌, ◌++◌, Text, codes, take,
  nat_eq,
}
use mathlib.Core.Option
use vraftls.Prelude.Map
use vraftls.Prelude.Map.{Map}
use vraftls.Core.Types.{LanguageId, language_server_command, u64_mod}
use vraftls.Lsp.Json.{Json}
use vraftls.Lsp.Framing.{frame}

-- a process that was spawned
pub data Child : Type 0 where
  running killed : Child

-- `stdin` is what has been written to the pipe, and `next_id` the 64 bits of an `i64`.
pub record LanguageServerProxy : Type 0 where
  pub language : LanguageId
  pub process : Option Child
  pub stdin : Option Text
  pub pending : Map ℕ ℕ
  pub next_id : ℕ
  pub initialized : Bool

-- what `Command::spawn` gives: a process, whose pipe may be missing, or an error
pub data Spawned : Type 0 where
  child : Option Text → Spawned
  refused : Text → Spawned

pub data SpawnError : Type 0 where
  unsupported_language : LanguageId → SpawnError
  language_server : Text → Text → SpawnError

pub data SpawnResult : Type 0 where
  proxy : LanguageServerProxy → SpawnResult
  failed : SpawnError → SpawnResult

-- where a request stands, with its id and the message that it has still to write; at the end, the
-- value that it returns once it is converted by `from_value`, or none for `internal_error`
pub data Phase (j : Json) : Type 0 where
  writing : ℕ → Text → Phase j
  waiting : ℕ → Phase j
  finished : Option j.Value → Phase j

-- a proxy with its requests, and what has been sent on their channels
pub record Session (j : Json) : Type 0 where
  pub proxy : LanguageServerProxy
  pub begun : ℕ
  pub requests : Map ℕ (Phase j)
  pub channels : Map ℕ j.Value

-- what comes of writing to the pipe: all is written, or an error after some bytes
pub data Written : Type 0 where
  whole : Written
  broken : ℕ → Written

-- the proxy of a process that was started
unfoldable pub new : LanguageId → Option Text → LanguageServerProxy
new language stdin = record {
  language = language;
  process = some running;
  stdin = stdin;
  pending = [];
  next_id = 1;
  initialized = false;
}

unfoldable pub spawn : LanguageId → Spawned → SpawnResult
unfolding new language_server_command
spawn lang outcome = elim (language_server_command lang) [
  | none ↦ failed (unsupported_language lang)
  | some cmd ↦ elim outcome [
    | child stdin ↦ proxy (new lang stdin)
    | refused e ↦ failed (language_server cmd e)
  ]
]

-- `child.kill()`, whose error is dropped: whether it succeeds is the argument
unfoldable pub kill : Bool → LanguageServerProxy → LanguageServerProxy
kill false p = p
kill true p = elim p.process [ none ↦ p | some _ ↦ record p { process = some killed } ]

unfoldable pub write_all : Written → Text → Text → Text
write_all whole message bytes = bytes ++ message
write_all (broken n) message bytes = bytes ++ take n message

module _ (j : Json) where
  unfoldable pub request_value : ℕ → Text → j.Value → j.Value
  request_value id method params = j.object (
      (codes "jsonrpc", j.string (codes "2.0"))
      ∷ (codes "id", j.number id)
      ∷ (codes "method", j.string method)
      ∷ (codes "params", params)
      ∷ [])

  unfoldable pub notification_value : Text → j.Value → j.Value
  notification_value method params = j.object (
      (codes "jsonrpc", j.string (codes "2.0"))
      ∷ (codes "method", j.string method)
      ∷ (codes "params", params)
      ∷ [])

  -- `request` to its first wait
  unfoldable pub begin_request : Text → j.Value → Session j → Session j
  unfolding request_value frame Map.insert
  begin_request method params s =
      let id = s.proxy.next_id in
      let taken = record s.proxy { next_id = (id + 1) % u64_mod } in
      elim (j.to_string (request_value id method params)) [
        | none ↦ record s {
          proxy = taken;
          begun = s.begun + 1;
          requests = Map.insert s.begun (finished none) s.requests;
        }
        | some content ↦ record s {
          proxy = record taken { pending = Map.insert id s.begun s.proxy.pending };
          begun = s.begun + 1;
          requests = Map.insert s.begun (writing id (frame content)) s.requests;
        }
      ]

  -- the request behind the lock of the pipe
  unfoldable pub write_bytes : Written → Text → ℕ → ℕ → Text → Session j → Session j
  unfolding write_all Map.insert Map.remove
  write_bytes whole bytes n id message s = record s {
    proxy = record s.proxy { stdin = some (write_all whole message bytes) };
    requests = Map.insert n (waiting id) s.requests;
  }
  write_bytes (broken m) bytes n id message s = record s {
    proxy = record s.proxy {
      stdin = some (write_all (broken m) message bytes);
      pending = Map.remove id s.proxy.pending;
    };
    requests = Map.insert n (finished none) s.requests;
  }

  unfoldable pub write_message : Written → ℕ → ℕ → Text → Session j → Session j
  unfolding write_bytes Map.insert
  write_message outcome n id message s = elim s.proxy.stdin [
    | none ↦ record s { requests = Map.insert n (waiting id) s.requests }
    | some bytes ↦ write_bytes outcome bytes n id message s
  ]

  unfoldable pub write_request : Written → ℕ → Session j → Session j
  unfolding write_message Map.get
  write_request outcome n s = elim (Map.get n s.requests) [
    | none ↦ s
    | some (writing id message) ↦ write_message outcome n id message s
    | some (waiting id) ↦ s
    | some (finished result) ↦ s
  ]

  -- what `read_responses` does with a content
  unfoldable pub receive : Text → Session j → Session j
  unfolding Map.get Map.insert Map.remove
  receive content s = elim (j.from_slice content) [
    | none ↦ s
    | some json ↦ elim (Option.bind (j.field (codes "id") json) j.as_i64) [
      | none ↦ s
      | some id ↦ elim (Map.get id s.proxy.pending) [
        | none ↦ s
        | some n ↦ record s {
          proxy = record s.proxy { pending = Map.remove id s.proxy.pending };
          channels = Map.insert n json s.channels;
        }
      ]
    ]
  ]

  -- The answer is there: the value of `result`, none if there is an error or neither.
  unfoldable pub finish : ℕ → Session j → Session j
  unfolding Map.get Map.insert
  finish n s = elim (Map.get n s.requests) [
    | none ↦ s
    | some (writing id message) ↦ s
    | some (finished result) ↦ s
    | some (waiting id) ↦ elim (Map.get n s.channels) [
      | none ↦ s
      | some response ↦ record s {
        requests = Map.insert n (finished (j.field (codes "result") response)) s.requests;
      }
    ]
  ]

  -- No answer is there after 30 seconds.
  unfoldable pub expire : ℕ → Session j → Session j
  unfolding Map.get Map.insert Map.remove
  expire n s = elim (Map.get n s.requests) [
    | none ↦ s
    | some (writing id message) ↦ s
    | some (finished result) ↦ s
    | some (waiting id) ↦ elim (Map.get n s.channels) [
      | some response ↦ s
      | none ↦ record s {
        proxy = record s.proxy { pending = Map.remove id s.proxy.pending };
        requests = Map.insert n (finished none) s.requests;
      }
    ]
  ]

  unfoldable pub notify : Written → Text → j.Value → LanguageServerProxy → LanguageServerProxy
  unfolding notification_value write_all frame
  notify outcome method params p = elim (j.to_string (notification_value method params)) [
    | none ↦ p
    | some content ↦ elim p.stdin [
      | none ↦ p
      | some bytes ↦ record p { stdin = some (write_all outcome (frame content) bytes) }
    ]
  ]

  unfoldable pub receive_any : Option Text → Session j → Session j
  unfolding receive
  receive_any none s = s
  receive_any (some content) s = receive content s

  -- `shutdown`, with the answer that comes in before its time is over, if one does, and whether the
  -- process can be killed
  unfoldable pub shutdown : Written → Option Text → Written → Bool → Session j → Session j
  unfolding begin_request write_request receive_any finish expire notify kill
  shutdown asked answer told killing s =
      let n = s.begun in
      let waited = write_request asked n (begin_request (codes "shutdown") j.null s) in
      let ended = expire n (finish n (receive_any answer waited)) in
      record ended { proxy = kill killing (notify told (codes "exit") j.null ended.proxy) }
