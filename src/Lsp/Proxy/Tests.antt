-- ===== src/Lsp/Proxy/Tests.antt =====
-- The theorems about crates/vraftls-lsp/src/proxy.rs at small runs, with values that are texts: an
-- answer is its id and its result.
use vraftls.Prelude.{
  ℕ, ◌<◌, ◌≤◌, ◌≡◌, ◌≢◌, refl, ◌↔◌, Bool, true, false, ◌⊎◌, Option, none, some, List, [], ◌∷◌, ◌++◌,
  ◌+◌, Text, codes, length, All, nat_eq, list_eq, arith, ◌==◌, if◌then◌else◌,
}
use mathlib.Core.Option
use vraftls.Prelude.Map
use vraftls.Core.Types.{language_server_command, rust, go, u64_mod}
use vraftls.Lsp.Json.{Json}
use vraftls.Lsp.Framing.{
  frame, read_header, read_contents, read_responses, returned, unfinished, read_message,
}
use vraftls.Lsp.Framing.Streams.{frames, read_responses-frames, read_responses_ends}
use vraftls.Lsp.Proxy.{
  Session, waiting, finished, whole, begin_request, write_request, receive, finish, expire, child,
  shutdown,
}
use vraftls.Lsp.Proxy.Steps.{
  begins, writes, receives, finishes, Reaches, here, more, spawned, id_of, answers, IsOpen,
}
use vraftls.Lsp.Proxy.Pending.Run.{reaches-pending}
use vraftls.Lsp.Proxy.Answers.{finished_answer, answered_request, expire-finish}
use vraftls.Lsp.Proxy.Sent.{IsMessage, AreWhole, read_responses-sent}
use vraftls.Lsp.Pool
use vraftls.Lsp.Pool.{
  LanguageServerPool, PoolResult, server, language_eq, add, shutdown_all, Parting,
}
use vraftls.Lsp.Pool.Calls.{Runs, IsSpared, Call, getting, run, shutdown_all-run}
use vraftls.Lsp.Pool.Started.{add-race}

abbrev field_of : Text → Text → Option Text
field_of name [] = none
field_of name (id ∷ result) = if name == codes "id" then some (id ∷ []) else some result

abbrev number_of : Text → Option ℕ
number_of [] = none
number_of (n ∷ cs) = some n

abbrev json : Json
json = record {
  Value = Text;
  null = [];
  string = λ s. s;
  number = λ n. n ∷ [];
  object = λ fields. [];
  to_string = some;
  from_slice = some;
  field = field_of;
  as_i64 = number_of;
}

abbrev any : Text → Bool
any s = true

read_responses_ends_example :
    (read_header any 2 none (10 ∷ []) ≢ unfinished)
    × (read_header any 2 none (10 ∷ []) ≡ read_header any 2 none (10 ∷ []))
    × ((contents : List Text) × (read_responses any (10 ∷ []) ≡ some contents)
        × (read_contents any 2 (10 ∷ []) ≡ some contents))
read_responses_ends_example = read_responses_ends any 2 none (10 ∷ []) (omega arith)

nothing : read_message any [] ≡ returned
unfolding read_message
nothing = refl

read_responses-frames_example :
    read_responses any (frames (codes "{}" ∷ codes "[1]" ∷ []) ++ [])
    ≡ some (codes "{}" ∷ codes "[1]" ∷ [])
read_responses-frames_example =
    read_responses-frames any (λ s h. refl) (codes "{}" ∷ codes "[1]" ∷ []) [] (omega arith) nothing

-- a session with one request that waits
abbrev start : Session json
start = spawned json rust (some [])

abbrev asked : Session json
asked = begin_request json (codes "hover") [] start

abbrev sent : Session json
sent = write_request json whole 0 asked

abbrev answered : Session json
answered = receive json (1 ∷ 42 ∷ []) sent

abbrev ended : Session json
ended = finish json 0 answered

abbrev to_sent : Reaches json start sent
to_sent =
    more start asked sent (begins (codes "hover") [] start)
      (more asked sent sent (writes whole 0 asked) (here sent))

to_ended : Reaches json start ended
to_ended = more start asked ended (begins (codes "hover") [] start) (
    more asked sent ended (writes whole 0 asked) (
      more sent answered ended (receives (1 ∷ 42 ∷ []) sent)
        (more answered ended ended (finishes 0 answered) (here ended))))

begun_once : sent.begun ≤ u64_mod
unfolding write_request begin_request spawned Map.get
begun_once = omega arith

waits : Map.get 0 sent.requests ≡ some (waiting 1)
unfolding write_request begin_request spawned Map.get
waits = refl

no_answer : Map.get 0 sent.channels ≡ none
unfolding write_request begin_request spawned Map.get
no_answer = refl

bears : answers json (1 ∷ 42 ∷ []) ≡ some (id_of 0)
unfolding answers id_of Option.bind
bears = refl

returns : Map.get 0 ended.requests ≡ some (finished (some (42 ∷ [])))
unfolding write_request begin_request receive finish spawned Map.get Option.bind
returns = refl

finished_answer_example :
    (answer : Text) × (Map.get 0 ended.channels ≡ some answer)
    × (answers json answer ≡ some (id_of 0))
    × (field_of (codes "result") answer ≡ some (42 ∷ []))
finished_answer_example = finished_answer json rust (some []) ended 0 (42 ∷ []) to_ended returns

reaches-pending_example :
    (Map.get 1 sent.proxy.pending ≡ some 0)
    ↔ ((1 ≡ id_of 0) × (Map.get 0 sent.channels ≡ none) × IsOpen json (Map.get 0 sent.requests))
reaches-pending_example = reaches-pending json rust (some []) sent 1 0 to_sent begun_once

answered_request_example :
    Map.get 0 (finish json 0 (receive json (1 ∷ 42 ∷ []) sent)).requests
    ≡ some (finished (some (42 ∷ [])))
answered_request_example =
    answered_request json rust (some []) sent 0 1 (1 ∷ 42 ∷ []) (1 ∷ 42 ∷ []) to_sent begun_once
      waits no_answer refl bears

expire-finish_example :
    ((result : Option Text) × (Map.get 0 (expire json 0 (finish json 0 sent)).requests
        ≡ some (finished result)))
    × (Map.get (id_of 0) (expire json 0 (finish json 0 sent)).proxy.pending ≢ some 0)
    × (Map.get 1 (expire json 0 (finish json 0 sent)).requests ≡ Map.get 1 sent.requests)
expire-finish_example = expire-finish json rust (some []) sent 0 1 1 to_sent waits (omega arith)

all_written : AreWhole json start sent to_sent
all_written = (tt, (refl, tt))

on_pipe : sent.proxy.stdin ≡ some (frame [])
unfolding write_request begin_request spawned Map.get
on_pipe = refl

short : length (frame []) < u64_mod
unfolding frame
short = omega arith

served : language_server_command rust ≡ some (codes "rust-analyzer")
unfolding language_server_command
served = refl

not_started : Map.get rust (run json [] (Pool.new json)).servers ≡ none
unfolding run Pool.new Map.get
not_started = refl

read_responses-sent_example :
    (ms : List Text) × (read_responses any (frame []) ≡ some ms)
    × (frames ms ≡ frame [])
    × All (IsMessage json) ms
read_responses-sent_example =
    read_responses-sent json any (λ s h. refl) rust sent to_sent (frame []) all_written on_pipe
      short

-- the process of the one server cannot be killed
abbrev parting : ℕ → Parting
parting n = record { asked = whole; answer = none; told = whole; killing = false }

abbrev calls : List (Call json)
calls = getting rust (child none) ∷ []

started-Runs : Runs json 0 (shutdown_all json parting (run json calls (Pool.new json)))
unfolding run Pool.new shutdown_all shutdown
started-Runs = (_, refl, refl)

shutdown_all-run_example : IsSpared json 0 calls ⊎ ((parting 0).killing ≡ false)
shutdown_all-run_example = shutdown_all-run json calls parting 0 started-Runs

abbrev empty : LanguageServerPool json
empty = run json [] (Pool.new json)

abbrev one : PoolResult × LanguageServerPool json
one = add json rust (child none) empty

abbrev two : PoolResult × LanguageServerPool json
two = add json rust (child none) one.1

add-race_example :
    (one.0 ≡ server empty.started)
    × (two.0 ≡ server (empty.started + 1))
    × (Map.get rust two.1.servers ≡ some (empty.started + 1))
    × (Map.get go two.1.servers ≢ some empty.started)
    × Runs json empty.started (shutdown_all json parting two.1)
add-race_example =
    add-race json [] rust go (codes "rust-analyzer") none none parting served not_started
