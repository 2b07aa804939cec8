-- ===== src/Lsp/Proxy/Steps.antt =====
-- How a proxy (crates/vraftls-lsp/src/proxy.rs) gets from one session to the next, and the
-- invariant that ties the pending requests to their ids.
use vraftls.Prelude.{ℕ, ◌+◌, ◌%◌, ◌≤◌, ◌≡◌, Option, none, some, [], Text, codes, nat_eq}
use mathlib.Core.Option
use vraftls.Prelude.Map
use vraftls.Prelude.Map.{Map, map_laws}
use vraftls.Core.Types.{LanguageId, u64_mod}
use vraftls.Lsp.Json.{Json}
use vraftls.Lsp.Proxy
use vraftls.Lsp.Proxy.{
  LanguageServerProxy, Phase, writing, waiting, finished, Session, Written, whole, broken, Child,
  running, request_value, notification_value, begin_request, write_bytes, write_message,
  write_request, receive, finish, expire, notify,
}

-- the id of the request with a number: the first is 1
unfoldable pub id_of : ℕ → ℕ
id_of n = (n + 1) % u64_mod

module _ (j : Json) where
  unfoldable pub answers : j.Value → Option ℕ
  answers json = Option.bind (j.field (codes "id") json) j.as_i64

  -- what may happen next, in any order
  pub data Step : Session j → Session j → Type 0 where
    begins :
        (method : Text) (params : j.Value) (s : Session j)
        → Step s (begin_request j method params s)
    writes : (outcome : Written) (n : ℕ) (s : Session j) → Step s (write_request j outcome n s)
    receives : (content : Text) (s : Session j) → Step s (receive j content s)
    finishes : (n : ℕ) (s : Session j) → Step s (finish j n s)
    expires : (n : ℕ) (s : Session j) → Step s (expire j n s)
    notifies :
        (outcome : Written) (method : Text) (params : j.Value) (s : Session j)
        → Step s (record s { proxy = notify j outcome method params s.proxy })

  pub data Reaches : Session j → Session j → Type 0 where
    here : (s : Session j) → Reaches s s
    more : (s t u : Session j) → Step s t → Reaches t u → Reaches s u

  -- a session of a proxy that was just spawned
  unfoldable pub spawned : LanguageId → Option Text → Session j
  unfolding Proxy.new
  spawned language stdin = record {
    proxy = Proxy.new language stdin;
    begun = 0;
    requests = [];
    channels = [];
  }

  -- a request that has not ended has its id, and one that has ended with a value has the value of
  -- an answer on its channel
  abbrev pub IsStanding : ℕ → Phase j → Option j.Value → Type 0
  IsStanding n (writing id message) sent = id ≡ id_of n
  IsStanding n (waiting id) sent = id ≡ id_of n
  IsStanding n (finished none) sent = Unit
  IsStanding n (finished (some value)) sent =
      (json : j.Value) × (sent ≡ some json) × (j.field (codes "result") json ≡ some value)

  -- the request has not ended
  abbrev pub IsOpen : Option (Phase j) → Type 0
  IsOpen none = ⊥
  IsOpen (some (writing id message)) = Unit
  IsOpen (some (waiting id)) = Unit
  IsOpen (some (finished result)) = ⊥

  pub record IsValid (s : Session j) : Type 0 where
    pub next : s.proxy.next_id ≡ id_of s.begun
    pub fresh :
        (n : ℕ) → s.begun ≤ n → (Map.get n s.requests ≡ none) × (Map.get n s.channels ≡ none)
    pub standing :
        (n : ℕ) (phase : Phase j)
        → Map.get n s.requests ≡ some phase
        → IsStanding n phase (Map.get n s.channels)
    pub matched :
        (id n : ℕ)
        → Map.get id s.proxy.pending ≡ some n
        → (id ≡ id_of n) × (Map.get n s.channels ≡ none) × IsOpen (Map.get n s.requests)
    pub answered :
        (n : ℕ) (json : j.Value) → Map.get n s.channels ≡ some json → answers json ≡ some (id_of n)
