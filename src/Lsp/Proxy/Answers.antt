-- ===== src/Lsp/Proxy/Answers.antt =====
-- What the requests of a proxy (crates/vraftls-lsp/src/proxy.rs) end with.
use vraftls.Prelude.{
  ℕ, ◌≤◌, ◌≡◌, ◌≢◌, refl, ap, ◌∙◌, inl, inr, Option, none, some, Text, codes, nat_eq, arith,
  Option-cases,
}
use mathlib.Core.Option
use vraftls.Prelude.Map
use vraftls.Core.Types.{LanguageId, u64_mod}
use vraftls.Lsp.Json.{Json}
use vraftls.Lsp.Proxy.{waiting, finished, Session, receive, finish, expire}
use vraftls.Lsp.Proxy.Steps.{id_of, answers, Reaches, spawned}
use vraftls.Lsp.Proxy.Valid.Run.{reaches-IsValid, spawned-IsValid}
use vraftls.Lsp.Proxy.Pending.Run.{reaches-pending}

module _ (j : Json) where
  -- A request of a proxy that was spawned returns a value only if it is the `result` of an answer
  -- on its own channel that bears its own id, which is its number and 1 in 64 bits. This holds
  -- also when the ids have wrapped.
  pub finished_answer :
      (language : LanguageId) (stdin : Option Text) (t : Session j) (n : ℕ) (value : j.Value)
      → Reaches j (spawned j language stdin) t
      → Map.get n t.requests ≡ some (finished (some value))
      → (json : j.Value) × (Map.get n t.channels ≡ some json)
        × (answers j json ≡ some (id_of n))
        × (j.field (codes "result") json ≡ some value)
  finished_answer language stdin t n value steps done =
      let v =
        reaches-IsValid j (spawned j language stdin) t steps (spawned-IsValid j language stdin) in
      let (json, sent, result) = v.standing n (finished (some value)) done in
      (json, sent, v.answered n json sent, result)

  -- the answer to a request that waits
  receive-finish :
      (s : Session j) (n id : ℕ) (content : Text) (json : j.Value)
      → Map.get n s.requests ≡ some (waiting id)
      → Map.get id s.proxy.pending ≡ some n
      → j.from_slice content ≡ some json
      → answers j json ≡ some id
      → Map.get n (finish j n (receive j content s)).requests
        ≡ some (finished (j.field (codes "result") json))
  unfolding receive finish answers Option.bind
  receive-finish s n id content json waits pends parsed bears =
      rw (parsed, bears, pends, waits, receive, finish, answers)
        (ground (
          arith,
          Map.get-insert n n json s.channels,
          Map.get-insert n n (finished (j.field (codes "result") json)) s.requests,
        ))

  -- A request that has written its message and has no answer yet, in any run of a new proxy of at
  -- most 2 ^ 64 requests, returns the `result` of the next content that bears its id, also if that
  -- content is an error, where it returns an error.
  pub answered_request :
      (language : LanguageId) (stdin : Option Text) (t : Session j) (n id : ℕ) (content : Text)
      (json : j.Value)
      → Reaches j (spawned j language stdin) t
      → t.begun ≤ u64_mod
      → Map.get n t.requests ≡ some (waiting id)
      → Map.get n t.channels ≡ none
      → j.from_slice content ≡ some json
      → answers j json ≡ some (id_of n)
      → Map.get n (finish j n (receive j content t)).requests
        ≡ some (finished (j.field (codes "result") json))
  answered_request language stdin t n id content json steps small waits quiet parsed bears =
      let v =
        reaches-IsValid j (spawned j language stdin) t steps (spawned-IsValid j language stdin) in
      let own : id ≡ id_of n = v.standing n (waiting id) waits in
      let pends =
        (reaches-pending j language stdin t (id_of n) n steps small).1
          (refl, quiet, rw (waits) tt) in
      receive-finish t n id content json waits (rw (own) pends) parsed (rw (own) bears)

  finish-none :
      (s : Session j) (n id : ℕ)
      → Map.get n s.requests ≡ some (waiting id)
      → Map.get n s.channels ≡ none
      → expire j n (finish j n s) ≡ record s {
        proxy = record s.proxy { pending = Map.remove id s.proxy.pending };
        requests = Map.insert n (finished none) s.requests;
      }
  unfolding expire finish
  finish-none s n id waits quiet =
      let same : finish j n s ≡ s = rw (waits, quiet, finish) refl in
      ap (expire j n) same ∙ rw (waits, quiet, expire) refl

  finish-some :
      (s : Session j) (n id : ℕ) (json : j.Value)
      → Map.get n s.requests ≡ some (waiting id)
      → Map.get n s.channels ≡ some json
      → expire j n (finish j n s)
        ≡ record s { requests = Map.insert n (finished (j.field (codes "result") json)) s.requests }
  unfolding expire finish
  finish-some s n id json waits sent =
      let done = finished (j.field (codes "result") json) in
      let at : Map.get n (Map.insert n done s.requests) ≡ some done =
        ground (arith, Map.get-insert n n done s.requests) in
      let same : finish j n s ≡ record s { requests = Map.insert n done s.requests } =
        rw (waits, sent, finish) refl in
      ap (expire j n) same ∙ rw (at, expire) refl

  -- A request of a new proxy that waits ends when its answer is taken or its time is over, whatever
  -- has happened before: it has ended then, it is no longer pending, and any other request
  -- stands where it stood.
  pub expire-finish :
      (language : LanguageId) (stdin : Option Text) (s : Session j) (n m id : ℕ)
      → Reaches j (spawned j language stdin) s
      → Map.get n s.requests ≡ some (waiting id)
      → m ≢ n
      → ((result : Option j.Value) × (Map.get n (expire j n (finish j n s)).requests
            ≡ some (finished result)))
        × (Map.get (id_of n) (expire j n (finish j n s)).proxy.pending ≢ some n)
        × (Map.get m (expire j n (finish j n s)).requests ≡ Map.get m s.requests)
  expire-finish language stdin s n m id steps waits other =
      let v =
        reaches-IsValid j (spawned j language stdin) s steps (spawned-IsValid j language stdin) in
      let own : id ≡ id_of n = v.standing n (waiting id) waits in
      elim (Option-cases (Map.get n s.channels)) [
        | inl quiet ↦ rw (finish-none s n id waits quiet) (
          (none, ground (arith, Map.get-insert n n (finished none) s.requests)),
          (λ p. ground (arith, own, Map.get-remove id (id_of n) s.proxy.pending)),
          ground (arith, other, Map.get-insert n m (finished none) s.requests),
        )
        | inr (json, sent) ↦ rw (finish-some s n id json waits sent) (
          (
            j.field (codes "result") json,
            ground
                (arith, Map.get-insert n n (finished (j.field (codes "result") json)) s.requests),
          ),
          (λ p. ground (arith, (v.matched (id_of n) n p).1, sent)),
          ground (
            arith,
            other,
            Map.get-insert n m (finished (j.field (codes "result") json)) s.requests,
          ),
        )
      ]
