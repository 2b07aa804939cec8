-- ===== src/Lsp/Proxy/Valid.antt =====
-- The invariant of a session (crates/vraftls-lsp/src/proxy.rs) as requests begin and write.
pub mod Run
use vraftls.Prelude.{
  ℕ, ◌+◌, ◌%◌, ◌<◌, ◌≤◌, ◌≡◌, ◌≢◌, refl, sym, ap, ◌∙◌, ◌⊎◌, inl, inr, Bool, true, false, Option,
  none, some, List, [], ◌∷◌, ◌++◌, Text, codes, nat_eq, arith, ◌==◌, ==_iff, Bool-cases,
  if◌then◌else◌, Option-cases,
}
use mathlib.Core.Option
use mathlib.Core.Path.{subst}
use vraftls.Prelude.Map
use vraftls.Prelude.Map.{Map, map_laws}
use vraftls.Core.Types.{LanguageId, u64_mod}
use vraftls.Lsp.Json.{Json}
use vraftls.Lsp.Framing.{frame}
use vraftls.Lsp.Proxy
use vraftls.Lsp.Proxy.{
  LanguageServerProxy, Phase, writing, waiting, finished, Session, Written, whole, broken, Child,
  running, request_value, notification_value, begin_request, write_bytes, write_message,
  write_request, receive, finish, expire, notify,
}
use vraftls.Lsp.Proxy.Steps.{
  IsOpen, IsStanding, IsValid, Reaches, Step, answers, begins, expires, finishes, here, id_of, more,
  notifies, receives, spawned, writes,
}

module _ (j : Json) where
  -- a request that has begun moves on, and requests may stop being pending
  pub moved-IsValid :
      (s : Session j) (p : LanguageServerProxy) (n : ℕ) (phase : Phase j)
      → IsValid j s
      → Map.get n s.requests ≢ none
      → IsStanding j n phase (Map.get n s.channels)
      → p.next_id ≡ s.proxy.next_id
      → ((id m : ℕ) → Map.get id p.pending ≡ some m → Map.get id s.proxy.pending ≡ some m)
      → ((id : ℕ) → Map.get id p.pending ≡ some n → IsOpen j (some phase))
      → IsValid j (record s { proxy = p; requests = Map.insert n phase s.requests })
  moved-IsValid s p n phase v there stands next kept opens = record {
    next = next ∙ v.next;
    fresh =
        λ m h. (ground (arith, Map.get-insert n m phase s.requests, v.fresh m h), (v.fresh m h).1);
    standing = λ m phase' h. elim (Bool-cases (n == m)) [
      | inl e ↦
          let same : n ≡ m = (==_iff n m).0 e in
          let phases : phase ≡ phase' = ground (arith, Map.get-insert n m phase s.requests) in
          rw (← same, ← phases) stands
      | inr e ↦ v.standing m phase' (ground (arith, Map.get-insert n m phase s.requests))
    ];
    matched = λ id m h.
        let (same, quiet, opened) = v.matched id m (kept id m h) in
        (
          same,
          quiet,
          elim (Bool-cases (n == m)) [
            | inl e ↦
                let same : n ≡ m = (==_iff n m).0 e in
                let found : Map.get m (Map.insert n phase s.requests) ≡ some phase =
                  ground (arith, Map.get-insert n m phase s.requests) in
                rw (found) (opens id (rw (same) h))
            | inr e ↦
                let kept' : Map.get m (Map.insert n phase s.requests) ≡ Map.get m s.requests =
                  ground (arith, Map.get-insert n m phase s.requests) in
                rw (kept') opened
          ],
        );
    answered = v.answered;
  }

  next_id_of :
      (s : Session j) (n : ℕ)
      → s.proxy.next_id ≡ id_of n
      → (s.proxy.next_id + 1) % u64_mod ≡ id_of (n + 1)
  unfolding id_of
  next_id_of s n h = omega arith

  -- a request begins
  begun-IsValid :
      (s : Session j) (p : LanguageServerProxy) (phase : Phase j)
      → IsValid j s
      → IsStanding j s.begun phase none
      → p.next_id ≡ (s.proxy.next_id + 1) % u64_mod
      → ((id m : ℕ)
          → Map.get id p.pending ≡ some m
          → (Map.get id s.proxy.pending ≡ some m)
            ⊎ ((id ≡ id_of m) × (m ≡ s.begun) × IsOpen j (some phase)))
      → IsValid j (record s {
        proxy = p;
        begun = s.begun + 1;
        requests = Map.insert s.begun phase s.requests;
      })
  begun-IsValid s p phase v stands next pends =
      let n = s.begun in
      let (absent, quiet) = v.fresh n (omega arith) in
      record {
        next = next ∙ next_id_of s n v.next;
        fresh = λ m h. (
          ground (arith, Map.get-insert n m phase s.requests, v.fresh m (omega arith)),
          (v.fresh m (omega arith)).1,
        );
        standing = λ m phase' h. elim (Bool-cases (n == m)) [
          | inl e ↦
              let same : n ≡ m = (==_iff n m).0 e in
              let phases : phase ≡ phase' = ground (arith, Map.get-insert n m phase s.requests) in
              rw (← same, ← phases, quiet) stands
          | inr e ↦ v.standing m phase' (ground (arith, Map.get-insert n m phase s.requests))
        ];
        matched = λ id m h. elim (pends id m h) [
          | inl old ↦
              let (same, silent, opened) = v.matched id m old in
              let kept : Map.get m (Map.insert n phase s.requests) ≡ Map.get m s.requests =
                ground (arith, Map.get-insert n m phase s.requests) in
              (same, silent, rw (kept) opened)
          | inr (same, new, opened) ↦
              let found : Map.get m (Map.insert n phase s.requests) ≡ some phase =
                ground (arith, Map.get-insert n m phase s.requests) in
              (same, rw (new) quiet, rw (found) opened)
        ];
        answered = v.answered;
      }

  pub begin_request-IsValid :
      (method : Text) (params : j.Value) (s : Session j)
      → IsValid j s
      → IsValid j (begin_request j method params s)
  unfolding begin_request
  begin_request-IsValid method params s v =
      let id = s.proxy.next_id in
      let n = s.begun in
      elim (Option-cases (j.to_string (request_value j id method params))) [
        | inl p ↦
            rw (p, begin_request)
              (begun-IsValid s (record s.proxy { next_id = (id + 1) % u64_mod }) (finished none) v
                tt refl (λ i m h. inl h))
        | inr (content, p) ↦
            rw (p, begin_request)
              (begun-IsValid s
                (record s.proxy {
                  next_id = (id + 1) % u64_mod;
                  pending = Map.insert id n s.proxy.pending;
                })
                (writing id (frame content)) v v.next refl
                (λ i m h. ground (arith, Map.get-insert id i n s.proxy.pending, v.next)))
      ]

  -- a request ends without an answer
  pub ended-IsValid :
      (s : Session j) (stdin : Option Text) (n id : ℕ)
      → IsValid j s
      → Map.get n s.requests ≢ none
      → id ≡ id_of n
      → IsValid j (record s {
        proxy = record s.proxy { stdin = stdin; pending = Map.remove id s.proxy.pending };
        requests = Map.insert n (finished none) s.requests;
      })
  ended-IsValid s stdin n id v there own =
      moved-IsValid s (record s.proxy { stdin = stdin; pending = Map.remove id s.proxy.pending }) n
        (finished none) v there tt refl
        (λ i m h. ground (arith, h, Map.get-remove id i s.proxy.pending))
        (λ i h.
          let old : Map.get i s.proxy.pending ≡ some n =
            ground (arith, h, Map.get-remove id i s.proxy.pending) in
          ground (arith, own, (v.matched i n old).0, h, Map.get-remove id i s.proxy.pending))

  written-IsValid :
      (outcome : Written) (bytes : Text) (n id : ℕ) (message : Text) (s : Session j)
      → IsValid j s
      → Map.get n s.requests ≢ none
      → id ≡ id_of n
      → IsValid j (write_bytes j outcome bytes n id message s)
  unfolding write_bytes
  written-IsValid whole bytes n id message s v there own =
      moved-IsValid s (record s.proxy { stdin = _ }) n (waiting id) v there own refl (λ i m h. h)
        (λ i h. tt)
  written-IsValid (broken m) bytes n id message s v there own =
      ended-IsValid s (some _) n id v there own

  write_message-IsValid :
      (outcome : Written) (n id : ℕ) (message : Text) (s : Session j)
      → IsValid j s
      → Map.get n s.requests ≡ some (writing id message)
      → IsValid j (write_message j outcome n id message s)
  unfolding write_message
  write_message-IsValid outcome n id message s v p =
      let there : Map.get n s.requests ≢ none = λ q. absurd (cc) in
      let own : id ≡ id_of n = v.standing n (writing id message) p in
      elim (Option-cases s.proxy.stdin) [
        | inl q ↦
            rw (q, write_message)
              (moved-IsValid s s.proxy n (waiting id) v there own refl (λ i m h. h) (λ i h. tt))
        | inr (bytes, q) ↦
            rw (q, write_message) (written-IsValid outcome bytes n id message s v there own)
      ]

  pub write_request-IsValid :
      (outcome : Written) (n : ℕ) (s : Session j)
      → IsValid j s
      → IsValid j (write_request j outcome n s)
  unfolding write_request
  write_request-IsValid outcome n s v = elim (Option-cases (Map.get n s.requests)) [
    | inl p ↦ rw (p, write_request) v
    | inr (writing id message, p) ↦
        rw (p, write_request) (write_message-IsValid outcome n id message s v p)
    | inr (waiting id, p) ↦ rw (p, write_request) v
    | inr (finished result, p) ↦ rw (p, write_request) v
  ]
