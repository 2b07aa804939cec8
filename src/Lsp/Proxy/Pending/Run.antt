-- ===== src/Lsp/Proxy/Pending/Run.antt =====
-- The pending requests of every session that a proxy reaches (crates/vraftls-lsp/src/proxy.rs).
use vraftls.Prelude.{
  ℕ, ◌+◌, ◌≤◌, ◌≡◌, refl, ap, ◌∙◌, ◌↔◌, inl, inr, Option, none, some, Text, codes, nat_eq, arith,
  Option-cases,
}
use mathlib.Core.Option
use vraftls.Prelude.Map
use vraftls.Core.Types.{LanguageId, u64_mod}
use vraftls.Lsp.Json.{Json}
use vraftls.Lsp.Proxy.{
  LanguageServerProxy, writing, waiting, finished, Session, Written, whole, broken,
  notification_value, begin_request, write_bytes, write_message, write_request, receive, finish,
  expire, notify,
}
use vraftls.Lsp.Proxy.Steps.{
  id_of, answers, Step, begins, writes, receives, finishes, expires, notifies, Reaches, here, more,
  spawned, IsOpen, IsValid,
}
use vraftls.Lsp.Proxy.Valid.Run.{reaches-IsValid, Step-IsValid, spawned-IsValid}
use vraftls.Lsp.Proxy.Pending.{
  IsMatched, begin_request-IsMatched, ended-IsMatched, moved-IsMatched, open_begun, remove_other,
  write_request-IsMatched,
}

module _ (j : Json) where
  delivered-IsMatched :
      (s : Session j) (id n : ℕ) (json : j.Value)
      → IsValid j s
      → s.begun ≤ u64_mod
      → IsMatched j s
      → Map.get id s.proxy.pending ≡ some n
      → IsMatched j (record s {
        proxy = record s.proxy { pending = Map.remove id s.proxy.pending };
        channels = Map.insert n json s.channels;
      })
  delivered-IsMatched s id n json v small h found m opens quiet =
      let (own, silent, opened) = v.matched id n found in
      remove_other j s id n m v small h own (open_begun j s n v opened)
        (λ q. ground (arith, q, quiet, Map.get-insert n m json s.channels)) opens
        (ground (arith, quiet, Map.get-insert n m json s.channels))

  receive-IsMatched :
      (content : Text) (s : Session j)
      → IsValid j s
      → s.begun ≤ u64_mod
      → IsMatched j s
      → IsMatched j (receive j content s)
  unfolding receive answers Option.bind
  receive-IsMatched content s v small h = elim (Option-cases (j.from_slice content)) [
    | inl p ↦ rw (p, receive) h
    | inr (json, p) ↦ elim (Option-cases (answers j json)) [
      | inl q ↦ rw (p, q, receive, answers) h
      | inr (id, q) ↦ elim (Option-cases (Map.get id s.proxy.pending)) [
        | inl u ↦ rw (p, q, u, receive) h
        | inr (n, u) ↦ rw (p, q, u, receive) (delivered-IsMatched s id n json v small h u)
      ]
    ]
  ]

  finish-IsMatched : (n : ℕ) (s : Session j) → IsMatched j s → IsMatched j (finish j n s)
  unfolding finish
  finish-IsMatched n s h = elim (Option-cases (Map.get n s.requests)) [
    | inl p ↦ rw (p, finish) h
    | inr (writing id message, p) ↦ rw (p, finish) h
    | inr (finished result, p) ↦ rw (p, finish) h
    | inr (waiting id, p) ↦ elim (Option-cases (Map.get n s.channels)) [
      | inl q ↦ rw (p, q, finish) h
      | inr (json, q) ↦
          rw (p, q, finish)
            (moved-IsMatched j s s.proxy n (finished (j.field (codes "result") json))
              (λ o q. absurd o) (λ m ne o q. h m o q))
    ]
  ]

  expire-IsMatched :
      (n : ℕ) (s : Session j)
      → IsValid j s
      → s.begun ≤ u64_mod
      → IsMatched j s
      → IsMatched j (expire j n s)
  unfolding expire
  expire-IsMatched n s v small h = elim (Option-cases (Map.get n s.requests)) [
    | inl p ↦ rw (p, expire) h
    | inr (writing id message, p) ↦ rw (p, expire) h
    | inr (finished result, p) ↦ rw (p, expire) h
    | inr (waiting id, p) ↦ elim (Option-cases (Map.get n s.channels)) [
      | inr (json, q) ↦ rw (p, q, expire) h
      | inl q ↦
          rw (p, q, expire)
            (ended-IsMatched j s s.proxy.stdin n id v small h (v.standing n (waiting id) p)
              (rw (p) tt))
    ]
  ]

  notify-pending :
      (outcome : Written) (method : Text) (params : j.Value) (p : LanguageServerProxy)
      → (notify j outcome method params p).pending ≡ p.pending
  unfolding notify
  notify-pending outcome method params p =
      elim (Option-cases (j.to_string (notification_value j method params))) [
        | inl e ↦ rw (e, notify) refl
        | inr (content, e) ↦ elim (Option-cases p.stdin) [
          | inl q ↦ rw (e, q, notify) refl
          | inr (bytes, q) ↦ rw (e, q, notify) refl
        ]
      ]

  begun-write_request :
      (outcome : Written) (n : ℕ) (s : Session j) → (write_request j outcome n s).begun ≡ s.begun
  unfolding write_request write_message write_bytes
  begun-write_request whole n s = ground arith
  begun-write_request (broken m) n s = ground arith

  begun-begin_request :
      (method : Text) (params : j.Value) (s : Session j)
      → (begin_request j method params s).begun ≡ s.begun + 1
  unfolding begin_request
  begun-begin_request method params s = ground arith

  begun-receive : (content : Text) (s : Session j) → (receive j content s).begun ≡ s.begun
  unfolding receive Option.bind
  begun-receive content s = ground arith

  begun-finish : (n : ℕ) (s : Session j) → (finish j n s).begun ≡ s.begun
  unfolding finish
  begun-finish n s = ground arith

  begun-expire : (n : ℕ) (s : Session j) → (expire j n s).begun ≡ s.begun
  unfolding expire
  begun-expire n s = ground arith

  Step-begun : (s t : Session j) → Step j s t → s.begun ≤ t.begun
  Step-begun s t (begins method params _) = omega (arith, begun-begin_request method params s)
  Step-begun s t (writes outcome n _) = omega (arith, begun-write_request outcome n s)
  Step-begun s t (receives content _) = omega (arith, begun-receive content s)
  Step-begun s t (finishes n _) = omega (arith, begun-finish n s)
  Step-begun s t (expires n _) = omega (arith, begun-expire n s)
  Step-begun s t (notifies outcome method params _) = omega arith

  Reaches-begun : (s t : Session j) → Reaches j s t → s.begun ≤ t.begun
  Reaches-begun s _ (here _) = omega arith
  Reaches-begun s u (more _ t _ step steps) =
      omega (arith, Step-begun s t step, Reaches-begun t u steps)

  Step-IsMatched :
      (s t : Session j)
      → Step j s t
      → IsValid j s
      → t.begun ≤ u64_mod
      → IsMatched j s
      → IsMatched j t
  Step-IsMatched s t (begins method params _) v small h =
      begin_request-IsMatched j method params s v
        (omega (arith, begun-begin_request method params s)) h
  Step-IsMatched s t (writes outcome n _) v small h =
      write_request-IsMatched j outcome n s v (omega (arith, begun-write_request outcome n s)) h
  Step-IsMatched s t (receives content _) v small h =
      receive-IsMatched content s v (omega (arith, begun-receive content s)) h
  Step-IsMatched s t (finishes n _) v small h = finish-IsMatched n s h
  Step-IsMatched s t (expires n _) v small h =
      expire-IsMatched n s v (omega (arith, begun-expire n s)) h
  Step-IsMatched s t (notifies outcome method params _) v small h =
      λ n o q. ap (Map.get (id_of n)) (notify-pending outcome method params s.proxy) ∙ h n o q

  reaches-IsMatched :
      (s t : Session j)
      → Reaches j s t
      → IsValid j s
      → t.begun ≤ u64_mod
      → IsMatched j s
      → IsMatched j t
  reaches-IsMatched s _ (here _) v small h = h
  reaches-IsMatched s u (more _ t _ step steps) v small h =
      reaches-IsMatched t u steps (Step-IsValid j s t step v) small
        (Step-IsMatched s t step v (omega (arith, small, Reaches-begun t u steps)) h)

  -- Whatever requests, notifications, contents and timeouts come in whatever order to a new proxy,
  -- and however the writing to its pipe goes: as long as no more than 2 ^ 64 requests have begun,
  -- exactly those are pending, each under its own id, that have not ended and for which no answer
  -- has come in.
  pub reaches-pending :
      (language : LanguageId) (stdin : Option Text) (t : Session j) (id n : ℕ)
      → Reaches j (spawned j language stdin) t
      → t.begun ≤ u64_mod
      → (Map.get id t.proxy.pending ≡ some n)
        ↔ ((id ≡ id_of n) × (Map.get n t.channels ≡ none) × IsOpen j (Map.get n t.requests))
  unfolding spawned Map.get
  reaches-pending language stdin t id n steps small =
      let v =
        reaches-IsValid j (spawned j language stdin) t steps (spawned-IsValid j language stdin) in
      let h =
        reaches-IsMatched (spawned j language stdin) t steps (spawned-IsValid j language stdin)
          small (λ m o q. absurd o) in
      (v.matched id n, λ (own, quiet, opens). rw (own) (h n opens quiet))
