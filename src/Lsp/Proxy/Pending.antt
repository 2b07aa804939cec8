-- ===== src/Lsp/Proxy/Pending.antt =====
-- The pending requests of a proxy (crates/vraftls-lsp/src/proxy.rs), as long as the ids do not wrap.
pub mod Run
use vraftls.Prelude.{
  ℕ, ◌+◌, ◌%◌, ◌<◌, ◌≤◌, ◌≡◌, ◌≢◌, refl, sym, ap, ◌∙◌, ◌⊎◌, ◌↔◌, inl, inr, Bool, true, false,
  Option, none, some, List, [], ◌∷◌, ◌++◌, Text, codes, nat_eq, arith, Option-cases, ◌==◌, ==_iff,
  Bool-cases, if◌then◌else◌,
}
use mathlib.Core.Option
use mathlib.Core.Path.{subst}
use vraftls.Prelude.Map
use vraftls.Core.Types.{LanguageId, u64_mod}
use vraftls.Lsp.Json.{Json}
use vraftls.Lsp.Framing.{frame}
use vraftls.Lsp.Proxy.{
  LanguageServerProxy, Phase, writing, waiting, finished, Session, Written, whole, broken,
  request_value, notification_value, begin_request, write_bytes, write_message, write_request,
  receive, finish, expire, notify,
}
use vraftls.Lsp.Proxy.Steps.{
  id_of, answers, Step, begins, writes, receives, finishes, expires, notifies, Reaches, here, more,
  spawned, IsOpen, IsValid,
}
use vraftls.Lsp.Proxy.Valid.Run.{reaches-IsValid, Step-IsValid, spawned-IsValid, open_some}

id_of_inj : (m n : ℕ) → m < u64_mod → n < u64_mod → id_of m ≡ id_of n → m ≡ n
unfolding id_of
id_of_inj m n a b h = omega arith

module _ (j : Json) where
  -- a request that has not ended, with nothing on its channel, is pending
  abbrev pub IsMatched : Session j → Type 0
  IsMatched s =
      (n : ℕ)
      → IsOpen j (Map.get n s.requests)
      → Map.get n s.channels ≡ none
      → Map.get (id_of n) s.proxy.pending ≡ some n

  pub open_begun :
      (s : Session j) (n : ℕ) → IsValid j s → IsOpen j (Map.get n s.requests) → n < s.begun
  open_begun s n v o = ground (arith, open_some j (Map.get n s.requests) o, v.fresh n)

  -- `remove` of the id of one request leaves the others
  pub remove_other :
      (s : Session j) (id n m : ℕ)
      → IsValid j s
      → s.begun ≤ u64_mod
      → IsMatched s
      → id ≡ id_of n
      → n < s.begun
      → m ≢ n
      → IsOpen j (Map.get m s.requests)
      → Map.get m s.channels ≡ none
      → Map.get (id_of m) (Map.remove id s.proxy.pending) ≡ some m
  remove_other s id n m v small h own begun other opens quiet = ground (
    arith,
    h m opens quiet,
    open_begun s m v opens,
    id_of_inj m n,
    Map.get-remove id (id_of m) s.proxy.pending,
    own,
  )

  pub moved-IsMatched :
      (s : Session j) (p : LanguageServerProxy) (n : ℕ) (phase : Phase j)
      → (IsOpen j (some phase) → Map.get n s.channels ≡ none → Map.get (id_of n) p.pending ≡ some n)
      → ((m : ℕ)
          → m ≢ n
          → IsOpen j (Map.get m s.requests)
          → Map.get m s.channels ≡ none
          → Map.get (id_of m) p.pending ≡ some m)
      → IsMatched (record s { proxy = p; requests = Map.insert n phase s.requests })
  moved-IsMatched s p n phase own others m opens quiet = elim (Bool-cases (n == m)) [
    | inl e ↦
        let same : n ≡ m = (==_iff n m).0 e in
        let at : Map.get m (Map.insert n phase s.requests) ≡ some phase =
          ground (arith, Map.get-insert n m phase s.requests) in
        let phase_open : IsOpen j (some phase) = subst (IsOpen j) at opens in
        rw (← same) (own phase_open (rw (same) quiet))
    | inr e ↦
        let at : Map.get m (Map.insert n phase s.requests) ≡ Map.get m s.requests =
          ground (arith, Map.get-insert n m phase s.requests) in
        others m (λ q. ground (arith, q, ==_iff n m)) (subst (IsOpen j) at opens) quiet
  ]

  begun-IsMatched :
      (s : Session j) (p : LanguageServerProxy) (phase : Phase j)
      → IsValid j s
      → s.begun + 1 ≤ u64_mod
      → IsMatched s
      → (p.pending ≡ s.proxy.pending × (IsOpen j (some phase) → ⊥))
        ⊎ (p.pending ≡ Map.insert s.proxy.next_id s.begun s.proxy.pending)
      → IsMatched (record s {
        proxy = p;
        begun = s.begun + 1;
        requests = Map.insert s.begun phase s.requests;
      })
  begun-IsMatched s p phase v small h (inl (same, ended)) =
      moved-IsMatched s p s.begun phase (λ o q. absurd (ended o))
        (λ m ne o q. ap (Map.get (id_of m)) same ∙ h m o q)
  begun-IsMatched s p phase v small h (inr new) =
      moved-IsMatched s p s.begun phase
        (λ o q.
          ap (Map.get (id_of s.begun)) new
          ∙ ground (
            arith,
            v.next,
            Map.get-insert s.proxy.next_id (id_of s.begun) s.begun s.proxy.pending,
          ))
        (λ m ne o q.
          ap (Map.get (id_of m)) new
          ∙ ground (
            arith,
            v.next,
            h m o q,
            open_begun s m v o,
            id_of_inj m s.begun,
            Map.get-insert s.proxy.next_id (id_of m) s.begun s.proxy.pending,
          ))

  -- a request ends without an answer
  pub ended-IsMatched :
      (s : Session j) (stdin : Option Text) (n id : ℕ)
      → IsValid j s
      → s.begun ≤ u64_mod
      → IsMatched s
      → id ≡ id_of n
      → IsOpen j (Map.get n s.requests)
      → IsMatched (record s {
        proxy = record s.proxy { stdin = stdin; pending = Map.remove id s.proxy.pending };
        requests = Map.insert n (finished none) s.requests;
      })
  ended-IsMatched s stdin n id v small h own opens =
      moved-IsMatched s (record s.proxy { stdin = stdin; pending = Map.remove id s.proxy.pending })
        n (finished none) (λ o q. absurd o)
        (λ m ne o q. remove_other s id n m v small h own (open_begun s n v opens) ne o q)

  pub begin_request-IsMatched :
      (method : Text) (params : j.Value) (s : Session j)
      → IsValid j s
      → s.begun + 1 ≤ u64_mod
      → IsMatched s
      → IsMatched (begin_request j method params s)
  unfolding begin_request
  begin_request-IsMatched method params s v small h =
      elim (Option-cases (j.to_string (request_value j s.proxy.next_id method params))) [
        | inl p ↦
            rw (p, begin_request)
              (begun-IsMatched s (record s.proxy { next_id = (s.proxy.next_id + 1) % u64_mod })
                (finished none) v small h (inl (refl, λ o. o)))
        | inr (content, p) ↦
            rw (p, begin_request)
              (begun-IsMatched s
                (record s.proxy {
                  next_id = (s.proxy.next_id + 1) % u64_mod;
                  pending = Map.insert s.proxy.next_id s.begun s.proxy.pending;
                })
                (writing s.proxy.next_id (frame content)) v small h (inr refl))
      ]

  written-IsMatched :
      (outcome : Written) (bytes : Text) (n id : ℕ) (message : Text) (s : Session j)
      → IsValid j s
      → s.begun ≤ u64_mod
      → IsMatched s
      → id ≡ id_of n
      → IsOpen j (Map.get n s.requests)
      → IsMatched (write_bytes j outcome bytes n id message s)
  unfolding write_bytes
  written-IsMatched whole bytes n id message s v small h own opens =
      moved-IsMatched s s.proxy n (waiting id) (λ o q. h n opens q) (λ m ne o q. h m o q)
  written-IsMatched (broken m) bytes n id message s v small h own opens =
      ended-IsMatched s none n id v small h own opens

  write_message-IsMatched :
      (outcome : Written) (n id : ℕ) (message : Text) (s : Session j)
      → IsValid j s
      → s.begun ≤ u64_mod
      → IsMatched s
      → id ≡ id_of n
      → IsOpen j (Map.get n s.requests)
      → IsMatched (write_message j outcome n id message s)
  unfolding write_message
  write_message-IsMatched outcome n id message s v small h own opens =
      elim (Option-cases s.proxy.stdin) [
        | inl q ↦
            rw (q, write_message)
              (moved-IsMatched s s.proxy n (waiting id) (λ o q. h n opens q) (λ m ne o q. h m o q))
        | inr (bytes, q) ↦
            rw (q, write_message)
              (written-IsMatched outcome bytes n id message s v small h own opens)
      ]

  pub write_request-IsMatched :
      (outcome : Written) (n : ℕ) (s : Session j)
      → IsValid j s
      → s.begun ≤ u64_mod
      → IsMatched s
      → IsMatched (write_request j outcome n s)
  unfolding write_request
  write_request-IsMatched outcome n s v small h = elim (Option-cases (Map.get n s.requests)) [
    | inl p ↦ rw (p, write_request) h
    | inr (waiting id, p) ↦ rw (p, write_request) h
    | inr (finished result, p) ↦ rw (p, write_request) h
    | inr (writing id message, p) ↦
        rw (p, write_request)
          (write_message-IsMatched outcome n id message s v small h
            (v.standing n (writing id message) p) (rw (p) tt))
  ]
