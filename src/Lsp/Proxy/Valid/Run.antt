-- ===== src/Lsp/Proxy/Valid/Run.antt =====
-- The invariant of a session (crates/vraftls-lsp/src/proxy.rs) as answers come in and requests end,
-- and so in every session that is reached.
use vraftls.Prelude.{
  ℕ, ◌≡◌, ◌≢◌, refl, inl, inr, Option, none, some, Text, codes, nat_eq, arith, ◌==◌, ==_iff,
  Bool-cases, Option-cases,
}
use mathlib.Core.Option
use mathlib.Core.Path.{subst}
use vraftls.Prelude.Map
use vraftls.Prelude.Map.{Map, map_laws}
use vraftls.Core.Types.{LanguageId}
use vraftls.Lsp.Json.{Json}
use vraftls.Lsp.Proxy.{
  Phase, writing, waiting, finished, Session, Written, notification_value, receive, finish, expire,
  notify,
}
use vraftls.Lsp.Proxy.Steps.{
  IsOpen, IsStanding, IsValid, Reaches, Step, answers, begins, expires, finishes, here, id_of, more,
  notifies, receives, spawned, writes,
}
use vraftls.Lsp.Proxy.Valid.{
  begin_request-IsValid, ended-IsValid, moved-IsValid, write_request-IsValid,
}

module _ (j : Json) where
  open-IsStanding :
      (n : ℕ) (phase : Phase j) (sent sent' : Option j.Value)
      → IsOpen j (some phase)
      → IsStanding j n phase sent
      → IsStanding j n phase sent'
  open-IsStanding n (writing id message) sent sent' o h = h
  open-IsStanding n (waiting id) sent sent' o h = h
  open-IsStanding n (finished result) sent sent' o h = absurd o

  pub open_some : (r : Option (Phase j)) → IsOpen j r → r ≢ none
  open_some none h p = h
  open_some (some phase) h p = absurd (cc)

  -- an answer comes in for a pending request
  delivered-IsValid :
      (s : Session j) (id n : ℕ) (json : j.Value)
      → IsValid j s
      → Map.get id s.proxy.pending ≡ some n
      → answers j json ≡ some id
      → IsValid j (record s {
        proxy = record s.proxy { pending = Map.remove id s.proxy.pending };
        channels = Map.insert n json s.channels;
      })
  delivered-IsValid s id n json v found bears =
      let (own, quiet, opened) = v.matched id n found in
      record {
        next = v.next;
        fresh = λ m h. (
          (v.fresh m h).0,
          ground (
            arith,
            v.fresh m h,
            v.fresh n,
            open_some (Map.get n s.requests) opened,
            Map.get-insert n m json s.channels,
          ),
        );
        standing = λ m phase h. elim (Bool-cases (n == m)) [
          | inl e ↦
              let same : n ≡ m = (==_iff n m).0 e in
              let at : Map.get n s.requests ≡ some phase = rw (same) h in
              let opens : IsOpen j (some phase) = subst (IsOpen j) at opened in
              open-IsStanding m phase (Map.get m s.channels) _ opens (v.standing m phase h)
          | inr e ↦
              let kept : Map.get m (Map.insert n json s.channels) ≡ Map.get m s.channels =
                ground (arith, Map.get-insert n m json s.channels) in
              rw (kept) (v.standing m phase h)
        ];
        matched = λ i m h.
            let old : Map.get i s.proxy.pending ≡ some m =
              ground (arith, Map.get-remove id i s.proxy.pending) in
            let (same, silent, opens) = v.matched i m old in
            (
              same,
              ground (
                arith,
                own,
                same,
                silent,
                Map.get-insert n m json s.channels,
                Map.get-remove id i s.proxy.pending,
                h,
              ),
              opens,
            );
        answered = λ m json' h.
            ground (arith, own, bears, h, Map.get-insert n m json s.channels, v.answered m json');
      }

  receive-IsValid : (content : Text) (s : Session j) → IsValid j s → IsValid j (receive j content s)
  unfolding receive answers Option.bind
  receive-IsValid content s v = elim (Option-cases (j.from_slice content)) [
    | inl p ↦ rw (p, receive) v
    | inr (json, p) ↦ elim (Option-cases (answers j json)) [
      | inl q ↦ rw (p, q, receive, answers) v
      | inr (id, q) ↦ elim (Option-cases (Map.get id s.proxy.pending)) [
        | inl u ↦ rw (p, q, u, receive) v
        | inr (n, u) ↦ rw (p, q, u, receive) (delivered-IsValid s id n json v u q)
      ]
    ]
  ]

  result_stands :
      (n : ℕ) (json : j.Value) (sent : Option j.Value)
      → sent ≡ some json
      → IsStanding j n (finished (j.field (codes "result") json)) sent
  result_stands n json sent q = elim (Option-cases (j.field (codes "result") json)) [
    | inl p ↦ rw (p) tt
    | inr (value, p) ↦ rw (p) (json, q, p)
  ]

  finish-IsValid : (n : ℕ) (s : Session j) → IsValid j s → IsValid j (finish j n s)
  unfolding finish
  finish-IsValid n s v = elim (Option-cases (Map.get n s.requests)) [
    | inl p ↦ rw (p, finish) v
    | inr (writing id message, p) ↦ rw (p, finish) v
    | inr (finished result, p) ↦ rw (p, finish) v
    | inr (waiting id, p) ↦ elim (Option-cases (Map.get n s.channels)) [
      | inl q ↦ rw (p, q, finish) v
      | inr (json, q) ↦
          rw (p, q, finish)
            (moved-IsValid j s s.proxy n (finished (j.field (codes "result") json)) v
              (λ u. absurd (cc)) (result_stands n json (Map.get n s.channels) q) refl (λ i m h. h)
              (λ i h. ground (arith, (v.matched i n h).1)))
    ]
  ]

  expire-IsValid : (n : ℕ) (s : Session j) → IsValid j s → IsValid j (expire j n s)
  unfolding expire
  expire-IsValid n s v = elim (Option-cases (Map.get n s.requests)) [
    | inl p ↦ rw (p, expire) v
    | inr (writing id message, p) ↦ rw (p, expire) v
    | inr (finished result, p) ↦ rw (p, expire) v
    | inr (waiting id, p) ↦ elim (Option-cases (Map.get n s.channels)) [
      | inr (json, q) ↦ rw (p, q, expire) v
      | inl q ↦
          rw (p, q, expire)
            (ended-IsValid j s s.proxy.stdin n id v (λ u. absurd (cc))
              (v.standing n (waiting id) p))
    ]
  ]

  same_but_stdin :
      (s : Session j) (stdin : Option Text)
      → IsValid j s
      → IsValid j (record s { proxy = record s.proxy { stdin = stdin } })
  same_but_stdin s stdin v = record {
    next = v.next;
    fresh = v.fresh;
    standing = v.standing;
    matched = v.matched;
    answered = v.answered;
  }

  notify-IsValid :
      (outcome : Written) (method : Text) (params : j.Value) (s : Session j)
      → IsValid j s
      → IsValid j (record s { proxy = notify j outcome method params s.proxy })
  unfolding notify
  notify-IsValid outcome method params s v =
      elim (Option-cases (j.to_string (notification_value j method params))) [
        | inl p ↦ rw (p, notify) (same_but_stdin s s.proxy.stdin v)
        | inr (content, p) ↦ elim (Option-cases s.proxy.stdin) [
          | inl q ↦ rw (p, q, notify) v
          | inr (bytes, q) ↦ rw (p, q, notify) (same_but_stdin s (some _) v)
        ]
      ]

  pub Step-IsValid : (s t : Session j) → Step j s t → IsValid j s → IsValid j t
  Step-IsValid s t (begins method params _) v = begin_request-IsValid j method params s v
  Step-IsValid s t (writes outcome n _) v = write_request-IsValid j outcome n s v
  Step-IsValid s t (receives content _) v = receive-IsValid content s v
  Step-IsValid s t (finishes n _) v = finish-IsValid n s v
  Step-IsValid s t (expires n _) v = expire-IsValid n s v
  Step-IsValid s t (notifies outcome method params _) v = notify-IsValid outcome method params s v

  pub reaches-IsValid : (s t : Session j) → Reaches j s t → IsValid j s → IsValid j t
  reaches-IsValid s _ (here _) v = v
  reaches-IsValid s u (more _ t _ step steps) v =
      reaches-IsValid t u steps (Step-IsValid s t step v)

  pub spawned-IsValid :
      (language : LanguageId) (stdin : Option Text) → IsValid j (spawned j language stdin)
  unfolding spawned id_of Map.get
  spawned-IsValid language stdin = record {
    next = refl;
    fresh = λ n h. (refl, refl);
    standing = λ n phase h. absurd (cc);
    matched = λ id n h. absurd (cc);
    answered = λ n json h. absurd (cc);
  }
