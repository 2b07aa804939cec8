-- ===== src/Lsp/Proxy/Sent.antt =====
-- What a proxy writes to the pipe of its server (crates/vraftls-lsp/src/proxy.rs), as one reads it
-- who reads as the proxy does.
use vraftls.Prelude.{
  ℕ, ◌<◌, ◌≡◌, ◌≢◌, refl, sym, ap, ◌∙◌, ◌⊎◌, inl, inr, Bool, true, none, some, List, [], ◌∷◌, ◌++◌,
  Text, length, All-append, All, nat_eq, arith, Option-cases, ◌==◌, Bool-cases,
}
use mathlib.Core.List.{append-nil}
use mathlib.Core.Option
use vraftls.Prelude.Map
use vraftls.Core.Types.{LanguageId, u64_mod}
use vraftls.Lsp.Json.{Json}
use vraftls.Lsp.Framing.{frame, read_responses}
use vraftls.Lsp.Framing.Frames.{frames_snoc, frames-small}
use vraftls.Lsp.Framing.Streams.{frames, read_responses-frames, read_message-none}
use vraftls.Lsp.Proxy.{
  Phase, writing, waiting, finished, Session, whole, request_value, notification_value,
  begin_request, write_bytes, write_message, write_request, receive, finish, expire, notify,
  write_all,
}
use vraftls.Lsp.Proxy.Steps.{
  Step, begins, writes, receives, finishes, expires, notifies, Reaches, here, more, spawned,
}

module _ (j : Json) where
  -- the text of a request or of a notification of a proxy
  abbrev pub IsMessage : Text → Type 0
  IsMessage m =
      ((id : ℕ) × (method : Text) × (params : j.Value) × (j.to_string
            (request_value j id method params)
          ≡ some m))
      ⊎ ((method : Text) × (params : j.Value) × (j.to_string (notification_value j method params)
            ≡ some m))

  -- all of the message was written
  abbrev pub IsWhole : (s t : Session j) → Step j s t → Type 0
  IsWhole s t (begins method params _) = Unit
  IsWhole s t (writes outcome n _) = outcome ≡ whole
  IsWhole s t (receives content _) = Unit
  IsWhole s t (finishes n _) = Unit
  IsWhole s t (expires n _) = Unit
  IsWhole s t (notifies outcome method params _) = outcome ≡ whole

  abbrev pub AreWhole : (s t : Session j) → Reaches j s t → Type 0
  AreWhole s _ (here _) = Unit
  AreWhole s u (more _ t _ step steps) = IsWhole s t step × AreWhole t u steps

  -- what is on the pipe, and what is still to be written, are messages
  record IsSent (s : Session j) : Type 0 where
    pub sent : List Text
    pub messages : All IsMessage sent
    pub written : s.proxy.stdin ≡ some (frames sent)
    pub unwritten :
        (n id : ℕ) (message : Text)
        → Map.get n s.requests ≡ some (writing id message)
        → (content : Text) × (message ≡ frame content) × IsMessage content

  -- nothing is written, and no request gets a message to write
  kept-IsSent :
      (s t : Session j)
      → t.proxy.stdin ≡ s.proxy.stdin
      → ((n id : ℕ) (message : Text)
          → Map.get n t.requests ≡ some (writing id message)
          → Map.get n s.requests ≡ some (writing id message))
      → IsSent s
      → IsSent t
  kept-IsSent s t same fewer v = record {
    sent = v.sent;
    messages = v.messages;
    written = same ∙ v.written;
    unwritten = λ n id message h. v.unwritten n id message (fewer n id message h);
  }

  -- a message is written
  written-IsSent :
      (s t : Session j) (content : Text)
      → IsMessage content
      → (v : IsSent s) → t.proxy.stdin ≡ some (frames v.sent ++ frame content)
      → ((n id : ℕ) (message : Text)
          → Map.get n t.requests ≡ some (writing id message)
          → Map.get n s.requests ≡ some (writing id message))
      → IsSent t
  written-IsSent s t content good v same fewer = record {
    sent = v.sent ++ content ∷ [];
    messages = All-append IsMessage v.sent (content ∷ []) v.messages (good, tt);
    written = same ∙ ap some (sym (frames_snoc v.sent content));
    unwritten = λ n id message h. v.unwritten n id message (fewer n id message h);
  }

  begin_request-IsSent :
      (method : Text) (params : j.Value) (s : Session j)
      → IsSent s
      → IsSent (begin_request j method params s)
  unfolding begin_request
  begin_request-IsSent method params s v =
      let id = s.proxy.next_id in
      elim (Option-cases (j.to_string (request_value j id method params))) [
        | inl p ↦
            rw (p, begin_request)
              (kept-IsSent s _ refl
                (λ n i m h. ground (arith, Map.get-insert s.begun n (finished none) s.requests)) v)
        | inr (content, p) ↦
            rw (p, begin_request)
              (record {
                sent = v.sent;
                messages = v.messages;
                written = v.written;
                unwritten = λ n i m h. elim (Bool-cases (s.begun == n)) [
                  | inl e ↦ (
                    content,
                    ground (
                      arith,
                      h,
                      Map.get-insert s.begun n (writing id (frame content)) s.requests,
                    ),
                    inl (id, method, params, p),
                  )
                  | inr e ↦ v.unwritten n i m (
                      ground
                        (arith, Map.get-insert s.begun n (writing id (frame content)) s.requests))
                ];
              })
      ]

  -- a request stands where it has nothing to write
  not_writing :
      (s : Session j) (n m id : ℕ) (message : Text) (phase : Phase j)
      → ((i : ℕ) (x : Text) → phase ≢ writing i x)
      → Map.get m (Map.insert n phase s.requests) ≡ some (writing id message)
      → Map.get m s.requests ≡ some (writing id message)
  not_writing s n m id message phase other h =
      ground (arith, other id message, Map.get-insert n m phase s.requests)

  write_message-IsSent :
      (n id : ℕ) (message : Text) (s : Session j)
      → Map.get n s.requests ≡ some (writing id message)
      → IsSent s
      → IsSent (write_message j whole n id message s)
  unfolding write_message write_bytes write_all
  write_message-IsSent n id message s p v =
      let (content, framed, good) = v.unwritten n id message p in
      rw (v.written, write_message, write_bytes, write_all)
        (written-IsSent s _ content good v (ap (λ x. some (frames v.sent ++ x)) framed)
          (λ m i x h. not_writing s n m i x (waiting id) (λ a b q. cc) h))

  write_request-IsSent : (n : ℕ) (s : Session j) → IsSent s → IsSent (write_request j whole n s)
  unfolding write_request
  write_request-IsSent n s v = elim (Option-cases (Map.get n s.requests)) [
    | inl p ↦ rw (p, write_request) v
    | inr (waiting id, p) ↦ rw (p, write_request) v
    | inr (finished result, p) ↦ rw (p, write_request) v
    | inr (writing id message, p) ↦ rw (p, write_request) (write_message-IsSent n id message s p v)
  ]

  receive-IsSent : (content : Text) (s : Session j) → IsSent s → IsSent (receive j content s)
  unfolding receive Option.bind
  receive-IsSent content s v = kept-IsSent s _ (ground arith) (λ n id m h. ground arith) v

  finish-IsSent : (n : ℕ) (s : Session j) → IsSent s → IsSent (finish j n s)
  unfolding finish
  finish-IsSent n s v = elim (Option-cases (Map.get n s.requests)) [
    | inl p ↦ rw (p, finish) v
    | inr (writing id message, p) ↦ rw (p, finish) v
    | inr (finished result, p) ↦ rw (p, finish) v
    | inr (waiting id, p) ↦ elim (Option-cases (Map.get n s.channels)) [
      | inl q ↦ rw (p, q, finish) v
      | inr (json, q) ↦
          rw (p, q, finish)
            (kept-IsSent s _ refl (λ m i x h. not_writing s n m i x _ (λ a b q. cc) h) v)
    ]
  ]

  expire-IsSent : (n : ℕ) (s : Session j) → IsSent s → IsSent (expire j n s)
  unfolding expire
  expire-IsSent n s v = elim (Option-cases (Map.get n s.requests)) [
    | inl p ↦ rw (p, expire) v
    | inr (writing id message, p) ↦ rw (p, expire) v
    | inr (finished result, p) ↦ rw (p, expire) v
    | inr (waiting id, p) ↦ elim (Option-cases (Map.get n s.channels)) [
      | inr (json, q) ↦ rw (p, q, expire) v
      | inl q ↦
          rw (p, q, expire)
            (kept-IsSent s _ refl (λ m i x h. not_writing s n m i x (finished none) (λ a b q. cc) h)
              v)
    ]
  ]

  notify-IsSent :
      (method : Text) (params : j.Value) (s : Session j)
      → IsSent s
      → IsSent (record s { proxy = notify j whole method params s.proxy })
  unfolding notify write_all
  notify-IsSent method params s v =
      elim (Option-cases (j.to_string (notification_value j method params))) [
        | inl p ↦ rw (p, notify) v
        | inr (content, p) ↦
            rw (p, v.written, notify, write_all)
              (written-IsSent s _ content (inr (method, params, p)) v refl (λ n id m h. h))
      ]

  Step-IsSent : (s t : Session j) (step : Step j s t) → IsWhole s t step → IsSent s → IsSent t
  Step-IsSent s t (begins method params _) w v = begin_request-IsSent method params s v
  Step-IsSent s t (writes outcome n _) w v = rw (w) (write_request-IsSent n s v)
  Step-IsSent s t (receives content _) w v = receive-IsSent content s v
  Step-IsSent s t (finishes n _) w v = finish-IsSent n s v
  Step-IsSent s t (expires n _) w v = expire-IsSent n s v
  Step-IsSent s t (notifies outcome method params _) w v = rw (w) (notify-IsSent method params s v)

  reaches-IsSent :
      (s t : Session j) (steps : Reaches j s t) → AreWhole s t steps → IsSent s → IsSent t
  reaches-IsSent s _ (here _) w v = v
  reaches-IsSent s u (more _ t _ step steps) (w, ws) v =
      reaches-IsSent t u steps ws (Step-IsSent s t step w v)

  spawned-IsSent : (language : LanguageId) → IsSent (spawned j language (some []))
  unfolding spawned Map.get frames
  spawned-IsSent language = record {
    sent = [];
    messages = tt;
    written = refl;
    unwritten = λ n id m h. absurd (cc);
  }

module _ (j : Json) (is_utf8 : Text → Bool)
    (ascii : (s : Text) → All (λ c. c < 128) s → is_utf8 s ≡ true) where
  -- However requests and notifications run at once, if no write to the pipe of a new proxy fails,
  -- then one who reads the fewer than 2 ^ 64 bytes on the pipe as the proxy reads its own gets
  -- messages that are, framed one behind the other, all of the bytes, and each of them is the text
  -- of a request or of a notification.
  pub read_responses-sent :
      (language : LanguageId) (t : Session j) (steps : Reaches j (spawned j language (some [])) t)
      (bytes : Text)
      → AreWhole j (spawned j language (some [])) t steps
      → t.proxy.stdin ≡ some bytes
      → length bytes < u64_mod
      → (ms : List Text) × (read_responses is_utf8 bytes ≡ some ms)
        × (frames ms ≡ bytes)
        × All (IsMessage j) ms
  read_responses-sent language t steps bytes w there small =
      let v =
        reaches-IsSent j (spawned j language (some [])) t steps w (spawned-IsSent j language) in
      let all : bytes ≡ frames v.sent = ground (arith, v.written, there) in
      let read : read_responses is_utf8 bytes ≡ some v.sent =
        ap (read_responses is_utf8) (all ∙ sym (append-nil (frames v.sent)))
        ∙ read_responses-frames is_utf8 ascii v.sent []
            (frames-small v.sent u64_mod (omega (arith, ap length all)))
            (read_message-none is_utf8) in
      (v.sent, read, sym all, v.messages)
