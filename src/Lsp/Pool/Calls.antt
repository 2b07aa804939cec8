-- ===== src/Lsp/Pool/Calls.antt =====
-- The pool of language servers (crates/vraftls-lsp/src/proxy.rs) after calls that run one after the
-- other, and after two that run at once.
use vraftls.Prelude.{
  ℕ, ◌+◌, ◌<◌, ◌≡◌, ◌≢◌, Bool, true, false, refl, sym, ap, ◌∙◌, ◌⊎◌, inl, inr, Option, none, some,
  List, [], ◌∷◌, Text, All, codes, nat_eq, arith, Option-cases, ◌==◌, ==_iff, Bool-cases,
}
use vraftls.Prelude.Map
use vraftls.Prelude.Map.{Map}
use vraftls.Core.Types.{LanguageId}
use vraftls.Lsp.Json.{Json}
use vraftls.Lsp.Proxy.{
  LanguageServerProxy, Session, Written, running, Spawned, SpawnError, SpawnResult, proxy, failed,
  spawn, kill, shutdown, begin_request, write_request, receive_any, finish, expire, notify,
}
use vraftls.Lsp.Pool
use vraftls.Lsp.Pool.{
  LanguageServerPool, PoolResult, server, unserved, Parting, language_eq, add, get_or_spawn,
  shutdown_server, shutdown_each, shutdown_all,
}

kill-process :
    (killing : Bool) (p : LanguageServerProxy)
    → (kill killing p).process ≡ some running
    → killing ≡ false
unfolding kill
kill-process false p h = refl
kill-process true p h = absurd (ground arith)

pub All-remove :
    (P : ℕ → Type 0) (lang : LanguageId) (m : Map LanguageId ℕ)
    → All (λ e. P e.1) m
    → All (λ e. P e.1) (Map.remove lang m)
unfolding Map.remove
All-remove P lang [] h = tt
All-remove P lang ((l, n) ∷ m) (p, ps) = elim (Bool-cases (l == lang)) [
  | inl e ↦ rw (e, Map.remove) (All-remove P lang m ps)
  | inr e ↦ rw (e, Map.remove) (p, All-remove P lang m ps)
]

pub All-weaken :
    (P Q : ℕ → Type 0) (m : Map LanguageId ℕ)
    → ((n : ℕ) → P n → Q n)
    → All (λ e. P e.1) m
    → All (λ e. Q e.1) m
All-weaken P Q [] f h = tt
All-weaken P Q ((l, n) ∷ m) f (p, ps) = (f n p, All-weaken P Q m f ps)

pub remove-insert :
    (lang : LanguageId) (n : ℕ) (m : Map LanguageId ℕ)
    → Map.remove lang (Map.insert lang n m) ≡ Map.remove lang (Map.remove lang m)
unfolding Map.remove Map.insert
remove-insert lang n m = ground (arith, ==_iff lang lang)

pub SpawnResult-cases :
    (r : SpawnResult)
    → ((e : SpawnError) × (r ≡ failed e)) ⊎ ((p : LanguageServerProxy) × (r ≡ proxy p))
SpawnResult-cases (failed e) = inl (e, refl)
SpawnResult-cases (proxy p) = inr (p, refl)

pub served_not : {e : SpawnError} {n : ℕ} → unserved e ≢ server n
served_not p = cc

module _ (j : Json) where
  shutdown-process :
      (asked told : Written) (answer : Option Text) (killing : Bool) (s : Session j)
      → (shutdown j asked answer told killing s).proxy.process ≡ some running
      → killing ≡ false
  unfolding shutdown
  shutdown-process asked told answer killing s h =
      let n = s.begun in
      let waited = write_request j asked n (begin_request j (codes "shutdown") j.null s) in
      let ended = expire j n (finish j n (receive_any j answer waited)) in
      kill-process killing (notify j told (codes "exit") j.null ended.proxy) h

  -- the server with a number is started and runs
  abbrev pub Runs : ℕ → LanguageServerPool j → Type 0
  Runs n pool =
      (s : Session j) × (Map.get n pool.proxies ≡ some s) × (s.proxy.process ≡ some running)

  -- every server that runs is in the pool or is excused, and no number is taken that is still to
  -- come
  pub record IsKept (Excused : ℕ → Type 0) (pool : LanguageServerPool j) : Type 0 where
    pub known :
        (n : ℕ)
        → Runs n pool
        → ((lang : LanguageId) × (Map.get lang pool.servers ≡ some n)) ⊎ Excused n
    pub numbered : All (λ e. e.1 < pool.started) pool.servers

  get-shutdown_server :
      (p : Parting) (n m : ℕ) (proxies : Map ℕ (Session j)) (s : Session j)
      → Map.get m (shutdown_server j p n proxies) ≡ some s
      → s.proxy.process ≡ some running
      → ((n ≢ m) × (Map.get m proxies ≡ some s)) ⊎ ((n ≡ m) × (p.killing ≡ false))
  unfolding shutdown_server
  get-shutdown_server p n m proxies s found runs = elim (Option-cases (Map.get n proxies)) [
    | inl e ↦
        let same : shutdown_server j p n proxies ≡ proxies = rw (e, shutdown_server) refl in
        let at : Map.get m proxies ≡ some s = ap (Map.get m) (sym same) ∙ found in
        inl (λ q. ground (arith, ap (λ k. Map.get k proxies) q, e, at), at)
    | inr (s', e) ↦
        let stopped = shutdown j p.asked p.answer p.told p.killing s' in
        let same : shutdown_server j p n proxies ≡ Map.insert n stopped proxies =
          rw (e, shutdown_server) refl in
        let at : Map.get m (Map.insert n stopped proxies) ≡ some s =
          ap (Map.get m) (sym same) ∙ found in
        let gone = shutdown-process p.asked p.told p.answer p.killing s' in
        elim (Bool-cases (n == m)) [
          | inl q ↦
              let is : stopped ≡ s = ground (arith, at, Map.get-insert n m stopped proxies) in
              inr ((==_iff n m).0 q, gone (ap (λ x. x.proxy.process) is ∙ runs))
          | inr q ↦ inl (
            λ u. ground (arith, u, ==_iff n m),
            ground (arith, at, Map.get-insert n m stopped proxies),
          )
        ]
  ]

  get-shutdown_each :
      (partings : ℕ → Parting) (servers : Map LanguageId ℕ) (m : ℕ) (proxies : Map ℕ (Session j))
      (s : Session j)
      → Map.get m (shutdown_each j partings servers proxies) ≡ some s
      → s.proxy.process ≡ some running
      → (((lang : LanguageId) → Map.get lang servers ≢ some m) × (Map.get m proxies ≡ some s))
        ⊎ ((partings m).killing ≡ false)
  unfolding shutdown_each Map.get
  get-shutdown_each partings [] m proxies s found runs = inl (λ lang h. ground arith, found)
  get-shutdown_each partings ((lang, n) ∷ more) m proxies s found runs =
      elim (get-shutdown_each partings more m (shutdown_server j (partings n) n proxies) s found
        runs) [
          | inr spared ↦ inr spared
          | inl (others, before) ↦
              elim (get-shutdown_server (partings n) n m proxies s before runs) [
                | inr (same, spared) ↦ inr (ap (λ i. (partings i).killing) (sym same) ∙ spared)
                | inl (other, at) ↦ inl (λ l h. ground (arith, others l, other), at)
              ]
        ]

  -- a server that runs is kept
  kept_runs :
      (n m : ℕ) (s : Session j) (proxies : Map ℕ (Session j))
      → n ≢ m
      → Map.get m (Map.insert n s proxies) ≡ Map.get m proxies
  kept_runs n m s proxies h = ground (arith, Map.get-insert n m s proxies)

  -- what the calls of a pool are
  pub data Call : Type 0 where
    getting : LanguageId → Spawned → Call
    stopping : (ℕ → Parting) → Call

  unfoldable pub step : Call → LanguageServerPool j → LanguageServerPool j
  unfolding get_or_spawn shutdown_all
  step (getting lang outcome) pool = (get_or_spawn j lang outcome pool).1
  step (stopping partings) pool = shutdown_all j partings pool

  unfoldable pub run : List Call → LanguageServerPool j → LanguageServerPool j
  unfolding step
  run [] pool = pool
  run (call ∷ calls) pool = run calls (step call pool)

  added-IsKept :
      (Excused : ℕ → Type 0) (lang : LanguageId) (p : LanguageServerProxy)
      (pool : LanguageServerPool j)
      → Map.get lang pool.servers ≡ none
      → IsKept Excused pool
      → IsKept Excused (record pool {
        servers = Map.insert lang pool.started pool.servers;
        started = pool.started + 1;
        proxies =
            Map.insert pool.started
              (record { proxy = p; begun = 0; requests = []; channels = [] })
              pool.proxies;
      })
  unfolding Map.insert
  added-IsKept Excused lang p pool absent k =
      let s : Session j = record { proxy = p; begun = 0; requests = []; channels = [] } in
      record {
        known = λ n (s', at, runs). elim (Bool-cases (pool.started == n)) [
          | inl e ↦ inl (
            lang,
            ground (
              arith,
              Map.get-insert lang lang pool.started pool.servers,
              ==_iff pool.started n,
              ==_iff lang lang,
            ),
          )
          | inr e ↦
              let before : Map.get n pool.proxies ≡ some s' =
                ground (arith, at, Map.get-insert pool.started n s pool.proxies) in
              elim (k.known n (s', before, runs)) [
                | inr excused ↦ inr excused
                | inl (l, there) ↦ inl (
                  l,
                  ground (
                    arith,
                    there,
                    absent,
                    ==_iff lang l,
                    Map.get-insert lang l pool.started pool.servers,
                  ),
                )
              ]
        ];
        numbered = (
          omega arith,
          All-remove (λ n. n < pool.started + 1) lang pool.servers
              (All-weaken (λ n. n < pool.started) (λ n. n < pool.started + 1) pool.servers
                (λ n h. omega arith) k.numbered),
        );
      }

  add-IsKept :
      (Excused : ℕ → Type 0) (lang : LanguageId) (outcome : Spawned) (pool : LanguageServerPool j)
      → Map.get lang pool.servers ≡ none
      → IsKept Excused pool
      → IsKept Excused (add j lang outcome pool).1
  unfolding add
  add-IsKept Excused lang outcome pool absent k = elim (SpawnResult-cases (spawn lang outcome)) [
    | inl (e, p) ↦ rw (p, add) k
    | inr (started, p) ↦ rw (p, add) (added-IsKept Excused lang started pool absent k)
  ]

  shutdown_all-stops :
      (Excused : ℕ → Type 0) (partings : ℕ → Parting) (pool : LanguageServerPool j) (n : ℕ)
      → IsKept Excused pool
      → Runs n (shutdown_all j partings pool)
      → Excused n ⊎ ((partings n).killing ≡ false)
  unfolding shutdown_all
  shutdown_all-stops Excused partings pool n k (s, at, runs) =
      elim (get-shutdown_each partings pool.servers n pool.proxies s at runs) [
        | inr spared ↦ inr spared
        | inl (absent, before) ↦ elim (k.known n (s, before, runs)) [
          | inr excused ↦ inl excused
          | inl (lang, there) ↦ absurd (absent lang there)
        ]
      ]

  -- one of the calls is a `shutdown_all` that cannot kill the process of the server
  abbrev pub IsSpared : ℕ → List Call → Type 0
  IsSpared n [] = ⊥
  IsSpared n (getting lang outcome ∷ calls) = IsSpared n calls
  IsSpared n (stopping partings ∷ calls) = ((partings n).killing ≡ false) ⊎ IsSpared n calls

  IsKept-weaken :
      (P Q : ℕ → Type 0) (pool : LanguageServerPool j)
      → ((n : ℕ) → P n → Q n)
      → IsKept P pool
      → IsKept Q pool
  IsKept-weaken P Q pool f k = record {
    known = λ n r. elim (k.known n r) [ inl there ↦ inl there | inr p ↦ inr (f n p) ];
    numbered = k.numbered;
  }

  stopping-IsKept :
      (Excused : ℕ → Type 0) (partings : ℕ → Parting) (pool : LanguageServerPool j)
      → IsKept Excused pool
      → IsKept (λ n. Excused n ⊎ ((partings n).killing ≡ false)) (shutdown_all j partings pool)
  unfolding shutdown_all Map.get
  stopping-IsKept Excused partings pool k = record {
    known = λ n r. inr (shutdown_all-stops Excused partings pool n k r);
    numbered = tt;
  }

  getting-IsKept :
      (Excused : ℕ → Type 0) (lang : LanguageId) (outcome : Spawned) (pool : LanguageServerPool j)
      → IsKept Excused pool
      → IsKept Excused (get_or_spawn j lang outcome pool).1
  unfolding get_or_spawn
  getting-IsKept Excused lang outcome pool k = elim (Option-cases (Map.get lang pool.servers)) [
    | inl p ↦ rw (p, get_or_spawn) (add-IsKept Excused lang outcome pool p k)
    | inr (n, p) ↦ rw (p, get_or_spawn) k
  ]

  pub run-IsKept :
      (Excused : ℕ → Type 0) (calls : List Call) (pool : LanguageServerPool j)
      → IsKept Excused pool
      → IsKept (λ n. Excused n ⊎ IsSpared n calls) (run calls pool)
  unfolding run step
  run-IsKept Excused [] pool k = IsKept-weaken Excused _ pool (λ n p. inl p) k
  run-IsKept Excused (getting lang outcome ∷ calls) pool k =
      run-IsKept Excused calls (get_or_spawn j lang outcome pool).1
        (getting-IsKept Excused lang outcome pool k)
  run-IsKept Excused (stopping partings ∷ calls) pool k =
      let next = shutdown_all j partings pool in
      let Later : ℕ → Type 0 = λ n. Excused n ⊎ ((partings n).killing ≡ false) in
      IsKept-weaken (λ n. Later n ⊎ IsSpared n calls) _ (run calls next)
        (λ n p. elim p [
          | inl (inl excused) ↦ inl excused
          | inl (inr spared) ↦ inr (inl spared)
          | inr later ↦ inr (inr later)
        ])
        (run-IsKept Later calls next (stopping-IsKept Excused partings pool k))

  pub new-IsKept : IsKept (λ n. ⊥) (Pool.new j)
  unfolding Pool.new Map.get
  new-IsKept = record { known = λ n (s, at, runs). absurd (cc); numbered = tt }

  -- After any calls on a new pool, made one after the other, a server runs on after a call of
  -- `shutdown_all` only if that call or one before could not kill its process, whatever the servers
  -- answer and however the writing to them goes.
  pub shutdown_all-run :
      (calls : List Call) (partings : ℕ → Parting) (n : ℕ)
      → Runs n (shutdown_all j partings (run calls (Pool.new j)))
      → IsSpared n calls ⊎ ((partings n).killing ≡ false)
  shutdown_all-run calls partings n r =
      elim (shutdown_all-stops (λ n. ⊥ ⊎ IsSpared n calls) partings (run calls (Pool.new j)) n
        (run-IsKept (λ n. ⊥) calls (Pool.new j) new-IsKept) r) [
          | inl (inl never) ↦ absurd never
          | inl (inr spared) ↦ inl spared
          | inr spared ↦ inr spared
        ]
