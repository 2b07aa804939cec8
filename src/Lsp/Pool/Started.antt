-- ===== src/Lsp/Pool/Started.antt =====
-- What `get_or_spawn` starts (crates/vraftls-lsp/src/proxy.rs), by one task and by two at once.
use vraftls.Prelude.{
  ℕ, ◌+◌, ◌<◌, ◌≡◌, ◌≢◌, refl, sym, ap, ◌∙◌, inl, inr, ◌⊎◌, Option, none, some, List, [], ◌∷◌, Text,
  All, nat_eq, arith, Option-cases, ==_iff,
}
use vraftls.Prelude.Map
use vraftls.Prelude.Map.{Map}
use vraftls.Core.Types.{LanguageId, language_server_command}
use vraftls.Lsp.Json.{Json}
use vraftls.Lsp.Proxy
use vraftls.Lsp.Proxy.{
  LanguageServerProxy, Session, Written, Child, running, killed, Spawned, child, refused,
  SpawnError, unsupported_language, language_server, SpawnResult, proxy, failed, spawn, kill,
  shutdown, begin_request, write_request, receive_any, finish, expire, notify,
}
use vraftls.Lsp.Pool
use vraftls.Lsp.Pool.{
  LanguageServerPool, PoolResult, server, unserved, Parting, language_eq, add, get_or_spawn,
  shutdown_server, shutdown_each, shutdown_all,
}
use vraftls.Lsp.Pool.Calls.{
  IsSpared, All-remove, All-weaken, Call, IsKept, Runs, SpawnResult-cases, new-IsKept,
  remove-insert, run, run-IsKept, served_not,
}

module _ (j : Json) where
  -- the server of a language that the pool had none of
  added : LanguageId → LanguageServerProxy → LanguageServerPool j → LanguageServerPool j
  added lang p pool = record pool {
    servers = Map.insert lang pool.started pool.servers;
    started = pool.started + 1;
    proxies =
        Map.insert pool.started (record { proxy = p; begun = 0; requests = []; channels = [] })
          pool.proxies;
  }

  add_child :
      (lang : LanguageId) (cmd : Text) (stdin : Option Text) (pool : LanguageServerPool j)
      → language_server_command lang ≡ some cmd
      → add j lang (child stdin) pool
        ≡ (server pool.started, added lang (Proxy.new lang stdin) pool)
  unfolding add spawn added
  add_child lang cmd stdin pool served = rw (served, add, spawn) refl

  add_child_next :
      (lang : LanguageId) (cmd : Text) (stdin : Option Text) (p : LanguageServerProxy)
      (pool : LanguageServerPool j)
      → language_server_command lang ≡ some cmd
      → add j lang (child stdin) (added lang p pool)
        ≡ (server (pool.started + 1), added lang (Proxy.new lang stdin) (added lang p pool))
  unfolding added
  add_child_next lang cmd stdin p pool served = add_child lang cmd stdin (added lang p pool) served

  get_added :
      (lang : LanguageId) (p : LanguageServerProxy) (pool : LanguageServerPool j)
      → Map.get lang (added lang p pool).servers ≡ some pool.started
  unfolding added
  get_added lang p pool =
      ground (arith, ==_iff lang lang, Map.get-insert lang lang pool.started pool.servers)

  get-shutdown_each_other :
      (partings : ℕ → Parting) (servers : Map LanguageId ℕ) (m : ℕ) (proxies : Map ℕ (Session j))
      → All (λ e. e.1 ≢ m) servers
      → Map.get m (shutdown_each j partings servers proxies) ≡ Map.get m proxies
  unfolding shutdown_each shutdown_server
  get-shutdown_each_other partings [] m proxies h = refl
  get-shutdown_each_other partings ((lang, n) ∷ more) m proxies (ne, others) =
      get-shutdown_each_other partings more m (shutdown_server j (partings n) n proxies) others
      ∙ elim (Option-cases (Map.get n proxies)) [
        | inl e ↦ rw (e, shutdown_server) refl
        | inr (s, e) ↦
            let p = partings n in
            rw (e, shutdown_server)
              (ground (
                arith,
                ne,
                Map.get-insert n m (shutdown j p.asked p.answer p.told p.killing s) proxies,
              ))
      ]

  -- The server that another took the place of is in the pool no more.
  replaced :
      (Excused : ℕ → Type 0) (lang : LanguageId) (p q : LanguageServerProxy)
      (pool : LanguageServerPool j)
      → IsKept j Excused pool
      → All (λ e. e.1 ≢ pool.started) (added lang q (added lang p pool)).servers
  unfolding added Map.insert
  replaced Excused lang p q pool k =
      let small : All (λ e. e.1 ≢ pool.started) pool.servers =
        All-weaken (λ n. n < pool.started) (λ n. n ≢ pool.started) pool.servers (λ n h. omega arith)
          k.numbered in
      (
        omega arith,
        rw (remove-insert lang pool.started pool.servers) (
            All-remove (λ n. n ≢ pool.started) lang (Map.remove lang pool.servers)
              (All-remove (λ n. n ≢ pool.started) lang pool.servers small)),
      )

  first_started :
      (lang : LanguageId) (p q : LanguageServerProxy) (pool : LanguageServerPool j)
      → Map.get pool.started (added lang q (added lang p pool)).proxies
        ≡ some (record { proxy = p; begun = 0; requests = []; channels = [] })
  unfolding added
  first_started lang p q pool =
      let start : LanguageServerProxy → Session j =
        λ x. record { proxy = x; begun = 0; requests = []; channels = [] } in
      ground (
        arith,
        Map.get-insert (pool.started + 1) pool.started (start q)
            (Map.insert pool.started (start p) pool.proxies),
        Map.get-insert pool.started pool.started (start p) pool.proxies,
      )

  found :
      (lang : LanguageId) (outcome : Spawned) (pool : LanguageServerPool j) (n : ℕ)
      → Map.get lang pool.servers ≡ some n
      → get_or_spawn j lang outcome pool ≡ (server n, pool)
  unfolding get_or_spawn
  found lang outcome pool n e = rw (e, get_or_spawn) refl

  not_spawned :
      (lang : LanguageId) (outcome : Spawned) (pool : LanguageServerPool j) (error : SpawnError)
      → Map.get lang pool.servers ≡ none
      → spawn lang outcome ≡ failed error
      → get_or_spawn j lang outcome pool ≡ (unserved error, pool)
  unfolding get_or_spawn add
  not_spawned lang outcome pool error e q = rw (e, q, get_or_spawn, add) refl

  spawned_new :
      (lang : LanguageId) (outcome : Spawned) (pool : LanguageServerPool j)
      (p : LanguageServerProxy)
      → Map.get lang pool.servers ≡ none
      → spawn lang outcome ≡ proxy p
      → get_or_spawn j lang outcome pool ≡ (server pool.started, added lang p pool)
  unfolding get_or_spawn add added
  spawned_new lang outcome pool p e q = rw (e, q, get_or_spawn, add) refl

  added-servers :
      (lang l : LanguageId) (p : LanguageServerProxy) (pool : LanguageServerPool j)
      → l ≢ lang
      → (Map.get lang (added lang p pool).servers ≡ some pool.started)
        × (Map.get l (added lang p pool).servers ≡ Map.get l pool.servers)
  unfolding added
  added-servers lang l p pool ne = (
    ground (arith, ==_iff lang lang, Map.get-insert lang lang pool.started pool.servers),
    ground (arith, ne, ==_iff lang l, Map.get-insert lang l pool.started pool.servers),
  )

  -- Once a call of `get_or_spawn` on any pool has given a server, a second call for the language
  -- gives the same and starts nothing, whatever a start would come to; and the servers of other
  -- languages stay.
  pub get_or_spawn-get_or_spawn :
      (lang l : LanguageId) (outcome again : Spawned) (pool : LanguageServerPool j) (n : ℕ)
      → (get_or_spawn j lang outcome pool).0 ≡ server n
      → l ≢ lang
      → (get_or_spawn j lang again (get_or_spawn j lang outcome pool).1
          ≡ (server n, (get_or_spawn j lang outcome pool).1))
        × (Map.get l (get_or_spawn j lang outcome pool).1.servers ≡ Map.get l pool.servers)
  get_or_spawn-get_or_spawn lang l outcome again pool n got ne =
      elim (Option-cases (Map.get lang pool.servers)) [
        | inr (m, e) ↦
            let first = found lang outcome pool m e in
            let same : server m ≡ server n = ap (λ r. r.0) (sym first) ∙ got in
            rw (first) (found lang again pool m e ∙ ap (λ r. (r, pool)) same, refl)
        | inl e ↦ elim (SpawnResult-cases (spawn lang outcome)) [
          | inl (error, q) ↦
              absurd
                (served_not (ap (λ r. r.0) (sym (not_spawned lang outcome pool error e q)) ∙ got))
          | inr (p, q) ↦
              let first = spawned_new lang outcome pool p e q in
              let same : server pool.started ≡ server n = ap (λ r. r.0) (sym first) ∙ got in
              let (here, there) = added-servers lang l p pool ne in
              rw (first) (
                found lang again (added lang p pool) pool.started here
                    ∙ ap (λ r. (r, added lang p pool)) same,
                there,
              )
        ]
      ]

  get_of_All :
      (l : LanguageId) (n m : ℕ) (servers : Map LanguageId ℕ)
      → All (λ e. e.1 ≢ n) servers
      → Map.get l servers ≡ some m
      → m ≢ n
  unfolding Map.get
  get_of_All l n m [] h p = absurd (cc)
  get_of_All l n m ((k, i) ∷ more) (first, others) p =
      ground (arith, get_of_All l n m more others, first, p)

  -- Two tasks that ask a pool at once for a language that it has no server of: both look before
  -- either puts its server in. Each is given a server of its own; the pool then has the second under
  -- the language and the first under none, and after `shutdown_all` the first runs on, whether
  -- processes can be killed or not.
  pub add-race :
      (calls : List (Call j)) (lang l : LanguageId) (cmd : Text) (first second : Option Text)
      (partings : ℕ → Parting)
      → language_server_command lang ≡ some cmd
      → Map.get lang (run j calls (Pool.new j)).servers ≡ none
      → let pool = run j calls (Pool.new j) in
        let one = add j lang (child first) pool in
        let two = add j lang (child second) one.1 in
        (one.0 ≡ server pool.started)
        × (two.0 ≡ server (pool.started + 1))
        × (Map.get lang two.1.servers ≡ some (pool.started + 1))
        × (Map.get l two.1.servers ≢ some pool.started)
        × Runs j pool.started (shutdown_all j partings two.1)
  unfolding shutdown_all Proxy.new added
  add-race calls lang l cmd first second partings served absent =
      let pool = run j calls (Pool.new j) in
      let k = run-IsKept j (λ n. ⊥) calls (Pool.new j) (new-IsKept j) in
      let p = Proxy.new lang first in
      let q = Proxy.new lang second in
      let one = added lang p pool in
      let two = added lang q one in
      let step1 = add_child lang cmd first pool served in
      let step2 : add j lang (child second) (add j lang (child first) pool).1
          ≡ (server (pool.started + 1), two) =
        ap (λ r. add j lang (child second) r.1) step1
        ∙ add_child_next lang cmd second p pool served in
      let gone = replaced (λ n. ⊥ ⊎ IsSpared j n calls) lang p q pool k in
      (
        ap (λ r. r.0) step1,
        ap (λ r. r.0) step2,
        ap (λ r. Map.get lang r.1.servers) step2 ∙ get_added lang q one,
        rw (step2) (λ e. get_of_All l pool.started pool.started two.servers gone e refl),
        rw (step2) (
          _,
          get-shutdown_each_other partings two.servers pool.started two.proxies gone
              ∙ first_started lang p q pool,
          refl,
        ),
      )
