-- ===== src/Lsp/Pool.antt =====
-- crates/vraftls-lsp/src/proxy.rs: the pool of language servers. The servers that were ever started
-- are numbered from 0, and an `Arc` of a server is its number.
pub mod Calls
pub mod Started
use vraftls.Prelude.{
  ℕ, ◌+◌, ◌≡◌, refl, sym, ap, ◌∙◌, ◌↔◌, Bool, true, false, Option, none, some, List, [], ◌∷◌, Text,
  Eq, nat_eq, list_eq, ◌==◌, ==_iff, if◌then◌else◌,
}
use vraftls.Prelude.Map
use vraftls.Prelude.Map.{Map}
use vraftls.Core.Types.{LanguageId, rust, type_script, java_script, go, python, other}
use vraftls.Lsp.Json.{Json}
use vraftls.Lsp.Proxy.{
  LanguageServerProxy, Session, Written, whole, Spawned, SpawnError, SpawnResult, proxy, failed,
  spawn, shutdown,
}

encode : LanguageId → List ℕ
encode rust = 0 ∷ []
encode type_script = 1 ∷ []
encode java_script = 2 ∷ []
encode go = 3 ∷ []
encode python = 4 ∷ []
encode (other ext) = 5 ∷ ext

decode : List ℕ → LanguageId
decode [] = rust
decode (n ∷ ext) =
    if n == 0
    then rust
    else if n == 1
    then type_script
    else if n == 2
    then java_script
    else if n == 3
    then go
    else if n == 4
    then python
    else other ext

decode-encode : (l : LanguageId) → decode (encode l) ≡ l
unfolding decode encode
decode-encode rust = refl
decode-encode type_script = refl
decode-encode java_script = refl
decode-encode go = refl
decode-encode python = refl
decode-encode (other ext) = refl

-- the derived `Eq`
instance pub language_eq : Eq LanguageId
language_eq = record {
  equal = λ a b. encode a == encode b;
  decides = λ a b. (
    λ h. sym (decode-encode a) ∙ ap decode ((==_iff (encode a) (encode b)).0 h) ∙ decode-encode b,
    λ p. (==_iff (encode a) (encode b)).1 (ap encode p),
  );
}

pub record LanguageServerPool (j : Json) : Type 0 where
  pub servers : Map LanguageId ℕ
  pub started : ℕ
  pub proxies : Map ℕ (Session j)

-- `Result<Arc<LanguageServerProxy>>`
pub data PoolResult : Type 0 where
  server : ℕ → PoolResult
  unserved : SpawnError → PoolResult

-- how the messages of a shutdown are written, what the server answers, and whether its process can
-- be killed
pub record Parting : Type 0 where
  pub asked : Written
  pub answer : Option Text
  pub told : Written
  pub killing : Bool

module _ (j : Json) where
  unfoldable pub new : LanguageServerPool j
  new = record { servers = []; started = 0; proxies = [] }

  -- `get_or_spawn` behind the look-up: it spawns a server and puts it in
  unfoldable pub add :
      LanguageId → Spawned → LanguageServerPool j → PoolResult × LanguageServerPool j
  unfolding spawn Map.insert
  add lang outcome pool = elim (spawn lang outcome) [
    | failed e ↦ (unserved e, pool)
    | proxy p ↦ (
      server pool.started,
      record pool {
        servers = Map.insert lang pool.started pool.servers;
        started = pool.started + 1;
        proxies =
            Map.insert pool.started (record { proxy = p; begun = 0; requests = []; channels = [] })
              pool.proxies;
      },
    )
  ]

  unfoldable pub get_or_spawn :
      LanguageId → Spawned → LanguageServerPool j → PoolResult × LanguageServerPool j
  unfolding add Map.get
  get_or_spawn lang outcome pool = elim (Map.get lang pool.servers) [
    | some n ↦ (server n, pool)
    | none ↦ add lang outcome pool
  ]

  unfoldable pub shutdown_server : Parting → ℕ → Map ℕ (Session j) → Map ℕ (Session j)
  unfolding shutdown Map.get Map.insert
  shutdown_server p n proxies = elim (Map.get n proxies) [
    | none ↦ proxies
    | some s ↦ Map.insert n (shutdown j p.asked p.answer p.told p.killing s) proxies
  ]

  unfoldable pub shutdown_each :
      (ℕ → Parting) → Map LanguageId ℕ → Map ℕ (Session j) → Map ℕ (Session j)
  unfolding shutdown_server
  shutdown_each partings [] proxies = proxies
  shutdown_each partings ((lang, n) ∷ more) proxies =
      shutdown_each partings more (shutdown_server (partings n) n proxies)

  unfoldable pub shutdown_all : (ℕ → Parting) → LanguageServerPool j → LanguageServerPool j
  unfolding shutdown_each
  shutdown_all partings pool = record pool {
    servers = [];
    proxies = shutdown_each partings pool.servers pool.proxies;
  }
