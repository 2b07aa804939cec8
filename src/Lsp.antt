-- ===== src/Lsp.antt =====
-- crates/vraftls-lsp: which node a request of an editor goes to, what its notifications and requests
-- do, and the proxies of the language servers behind them.
pub mod Gateway
pub mod Framing
pub mod Json
pub mod Proxy
pub mod Pool
pub mod Router
pub mod Tests
