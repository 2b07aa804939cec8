-- ===== src/Lsp/Json.antt =====
-- The values of `serde_json`, as crates/vraftls-lsp/src/proxy.rs uses them.
use vraftls.Prelude.{ℕ, Option, List, Text}

-- An `i64` is the number of its 64 bits. `object` is what `json!` makes of the fields.
pub record Json : Type 1 where
  pub Value : Type 0
  pub null : Value
  pub string : Text → Value
  pub number : ℕ → Value
  pub object : List (Text × Value) → Value
  pub to_string : Value → Option Text
  pub from_slice : Text → Option Value
  pub field : Text → Value → Option Value
  pub as_i64 : Value → Option ℕ
