-- ===== src/Cargo/Json.antt =====
-- The serde_json crate, as the registries use it.
use ferro_protocols.Prelude.{Bytes, List, Option}
use ferro_protocols.Prelude.Result.{Result}
use ferro_protocols.Prelude.Texts.{Text}

pub record Json : Type 1 where
  pub Value : Type 0
  pub from_slice : Bytes → Result Text Value
  pub to_vec : Value → Option Bytes
  pub get : Value → Text → Option Value
  pub as_str : Value → Option Text
  pub as_array : Value → Option (List Value)
  pub as_object : Value → Option (List (Text × Value))
