-- ===== src/Query/Values.antt =====
-- What crates/query uses of serde_json and hex: parameters of the model. The names of fields and
-- the fixed texts are literals, other texts are lists of their code points.
use qonduit.Common.{ℕ, List, Bool, Option}
use qonduit.Bytes.{Bytes}
use Prim.Native.String.{String}

pub record External : Type 1 where
  pub Value : Type 0
  -- `from_slice::<Value>`, and the text of its error
  pub from_slice : Bytes → Option Value
  pub json_error : Bytes → Bytes
  -- what `json!` builds
  pub null : Value
  pub number : ℕ → Value
  pub boolean : Bool → Value
  pub text : Bytes → Value
  pub literal : String → Value
  pub array : List Value → Value
  pub object : List (String × Value) → Value
  -- the accessors; `insert` is that of `as_object_mut`, and leaves other values alone
  pub get : Value → String → Option Value
  pub as_array : Value → Option (List Value)
  pub as_str : Value → Option Bytes
  pub as_u64 : Value → Option ℕ
  pub insert : Value → String → Value → Value
  pub value_eq : Value → Value → Bool
  -- `hex::decode`, and the text of its error
  pub hex_decode : Bytes → Option Bytes
  pub hex_error : Bytes → Bytes
  pub k12 : Bytes → ℕ → Bytes
