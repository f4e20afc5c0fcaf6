-- ===== src/Base/Json.antt =====
-- What the parsers take from simdjson, as a parameter: reading a document, and typed lookups in an
-- object. An error code other than SUCCESS is `none`. The on-demand iteration over a document is
-- seen as lookups in a value: the code reads each field at most once.
use mathlib.Core.Option.{Option}
use mathlib.Core.List.{List}
use mathlib.Core.Bool.{Bool}
use Prim.Native.Nat.{ℕ}
use polymarket_tickscope.Base.Text.{Text}

pub data JsonType : Type 0 where
  array : JsonType
  object : JsonType
  other : JsonType

-- An array is what iterating it meets. An element that is not an object is `none`: the cast
-- to an object throws there. `doc_strings` is the same array seen as strings.
pub record Json (F : Type 0) : Type 1 where
  pub Document : Type 0
  pub Object : Type 0
  pub iterate : Text → Option Document
  pub type : Document → Option JsonType
  pub doc_object : Document → Option Object
  pub doc_array : Document → Option (List (Option Object))
  pub doc_strings : Document → Option (List (Option Text))
  pub get_string : Text → Object → Option Text
  pub get_bool : Text → Object → Option Bool
  pub get_double : Text → Object → Option F
  pub get_uint64_in_string : Text → Object → Option ℕ
  pub get_double_in_string : Text → Object → Option F
  pub get_array : Text → Object → Option (List (Option Object))
