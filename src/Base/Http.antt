-- ===== src/Base/Http.antt =====
-- What the discoveries take from cpp-httplib: the answer to a request, or `none` without one.
use mathlib.Core.Option.{Option, none, some}
use mathlib.Core.List.{List}
use Prim.Native.Nat.{ℕ}
use polymarket_tickscope.Base.Tests.{if◌then◌else◌, ◌==◌}
use polymarket_tickscope.Base.Text.{Text}
use polymarket_tickscope.Base.Json.{Json}

pub record Response : Type 0 where
  pub status : ℕ
  pub body : Text

-- The body of an answer with status 200.
unfoldable pub body_if_ok : Option Response → Option Text
body_if_ok none = none
body_if_ok (some res) = if res.status == 200 then some res.body else none

-- The array of a body.
unfoldable pub markets_of : {F : Type 0} (json : Json F) → Text → Option (List (Option json.Object))
markets_of json body = elim (json.iterate body) [ none ↦ none | some doc ↦ json.doc_array doc ]
