-- ===== src/Base/Text.antt =====
-- `format!` and `join`.
use Prim.Native.String.{String, ◌++◌}
use mathlib.Core.List.{List, [], ◌∷◌}

abbrev pub format : List String → String
format [] = ""
format (s ∷ ss) = s ++ format ss

abbrev pub join : String → List String → String
join sep [] = ""
join sep (s ∷ []) = s
join sep (s ∷ t ∷ ss) = s ++ (sep ++ join sep (t ∷ ss))
