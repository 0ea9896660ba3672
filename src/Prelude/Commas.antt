-- ===== src/Prelude/Commas.antt =====
-- `split(',')` and `join(',')`.
use Prim.Native.Char.{code}
use Prim.Native.String
use Prim.Native.String.{String}
use mathlib.Core.List.{List, [], ◌∷◌}
use runc.Prelude.Tests.{◌==◌, if◌then◌else◌}

-- `s.split(',')`: the first part, and the others
abbrev pub split_at_comma : String → String × List String
split_at_comma String.[] = (String.[], [])
split_at_comma (String.◌∷◌ c s) =
    let (part, parts) = split_at_comma s in
    if code c == b',' then (String.[], part ∷ parts) else (String.◌∷◌ c part, parts)

unfoldable pub split_comma : String → List String
split_comma s = let (part, parts) = split_at_comma s in part ∷ parts

-- `parts.join(',')`
unfoldable pub join_comma : List String → String
join_comma [] = ""
join_comma (x ∷ []) = x
join_comma (x ∷ y ∷ ys) = let rest = join_comma (y ∷ ys) in String.◌++◌ x (String.◌∷◌ "," rest)
