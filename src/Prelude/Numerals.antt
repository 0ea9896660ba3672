-- ===== src/Prelude/Numerals.antt =====
-- `toString` of a whole number.
use Prim.Native.Nat.{ℕ, zero, suc, ◌/◌, ◌%◌}
use Prim.Native.String
use Prim.Native.String.{String}
use mathlib.Core.List.{List, [], ◌∷◌}
use mathlib.Core.Option.{Option, none, some}
use runc.Prelude.Tests.{ltb, if◌then◌else◌}
use runc.Prelude.Lists.{get_elem?}
use runc.Prelude.Int.{ℤ, pos, negsuc}

abbrev numerals : List String
numerals = "0" ∷ "1" ∷ "2" ∷ "3" ∷ "4" ∷ "5" ∷ "6" ∷ "7" ∷ "8" ∷ "9" ∷ []

abbrev text_of : Option String → String
text_of none = ""
text_of (some s) = s

abbrev digit : ℕ → String
digit d = text_of (get_elem? numerals d)

-- The decimal digits; a number has no more of them than its value plus one.
abbrev digits : ℕ → ℕ → String
digits zero n = ""
digits (suc fuel) n =
    let rest = digits fuel (n / 10) in String.◌++◌ (if ltb n 10 then "" else rest) (digit (n % 10))

-- `String(n)`, as `join` writes a number
unfoldable pub to_string : ℤ → String
to_string (pos n) = digits (suc n) n
to_string (negsuc n) = String.◌∷◌ "-" (digits (suc (suc n)) (suc n))
