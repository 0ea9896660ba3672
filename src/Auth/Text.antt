-- ===== src/Auth/Text.antt =====
-- The text functions behind the tokens: `unquote` and `jwtFrom` of lib/utils.ts, with the string
-- methods that they call. Case is folded for ASCII letters.
use Prim.Native.Char.{Char, code}
use runc.Prelude.{
  ℕ, ◌+◌, String, Bool, true, false, ◌&&◌, Option, none, some, List, [], ◌∷◌, leb, ◌==◌, ◌===◌,
  if◌then◌else◌,
}

unfoldable pub lower : ℕ → ℕ
lower c = if leb b'A' c && leb c b'Z' then c + 32 else c

same_ignoring_case : String → String → Bool
same_ignoring_case String.[] String.[] = true
same_ignoring_case String.[] (String.◌∷◌ d t) = false
same_ignoring_case (String.◌∷◌ c s) String.[] = false
same_ignoring_case (String.◌∷◌ c s) (String.◌∷◌ d t) =
    lower (code c) == lower (code d) && same_ignoring_case s t

-- `a.toLowerCase() === b.toLowerCase()`
unfoldable pub equals_ignoring_case : String → String → Bool
unfolding same_ignoring_case lower
equals_ignoring_case a b = same_ignoring_case a b

prepend : Char → List String → List String
prepend c [] = String.◌∷◌ c String.[] ∷ []
prepend c (w ∷ ws) = String.◌∷◌ c w ∷ ws

-- `s.split(' ')`
split_space : String → List String
split_space String.[] = String.[] ∷ []
split_space (String.◌∷◌ c s) =
    if code c == b' ' then String.[] ∷ split_space s else prepend c (split_space s)

abbrev bearer_token : List String → Option String
bearer_token [] = none
bearer_token (scheme ∷ []) = none
bearer_token (scheme ∷ token ∷ []) =
    if equals_ignoring_case scheme "Bearer" then some token else none
bearer_token (scheme ∷ token ∷ _ ∷ _) = none

-- A missing header and an empty one are both falsy.
unfoldable pub jwt_from : Option String → Option String
unfolding split_space prepend equals_ignoring_case
jwt_from none = none
jwt_from (some header) = if header === "" then none else bearer_token (split_space header)

last_code : ℕ → String → ℕ
last_code n String.[] = n
last_code n (String.◌∷◌ c s) = last_code (code c) s

init : Char → String → String
init c String.[] = String.[]
init c (String.◌∷◌ d s) = String.◌∷◌ c (init d s)

-- Of a quotation mark alone `substring(1, 0)` is the mark again.
unfoldable pub unquote : String → String
unfolding last_code init
unquote String.[] = String.[]
unquote (String.◌∷◌ c String.[]) = String.◌∷◌ c String.[]
unquote (String.◌∷◌ c (String.◌∷◌ d s)) =
    if code c == b'"' && last_code (code d) s == b'"'
    then init d s
    else String.◌∷◌ c (String.◌∷◌ d s)
