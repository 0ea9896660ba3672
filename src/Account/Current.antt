-- ===== src/Account/Current.antt =====
-- `retrieveLoggedInUser` (routes/currentUser.ts). What `security.verify` and the cache of sessions
-- say of the cookie's token are arguments; the data of the cached user are its fields by name. A
-- field of the answer that is undefined is not sent.
pub mod Fields
use Prim.Native.Char.{code}
use Prim.Native.String
use runc.Prelude.{
  ℕ, String, Bool, true, false, not, ◌&&◌, ◌||◌, Option, none, some, List, [], ◌∷◌, map, leb, ◌==◌,
  ◌===◌, if◌then◌else◌,
}
use runc.Prelude.Commas.{split_comma}
use runc.Challenges.{Board, solve_if}

abbrev pub Data : Type 0
Data = List (String × String)

abbrev pub field : String → Data → Option String
field k [] = none
field k ((j, v) ∷ d) = if j === k then some v else field k d

abbrev is_space : ℕ → Bool
is_space c = (leb 9 c && leb c 13) || (c == 32 || c == 160)

abbrev trim_start : String → String
trim_start String.[] = String.[]
trim_start (String.◌∷◌ c s) =
    let rest = trim_start s in if is_space (code c) then rest else String.◌∷◌ c s

abbrev trim_end : String → String
trim_end String.[] = String.[]
trim_end (String.◌∷◌ c s) =
    let rest = trim_end s in
    if is_space (code c) && rest === "" then String.[] else String.◌∷◌ c rest

-- `s.trim()`
unfoldable pub trim : String → String
trim s = trim_end (trim_start s)

-- `fieldsParam ? fieldsParam.split(',').map(f => f.trim()) : []`
unfoldable pub requested_fields : Option String → List String
unfolding split_comma trim
requested_fields none = []
requested_fields (some s) = if s === "" then [] else map trim (split_comma s)

abbrev pub standard_fields : List String
standard_fields = "id" ∷ "email" ∷ "lastLoginIp" ∷ "profileImage" ∷ []

abbrev pub add_field : String → Option String → Data → Data
add_field f none d = d
add_field f (some v) d = (f, v) ∷ d

-- `if (user?.data[field] !== undefined) baseUser[field] = user?.data[field]`, for each field
abbrev pub pick : Data → List String → Data
pick d [] = []
pick d (f ∷ fs) = add_field f (field f d) (pick d fs)

abbrev pub or_standard : List String → List String
or_standard [] = standard_fields
or_standard (f ∷ fs) = f ∷ fs

abbrev pub data_of : Option Data → Data
data_of none = []
data_of (some d) = d

-- `response.user`
unfoldable pub base_user : Bool → Option Data → Option String → Data
unfolding requested_fields
base_user verified user fields =
    if verified then pick (data_of user) (or_standard (requested_fields fields)) else []

abbrev pub truthy : Option String → Bool
truthy none = false
truthy (some s) = not (s === "")

-- The answer, by `json` or by `jsonp` with the callback's name.
pub data Answer : Type 0 where
  json : Data → Answer
  jsonp : String → Data → Answer

abbrev answered : Option String → Data → Board → Answer × Board
answered none user b = (json user, b)
answered (some callback) user b = (jsonp callback user, solve_if "emailLeakChallenge" true false b)

unfoldable pub retrieve_logged_in_user :
    Bool → Option Data → Option String → Option String → Board → Answer × Board
unfolding base_user
retrieve_logged_in_user verified user fields callback b =
    let shown = base_user verified user fields in
    answered callback shown
      (solve_if "passwordHashLeakChallenge" (truthy (field "password" shown)) false b)
