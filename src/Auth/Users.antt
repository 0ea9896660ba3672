-- ===== src/Auth/Users.antt =====
-- `authenticatedUsers` of lib/insecurity.ts, and the rows and token payloads that it holds.
pub mod Sessions
use runc.Prelude.{ℕ, String, Bool, Option, none, some, List, [], ◌∷◌, ◌==◌, ◌===◌, if◌then◌else◌}
use runc.Prelude.Http.{ok, thrown, Action}
use runc.Auth.Text.{jwt_from, unquote}

-- The columns of the Users table that the handlers read.
pub record User : Type 0 where
  pub id : ℕ
  pub username : String
  pub email : String
  pub password : String
  pub role : String
  pub deluxe_token : String
  pub totp_secret : String
  pub profile_image : String
  pub deleted : Bool

-- `{ status, data: user, bid }`
pub record Session : Type 0 where
  pub user : User
  pub bid : Option ℕ

-- What a signed token carries; `other` is a payload without `data`, `userId` or `secret`.
pub data Payload : Type 0 where
  session : Session → Payload
  needs_second_factor : ℕ → Payload
  totp_setup : String → Payload
  other : Payload

-- `tokenMap` and `idMap`
pub record AuthenticatedUsers : Type 0 where
  pub token_map : List (String × Payload)
  pub id_map : List (ℕ × String)

abbrev pub token_lookup : String → List (String × Payload) → Option Payload
token_lookup k [] = none
token_lookup k ((j, v) ∷ m) = if j === k then some v else token_lookup k m

abbrev pub token_insert : String → Payload → List (String × Payload) → List (String × Payload)
token_insert k v [] = (k, v) ∷ []
token_insert k v ((j, w) ∷ m) = if j === k then (j, v) ∷ m else (j, w) ∷ token_insert k v m

abbrev pub id_lookup : ℕ → List (ℕ × String) → Option String
id_lookup k [] = none
id_lookup k ((j, v) ∷ m) = if j == k then some v else id_lookup k m

abbrev pub id_insert : ℕ → String → List (ℕ × String) → List (ℕ × String)
id_insert k v [] = (k, v) ∷ []
id_insert k v ((j, w) ∷ m) = if j == k then (j, v) ∷ m else (j, w) ∷ id_insert k v m

-- The token is entered before `user.data.id` is read, which throws if there is no `data`.
unfoldable pub put : String → Payload → Action AuthenticatedUsers (Unit {0})
put token (session s) a = (
  ok tt,
  record {
    token_map = token_insert token (session s) a.token_map;
    id_map = id_insert s.user.id token a.id_map;
  },
)
put token p a = (thrown "TypeError", record a { token_map = token_insert token p a.token_map })

unfoldable pub get : Option String → AuthenticatedUsers → Option Payload
get none a = none
get (some token) a = if token === "" then none else token_lookup (unquote token) a.token_map

unfoldable pub token_of : Option User → AuthenticatedUsers → Option String
token_of none a = none
token_of (some u) a = id_lookup u.id a.id_map

-- The request is its `authorization` header.
unfoldable pub from_request : Option String → AuthenticatedUsers → Option Payload
unfolding get
from_request authorization a = get (jwt_from authorization) a

abbrev or_undefined : Option String → String
or_undefined none = "undefined"
or_undefined (some t) = t

unfoldable pub update_from : Option String → Payload → Action AuthenticatedUsers (Unit {0})
unfolding put
update_from authorization p = put (or_undefined (jwt_from authorization)) p
