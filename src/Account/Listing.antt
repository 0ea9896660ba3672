-- ===== src/Account/Listing.antt =====
-- What the server tells of users and where they sign in from: `retrieveUserList`
-- (routes/authenticatedUsers.ts) and `saveLoginIp` (routes/saveLoginIp.ts). The decoding of tokens
-- (jsonwebtoken) and `sanitizeSecure` of lib/insecurity.ts, which ends where its package does, are
-- arguments.
pub mod Masking
use Prim.Native.Char.{code}
use Prim.Native.String
use runc.Prelude.{
  ℕ, zero, suc, String, Bool, false, not, ◌||◌, Option, none, some, List, [], ◌∷◌, map, ◌==◌, ◌===◌,
  if◌then◌else◌,
}
use runc.Prelude.Http.{Outcome, ok, thrown, Reply, send, refuse, next_error}
use runc.Database.{Orm}
use runc.Auth.Users.{User, AuthenticatedUsers, token_of, id_insert}
use runc.Prelude.Texts.{starts_with}
use runc.Challenges.{Board, solve_if}
use runc.Challenges.Enabled.{SafetyMode, Surroundings}
use runc.Sanitizing.{is_enabled, iframe}
use runc.Auth.Server.{Services, by_id, is_impostor}

-- `.` matches no line terminator: LF, CR, U+2028, U+2029.
abbrev ends_line : ℕ → Bool
ends_line c = c == 10 || (c == 13 || (c == 8232 || c == 8233))

-- `text.replace(/./g, '*')`
unfoldable pub masked : String → String
masked String.[] = String.[]
masked (String.◌∷◌ c s) = String.◌∷◌ (if ends_line (code c) then c else "*") (masked s)

-- `decode(userToken, { json: true })`: the claim `iat`, in seconds, of a token that is one.
pub record Decoded : Type 0 where
  pub iat : Option ℕ

-- A row of the answer: the user's values, of which two are masked, and `lastLoginTime` in ms.
pub record ListedUser : Type 0 where
  pub user : User
  pub last_login_time : Option ℕ

abbrev or_zero : Option ℕ → ℕ
or_zero none = 0
or_zero (some n) = n

-- `new Date(parsedToken?.iat ?? 0 * 1000)`: the product is the default, 0.
abbrev time_of : Option Decoded → Option ℕ
time_of none = none
time_of (some d) = some (or_zero d.iat)

-- A user without a token, or with an empty one, has no time.
abbrev login_time : (String → Option Decoded) → Option String → Option ℕ
login_time decode none = none
login_time decode (some token) = if token === "" then none else time_of (decode token)

abbrev listed : (String → Option Decoded) → AuthenticatedUsers → User → ListedUser
listed decode a u = record {
  user = record u { password = masked u.password; totp_secret = masked u.totp_secret };
  last_login_time = login_time decode (token_of (some u) a);
}

abbrev not_deleted : User → Bool
not_deleted u = not u.deleted

module _ (e : Orm) (decode : String → Option Decoded) where
  abbrev answered : AuthenticatedUsers → Outcome (List User) → Reply (List ListedUser)
  answered a (ok users) = send 200 (map (listed decode a) users)
  answered a (thrown x) = next_error x

  unfoldable pub retrieve_user_list : AuthenticatedUsers → List User → Reply (List ListedUser)
  unfolding masked token_of
  retrieve_user_list a users = answered a (e.find_all not_deleted users)

-- The header `true-client-ip`: absent, a text, or a list of texts.
pub data Header : Type 0 where
  absent : Header
  text : String → Header
  texts : List String → Header

abbrev first : Header → Option String
first absent = none
first (text s) = some s
first (texts []) = none
first (texts (s ∷ ss)) = some s

abbrev or_empty : Option String → String
or_empty none = ""
or_empty (some s) = s

-- `text.substr(7)`
abbrev drop : ℕ → String → String
drop zero s = s
drop (suc n) String.[] = String.[]
drop (suc n) (String.◌∷◌ c s) = drop n s

-- `toSimpleIpAddress` of lib/utils.ts
unfoldable pub to_simple_ip_address : String → String
to_simple_ip_address s =
    if starts_with s "::ffff:" then drop 7 s else if s === "::1" then "127.0.0.1" else s

-- What `saveLoginIp` reads and writes: the column `lastLoginIp` stands beside the users' rows.
pub record Visits : Type 0 where
  pub users : List User
  pub board : Board
  pub last_login_ips : List (ℕ × String)

abbrev http_header_xss : String
http_header_xss = "httpHeaderXssChallenge"

module _ (e : Services) (mode : SafetyMode) (at : Surroundings)
    (sanitize_secure : String → String) where
  -- The address to store, from the header and the address of the socket, if it has one.
  unfoldable pub last_login_ip : Header → Option String → Board → String
  unfolding to_simple_ip_address
  last_login_ip header remote b =
      if is_enabled mode at http_header_xss b
      then elim (first header) [ none ↦ to_simple_ip_address (or_empty remote) | some ip ↦ ip ]
      else sanitize_secure (or_empty (first header))

  abbrev is_attack : Option String → Bool
  is_attack none = false
  is_attack (some ip) = ip === iframe

  abbrev after_header : Header → Visits → Visits
  after_header header s =
      if is_enabled mode at http_header_xss s.board
      then record s { board = solve_if http_header_xss (is_attack (first header)) false s.board }
      else s

  -- `user?.update({ lastLoginIp })`, whose hook refuses one e-mail address
  abbrev pub updated : String → Visits → Outcome (Option User) → Reply (Option User) × Visits
  updated ip s (thrown x) = (next_error x, s)
  updated ip s (ok none) = (send 200 none, s)
  updated ip s (ok (some u)) =
      if is_impostor e u
      then (
        next_error "Nice try, but this is not how the \"Ephemeral Accountant\" challenge works!",
        s,
      )
      else (send 200 (some u), record s { last_login_ips = id_insert u.id ip s.last_login_ips })

  -- The user is the id in the session of the request, if there is one.
  unfoldable pub save_login_ip :
      Option ℕ → Header → Option String → Visits → Reply (Option User) × Visits
  unfolding last_login_ip
  save_login_ip none header remote s = (refuse 401 "Unauthorized", s)
  save_login_ip (some id) header remote s =
      updated (last_login_ip header remote s.board) (after_header header s)
        (e.orm.find_one (by_id id) s.users)
