-- ===== src/Account/Profile.antt =====
-- The profile: the setter of `username` in models/user.ts with `sanitizeLegacy` of
-- lib/insecurity.ts, and `updateUserProfile` (routes/updateUserProfile.ts). The redirect's answer is
-- the token of the cookie that goes with it. `sanitizeSecure` is an argument.
pub mod Legacy
pub mod Updates
use Prim.Native.Char.{code}
use Prim.Native.String
use runc.Prelude.{
  ℕ, zero, suc, String, Bool, false, not, ◌&&◌, ◌||◌, Option, none, some, [], ◌∷◌, leb, ◌==◌, ◌===◌,
  if◌then◌else◌, concat_texts,
}
use runc.Prelude.Texts.{contains}
use runc.Prelude.Http.{Action, pure, gets, catch, modify, ◌>>=◌, ◌>>◌, Reply, send, next_error}
use runc.Challenges.{Board}
use runc.Challenges.Enabled.{SafetyMode, Surroundings}
use runc.Sanitizing.{is_enabled}
use runc.Auth.Users.{User, Payload, session, get, put}
use runc.Auth.Server.{Server, Services, on_auth, check_challenge, find_user, save_user}

-- `\w`
abbrev pub is_word : ℕ → Bool
is_word c =
    (leb b'a' c && leb c b'z')
    || ((leb b'A' c && leb c b'Z') || ((leb b'0' c && leb c b'9') || c == b'_'))

-- How far a match of `<(?:\w+)\W+?[\w]` has come: behind `<`, in the word, in what follows it. No run
-- can be cut short and still match, so a match is followed without going back.
pub data Progress : Type 0 where
  opened : Progress
  word : Progress
  gap : Progress

-- The text behind the match, if there is one.
unfoldable pub match_from : Progress → String → Option String
match_from p String.[] = none
match_from opened (String.◌∷◌ c s) =
    let rest = match_from word s in if is_word (code c) then rest else none
match_from word (String.◌∷◌ c s) =
    let same = match_from word s in
    let left = match_from gap s in if is_word (code c) then same else left
match_from gap (String.◌∷◌ c s) =
    let rest = match_from gap s in if is_word (code c) then some s else rest

-- `input.replace(/<(?:\w+)\W+?[\w]/gi, '')`, with a round of fuel for each character.
unfoldable pub sanitize_legacy_on : ℕ → String → String
unfolding match_from
sanitize_legacy_on zero s = s
sanitize_legacy_on (suc n) String.[] = String.[]
sanitize_legacy_on (suc n) (String.◌∷◌ c s) =
    let kept = String.◌∷◌ c (sanitize_legacy_on n s) in
    if code c == b'<'
    then elim (match_from opened s) [ none ↦ kept | some t ↦ sanitize_legacy_on n t ]
    else kept

abbrev pub characters : String → ℕ
characters String.[] = 0
characters (String.◌∷◌ c s) = suc (characters s)

unfoldable pub sanitize_legacy : String → String
unfolding sanitize_legacy_on
sanitize_legacy s = sanitize_legacy_on (characters s) s

module _ (sanitize_secure : String → String) (mode : SafetyMode) (at : Surroundings) where
  unfoldable pub set_username : String → Board → String
  unfolding sanitize_legacy
  set_username username b =
      if is_enabled mode at "persistedXssUserChallenge" b
      then sanitize_legacy username
      else sanitize_secure username

-- The cookie's token, two headers, the socket's address, and the name in the body.
pub record ProfileRequest : Type 0 where
  pub token : Option String
  pub origin : Option String
  pub referer : Option String
  pub remote_address : String
  pub username : String

abbrev from_site : String → Bool
from_site s = contains s "://htmledit.squarefree.com"

-- `origin?.includes(…) ?? referer?.includes(…)`
abbrev is_from_site : Option String → Option String → Bool
is_from_site none none = false
is_from_site none (some referer) = from_site referer
is_from_site (some origin) referer = from_site origin

module _ (e : Services) (sanitize_secure : String → String) (mode : SafetyMode)
    (at : Surroundings) where
  abbrev pub with_username : String → Server → User → User
  with_username username s u = record u {
    username = set_username sanitize_secure mode at username s.board;
  }

  -- `user.update({ username })`: the row as it was saved
  abbrev pub save_username : String → User → Action Server User
  save_username username u =
      gets (λ (s : Server). with_username username s u) >>= λ v. save_user e v >> pure v

  -- `queryResultToJson`, `authorize` and `put`
  abbrev pub renew : User → Action Server (Reply String)
  renew u =
      let token = e.crypto.authorize (session record { user = u; bid = none }) in
      on_auth (put token (session record { user = u; bid = none })) >> pure (send 302 token)

  abbrev pub csrf_checked : ProfileRequest → User → Server → Server
  csrf_checked q u =
      check_challenge "csrfChallenge"
        (is_from_site q.origin q.referer && not (q.username === u.username))

  abbrev pub update_found : ProfileRequest → Option User → Action Server (Reply String)
  update_found q none = pure (next_error "User not found")
  update_found q (some u) = modify (csrf_checked q u) >> save_username q.username u >>= renew

  -- A payload without `data` throws when its id is read.
  abbrev pub update_as : ProfileRequest → Option Payload → Action Server (Reply String)
  update_as q none =
      pure (next_error (concat_texts ("Blocked illegal activity by " ∷ q.remote_address ∷ [])))
  update_as q (some (session c)) =
      catch (find_user e c.user.id >>= update_found q) (λ x. pure (next_error x))
  update_as q (some p) = pure (next_error "TypeError")

  unfoldable pub update_user_profile : ProfileRequest → Action Server (Reply String)
  update_user_profile q s = update_as q (get q.token s.auth) s
