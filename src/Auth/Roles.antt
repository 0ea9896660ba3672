-- ===== src/Auth/Roles.antt =====
-- The token checks and role guards of lib/insecurity.ts. Cryptography is a parameter.
use runc.Prelude.{ℕ, String, Bool, true, false, not, ◌&&◌, Option, none, some, ◌===◌, if◌then◌else◌}
use runc.Prelude.Http.{ok, Action, pure, ◌>>◌, Reply, send, refuse, next}
use runc.Auth.Text.{jwt_from}
use runc.Auth.Users.{User, Payload, session, other, AuthenticatedUsers, token_lookup, put, get}

-- The packages crypto, jsonwebtoken, jws and otplib, under the server's keys. The theorems use no
-- law of them.
pub record Crypto : Type 0 where
  pub hash : String → String
  pub hmac : String → String
  pub deluxe_token : String → String
  -- `security.authorize`
  pub authorize : Payload → String
  -- `jws.verify` of a non-empty token
  pub jws_verify : String → Bool
  pub decode : String → Payload
  -- `jwt.verify`: the payload, or none if the callback gets an error
  pub jwt_verify : String → Option Payload
  -- `otplib.authenticator.check(token, secret)`
  pub check_otp : String → String → Bool
  pub generate_secret : String

module _ (c : Crypto) where
  unfoldable pub verify : Option String → Bool
  verify none = false
  verify (some token) = if token === "" then false else c.jws_verify token

  -- `verify(token) && decode(token)`, `other` standing for `false` too.
  unfoldable pub verified : Option String → Payload
  unfolding verify
  verified none = other
  verified (some token) = if verify (some token) then c.decode token else other

  -- `decodedToken?.data`
  abbrev pub user_of : Payload → Option User
  user_of (session s) = some s.user
  user_of _ = none

  abbrev pub has_role : String → Option User → Bool
  has_role role none = false
  has_role role (some u) = u.role === role

  -- The middleware `isAccounting`.
  unfoldable pub is_accounting : Option String → Reply (Unit {0})
  unfolding verified
  is_accounting authorization =
      if has_role "accounting" (user_of (verified (jwt_from authorization)))
      then next
      else refuse 403 "Malicious activity detected"

  abbrev pub has_deluxe_token : Option User → Bool
  has_deluxe_token none = false
  has_deluxe_token (some u) =
      not (u.deluxe_token === "") && u.deluxe_token === c.deluxe_token u.email

  unfoldable pub is_deluxe : Option String → Bool
  unfolding verified
  is_deluxe authorization =
      let u = user_of (verified (jwt_from authorization)) in
      has_role "deluxe" u && has_deluxe_token u

  unfoldable pub is_customer : Option String → Bool
  unfolding verified
  is_customer authorization = has_role "customer" (user_of (verified (jwt_from authorization)))

  -- The middleware `appendUserId`: the id that it writes to the body, or 401.
  unfoldable pub append_user_id : Option String → AuthenticatedUsers → Reply ℕ
  append_user_id authorization a = elim (jwt_from authorization) [
    | none ↦ refuse 401 "TypeError"
    | some token ↦ elim (token_lookup token a.token_map) [
      | none ↦ refuse 401 "TypeError"
      | some p ↦ elim (user_of p) [ none ↦ refuse 401 "TypeError" | some u ↦ send 200 u.id ]
    ]
  ]

  -- `req.cookies.token || utils.jwtFrom(req)`
  abbrev pub token_from : Option String → Option String → Option String
  token_from none authorization = jwt_from authorization
  token_from (some cookie) authorization =
      if cookie === "" then jwt_from authorization else some cookie

  abbrev is_known : Option Payload → Bool
  is_known none = false
  is_known (some p) = true

  -- The middleware `updateAuthenticatedUsers`; `next()` follows if nothing was thrown.
  unfoldable pub update_authenticated_users :
      Option String → Option String → Action AuthenticatedUsers (Reply (Unit {0}))
  unfolding put get
  update_authenticated_users cookie authorization a = elim (token_from cookie authorization) [
    | none ↦ (ok next, a)
    | some token ↦ if token === "" then (ok next, a) else elim (c.jwt_verify token) [
      | none ↦ (ok next, a)
      | some p ↦
          if is_known (get (some token) a) then (ok next, a) else (do put token p; pure next) a
    ]
  ]
