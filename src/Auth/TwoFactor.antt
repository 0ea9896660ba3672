-- ===== src/Auth/TwoFactor.antt =====
-- routes/2fa.ts. Every throw ends in the handler's `catch`, which answers 401.
use runc.Prelude.{
  ℕ, String, Bool, not, Option, none, some, [], ◌∷◌, ◌===◌, if◌then◌else◌, concat_texts,
}
use runc.Prelude.Http.{Action, pure, throw, gets, catch, modify, ◌>>=◌, ◌>>◌, Reply, send, refuse}
use runc.Auth.Users.{
  User, Payload, session, needs_second_factor, totp_setup, put, from_request, update_from,
}
use runc.Auth.Roles.{verified}
use runc.Auth.Server.{
  Server, Services, on_auth, check_challenge, find_user, save_user, find_or_create_basket,
}

pub data TwoFactorReply : Type 0 where
  authentication : String → ℕ → String → TwoFactorReply
  not_set_up : String → String → String → TwoFactorReply
  set_up : TwoFactorReply
  done : TwoFactorReply

pub record SetupBody : Type 0 where
  pub password : String
  pub setup_token : Option String
  pub initial_token : String

abbrev pub unauthorized : {A : Type 0} → Action Server (Reply A) → Action Server (Reply A)
unauthorized m = catch m (λ x. pure (refuse 401 ""))

-- `if (!data) throw`, and then `data.data`, which is undefined for a payload without a user.
abbrev pub logged_in : Option Payload → Action Server User
logged_in (some (session s)) = pure s.user
logged_in _ = throw "Need to login before setting up 2FA"

abbrev pub expect_user : Option User → Action Server User
expect_user none = throw "No such user found!"
expect_user (some u) = pure u

abbrev pub reject_if : Bool → String → Action Server (Unit {0})
reject_if b why = if b then throw why else pure tt

module _ (e : Services) where
  abbrev pub second_factor_user : Payload → Action Server ℕ
  second_factor_user (needs_second_factor id) = pure id
  second_factor_user _ = throw "Invalid token type"

  abbrev pub secret_of : Payload → Action Server String
  secret_of (totp_setup secret) = pure secret
  secret_of _ = throw "SetupToken is of wrong type"

  abbrev pub current_user : Option String → Action Server User
  current_user authorization = do
    p ← gets (λ (s : Server). from_request authorization s.auth)
    logged_in p

  -- What follows a valid one-time password.
  unfoldable pub admit : User → Action Server (Reply TwoFactorReply)
  unfolding put
  admit u = do
    modify (
        check_challenge "twoFactorAuthUnsafeSecretStorageChallenge"
          (u.email === concat_texts ("wurstbrot@" ∷ e.domain ∷ [])))
    basket ← find_or_create_basket e u.id
    let token = e.crypto.authorize (session (record { user = u; bid = none }))
    on_auth (put token (session (record { user = u; bid = some basket.id })))
    pure (send 200 (authentication token basket.id u.email))

  unfoldable pub verify_second_factor :
      Option String → String → Action Server (Reply TwoFactorReply)
  unfolding verified admit
  verify_second_factor tmp_token totp_token = unauthorized (do
    id ← second_factor_user (verified e.crypto tmp_token)
    found ← find_user e id
    u ← expect_user found
    if e.crypto.check_otp totp_token u.totp_secret then admit u else pure (refuse 401 ""))

  unfoldable pub status : Option String → Action Server (Reply TwoFactorReply)
  unfolding from_request
  status authorization = unauthorized (do
    u ← current_user authorization
    if u.totp_secret === ""
        then pure (
            send 200 (
              not_set_up e.crypto.generate_secret u.email
                (e.crypto.authorize (totp_setup e.crypto.generate_secret))))
        else pure (send 200 set_up))

  -- Writes the secret to the row, and the row to the cache under the request's token.
  unfoldable pub store_secret : Option String → String → User → Action Server (Reply TwoFactorReply)
  unfolding update_from
  store_secret authorization secret u = do
    found ← find_user e u.id
    row ← expect_user found
    let updated = record row { totp_secret = secret }
    save_user e updated
    on_auth (update_from authorization (session (record { user = updated; bid = none })))
    pure (send 200 done)

  unfoldable pub setup : Option String → SetupBody → Action Server (Reply TwoFactorReply)
  unfolding verified from_request store_secret
  setup authorization body = unauthorized (do
    u ← current_user authorization
    reject_if (not (u.password === e.crypto.hash body.password))
        "Password doesnt match stored password"
    reject_if (not (u.totp_secret === "")) "User has 2fa already setup"
    secret ← secret_of (verified e.crypto body.setup_token)
    reject_if (not (e.crypto.check_otp body.initial_token secret))
        "Initial token doesnt match the secret from the setupToken"
    store_secret authorization secret u)

  unfoldable pub disable : Option String → String → Action Server (Reply TwoFactorReply)
  unfolding from_request store_secret
  disable authorization password = unauthorized (do
    u ← current_user authorization
    reject_if (not (u.password === e.crypto.hash password)) "Password doesnt match stored password"
    store_secret authorization "" u)
