-- ===== src/Auth/Login.antt =====
-- routes/login.ts. The SQL engine is a parameter that runs the text of the query; the session
-- token is created from the session before the basket id is noted in it, as in the source.
use runc.Prelude.{
  ℕ, String, Bool, false, not, ◌&&◌, Option, none, some, List, [], ◌∷◌, ◌==◌, ◌===◌, if◌then◌else◌,
  length, concat_texts,
}
use runc.Prelude.Http.{
  Outcome, ok, thrown, Action, pure, await, catch, modify, ◌>>=◌, ◌>>◌, Reply, send, refuse,
  next_error,
}
use runc.Challenges.{challenge_of, not_solved, solve}
use runc.Auth.Users.{User, session, needs_second_factor, put}
use runc.Auth.Server.{Server, Services, on_auth, check_challenge, find_or_create_basket}

pub record LoginBody : Type 0 where
  pub email : String
  pub password : String

pub data LoginReply : Type 0 where
  totp_token_required : String → LoginReply
  authenticated : String → ℕ → String → LoginReply

-- The ids of `datacache.users` that the checks compare.
pub record KnownUsers : Type 0 where
  pub admin : ℕ
  pub jim : ℕ
  pub bender : ℕ
  pub chris : ℕ

module _ (e : Services) (known : KnownUsers) where
  -- The text that is handed to `sequelize.query`: the e-mail address stands in it as it was sent.
  unfoldable pub login_statement : LoginBody → String
  login_statement body = concat_texts (
      "SELECT * FROM Users WHERE email = '"
      ∷ body.email
      ∷ "' AND password = '"
      ∷ e.crypto.hash body.password
      ∷ "' AND deletedAt IS NULL"
      ∷ [])

  abbrev at_domain : String → String
  at_domain name = concat_texts (name ∷ "@" ∷ e.domain ∷ [])

  abbrev credentials : String → String → LoginBody → Bool
  credentials email password body = body.email === email && body.password === password

  unfoldable pub verify_pre_login_challenges : LoginBody → Server → Server
  verify_pre_login_challenges body s =
      check_challenge "exposedCredentialsChallenge"
        (credentials (at_domain "testing") "IamUsedForTesting" body)
        (check_challenge "oauthUserPasswordChallenge"
          (credentials "bjoern.kimminich@gmail.com" "bW9jLmxpYW1nQGhjaW5pbW1pay5ucmVvamI=" body)
          (check_challenge "dlpPasswordSprayingChallenge"
            (credentials (at_domain "J12934") "0Y8rMnww$*9VFYE§59-!Fg1L6t&6lB" body)
            (check_challenge "loginAmyChallenge"
              (credentials (at_domain "amy") "K1f....................." body)
              (check_challenge "loginRapperChallenge"
                (credentials (at_domain "mc.safesearch") "Mr. N00dles" body)
                (check_challenge "loginSupportChallenge"
                  (credentials (at_domain "support") "J6aVjTgOpRs@?5l!Zkq2AYnCE@RF$P" body)
                  (check_challenge "weakPasswordChallenge"
                    (credentials (at_domain "admin") "admin123" body) s))))))

  -- `count` is what `UserModel.count` resolves to; a rejection is thrown in a promise of its own.
  abbrev verify_accountant : User → Outcome ℕ → Server → Server
  verify_accountant u (thrown x) s = s
  verify_accountant u (ok n) s =
      if not_solved (challenge_of "ephemeralAccountantChallenge" s.board)
        && (u.email === (at_domain "acc0unt4nt") && u.role === "accounting")
        && n == 0
      then record s { board = solve "ephemeralAccountantChallenge" false s.board }
      else s

  abbrev accountants : Server → Outcome ℕ
  accountants s =
      elim (e.orm.find_all (λ (u : User). u.email === (at_domain "acc0unt4nt") && not u.deleted)
        s.users) [ ok us ↦ ok (length us) | thrown x ↦ thrown x ]

  unfoldable pub verify_post_login_challenges : User → Server → Server
  verify_post_login_challenges u s =
      let s' = check_challenge "ghostLoginChallenge" (u.id == known.chris) (
        check_challenge "loginBenderChallenge" (u.id == known.bender) (
          check_challenge "loginJimChallenge" (u.id == known.jim)
            (check_challenge "loginAdminChallenge" (u.id == known.admin) s))) in
      verify_accountant u (accountants s') s'

  unfoldable pub after_login : User → Action Server (Reply LoginReply)
  unfolding verify_post_login_challenges put
  after_login u = do
    modify (verify_post_login_challenges u)
    catch
        (do
          basket ← find_or_create_basket e u.id
          let token = e.crypto.authorize (session (record { user = u; bid = none }))
          on_auth (put token (session (record { user = u; bid = some basket.id })))
          pure (send 200 (authenticated token basket.id u.email)))
        (λ x. pure (next_error x))

  -- An id of 0 is falsy, like a missing user.
  unfoldable pub answer_login : Option User → Action Server (Reply LoginReply)
  unfolding after_login
  answer_login none = pure (refuse 401 "Invalid email or password.")
  answer_login (some u) =
      if u.id == 0
      then pure (refuse 401 "Invalid email or password.")
      else if not (u.totp_secret === "")
      then pure (send 401 (totp_token_required (e.crypto.authorize (needs_second_factor u.id))))
      else after_login u

  -- `run` is the engine: what the statement finds in the table.
  unfoldable pub login :
      (String → List User → Outcome (Option User)) → LoginBody → Action Server (Reply LoginReply)
  unfolding verify_pre_login_challenges
  login run body = do
    modify (verify_pre_login_challenges body)
    catch (do found ← await (λ s. run (login_statement body) s.users); answer_login found)
        (λ x. pure (next_error x))
