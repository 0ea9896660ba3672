-- ===== src/Routes.antt =====
-- server.ts of test-container/rootfs/juice-shop, from the rate limit of /rest/user/reset-password
-- to the client: which middlewares a request passes, and in which order. Express calls the layers
-- in the order in which they were registered; each answers, throws, or calls `next`. Routes/Table
-- has the layers before the generated REST API, Routes/Custom those behind it. `serve` takes what
-- comes after its layers as a continuation `k`.
pub mod Table
pub mod Rules
pub mod Blocking
pub mod Access
pub mod Custom
pub mod Handlers
use runc.Prelude.{ℕ, String, Bool, ◌&&◌, Option, List, [], ◌∷◌, ◌==◌, if◌then◌else◌}
use runc.Prelude.Http.{ok, Action, pure, ◌>>=◌, Reply, send, refuse, next, next_error, unanswered}
use runc.Auth.Users.{AuthenticatedUsers}
use runc.Auth.Roles
use runc.Auth.Roles.{Crypto}

pub data Method : Type 0 where
  get post put patch delete : Method

abbrev pub rank : Method → ℕ
rank get = 0
rank post = 1
rank put = 2
rank patch = 3
rank delete = 4

pub record Request : Type 0 where
  pub method : Method
  pub path : String
  pub authorization : Option String

-- `app.use`, or `app.get` and the like
pub data Mount : Type 0 where
  all : Mount
  on : Method → Mount

-- The guards of lib/insecurity.ts; `step` is any other middleware, by its name in the source.
pub data Middleware : Type 0 where
  is_authorized deny_all append_user_id is_accounting : Middleware
  step : String → Middleware

pub record Layer : Type 0 where
  pub mount : Mount
  pub pattern : String
  pub middlewares : List Middleware

-- The packages express and express-jwt.
pub record Express : Type 0 where
  -- Does a path match a pattern: as a prefix of the path, or as the whole path?
  pub matches_prefix : String → String → Bool
  pub matches_whole : String → String → Bool
  -- Does the header hold a token that is signed with the secret?
  pub verifies : String → Option String → Bool
  pub public_key : String
  -- `'' + Math.random()` of `denyAll`
  pub random : String

-- The rest of the application, on its state.
pub record App (S : Type 0) : Type 0 where
  pub auth : S → AuthenticatedUsers
  -- `req.body.UserId = id`
  pub set_user_id : ℕ → S → S
  pub middleware : String → Request → Action S (Reply String)

module _ (x : Express) where
  abbrev pub fits : Mount → String → Request → Bool
  fits all pattern r = x.matches_prefix pattern r.path
  fits (on m) pattern r = rank r.method == rank m && x.matches_whole pattern r.path

  abbrev pub applies : Layer → Request → Bool
  applies l r = fits l.mount l.pattern r

  -- `expressJwt({ secret })`
  unfoldable pub express_jwt : String → Option String → Reply String
  express_jwt secret authorization =
      if x.verifies secret authorization then next else next_error "UnauthorizedError"

abbrev pub forbidden_or_next : Reply (Unit {0}) → Reply String
forbidden_or_next (refuse code e) = refuse code e
forbidden_or_next (next_error e) = next_error e
forbidden_or_next unanswered = unanswered
forbidden_or_next (send code u) = send code ""
forbidden_or_next next = next

module _ {S : Type 0} where
  -- `next()` goes on, any other answer is the last one.
  abbrev pub go_on : Action S (Reply String) → Reply String → Action S (Reply String)
  go_on k next = k
  go_on k (send code b) = pure (send code b)
  go_on k (refuse code e) = pure (refuse code e)
  go_on k (next_error e) = pure (next_error e)
  go_on k unanswered = pure unanswered

module _ {S : Type 0} (x : Express) (c : Crypto) (a : App S) where
  unfoldable pub append_user : Request → Action S (Reply String)
  append_user r s = elim (Roles.append_user_id c r.authorization (a.auth s)) [
    | send code id ↦ (ok next, a.set_user_id id s)
    | refuse code e ↦ (ok (refuse code e), s)
    | next_error e ↦ (ok (next_error e), s)
    | unanswered ↦ (ok unanswered, s)
    | next ↦ (ok next, s)
  ]

  unfoldable pub run : Middleware → Request → Action S (Reply String)
  unfolding append_user express_jwt
  run is_authorized r = pure (express_jwt x x.public_key r.authorization)
  run deny_all r = pure (express_jwt x x.random r.authorization)
  run append_user_id r = append_user r
  run is_accounting r = pure (forbidden_or_next (Roles.is_accounting c r.authorization))
  run (step name) r = a.middleware name r

  unfoldable pub chain :
      List Middleware → Request → Action S (Reply String) → Action S (Reply String)
  unfolding run
  chain [] r k = k
  chain (m ∷ ms) r k = run m r >>= go_on (chain ms r k)

  unfoldable pub serve : List Layer → Request → Action S (Reply String) → Action S (Reply String)
  unfolding chain
  serve [] r k = k
  serve (l ∷ ls) r k =
      let rest = serve ls r k in if applies x l r then chain l.middlewares r rest else rest
