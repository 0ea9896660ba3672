-- ===== src/Auth/Server.antt =====
-- The state that the account routes share, and the lookups that they make.
use runc.Prelude.{
  ℕ, String, Bool, false, not, ◌&&◌, Option, none, some, List, [], ◌∷◌, ◌==◌, ◌===◌, if◌then◌else◌,
  concat_texts,
}
use runc.Prelude.Http.{Outcome, ok, thrown, Action, await, await_write}
use runc.Database.{Orm}
use runc.Challenges.{Board, solve_if}
use runc.Auth.Text.{equals_ignoring_case}
use runc.Auth.Users.{User, AuthenticatedUsers}
use runc.Auth.Roles.{Crypto}

pub record BasketRow : Type 0 where
  pub id : ℕ
  pub user_id : ℕ

pub record SecurityAnswer : Type 0 where
  pub user_id : ℕ
  pub security_question_id : ℕ
  pub answer : String

pub record Server : Type 0 where
  pub auth : AuthenticatedUsers
  pub users : List User
  pub baskets : List BasketRow
  pub answers : List SecurityAnswer
  pub board : Board

-- The packages, and `config.get('application.domain')`.
pub record Services : Type 1 where
  pub orm : Orm
  pub crypto : Crypto
  pub domain : String

abbrev pub on_auth : {A : Type 0} → Action AuthenticatedUsers A → Action Server A
on_auth m s = let (r, a) = m s.auth in (r, record s { auth = a })

-- `challengeUtils.solveIf(challenges[key], () => criteria)`
abbrev pub check_challenge : String → Bool → Server → Server
check_challenge key criteria s = record s { board = solve_if key criteria false s.board }

-- The table is paranoid: a row with a deletion time is not found.
abbrev pub by_id : ℕ → User → Bool
by_id id u = u.id == id && not u.deleted

module _ (e : Services) where
  -- `UserModel.findByPk(id)`
  abbrev pub find_user : ℕ → Action Server (Option User)
  find_user id = await (λ s. e.orm.find_one (by_id id) s.users)

  -- The hook `afterValidate` of models/user.ts.
  abbrev pub is_impostor : User → Bool
  is_impostor u =
      not (u.email === "")
      && equals_ignoring_case u.email (concat_texts ("acc0unt4nt@" ∷ e.domain ∷ []))

  abbrev pub saved_users : Server → Outcome (List User) → Outcome Server
  saved_users s (ok users) = ok (record s { users = users })
  saved_users s (thrown x) = thrown x

  abbrev pub saved : User → Server → Outcome Server
  saved u s =
      if is_impostor u
      then thrown "Nice try, but this is not how the \"Ephemeral Accountant\" challenge works!"
      else saved_users s (e.orm.update (λ (v : User). v.id == u.id) (λ _. u) s.users)

  -- `user.save()` and `user.update(values)`: the row as it will be.
  abbrev pub save_user : User → Action Server (Unit {0})
  save_user u = await_write (saved u)

  -- The setter of `password` in models/user.ts.
  abbrev pub set_password : String → User → User
  set_password clear_text u = record u { password = e.crypto.hash clear_text }

  abbrev has_user : ℕ → BasketRow → Bool
  has_user id b = b.user_id == id

  abbrev created : Server → Outcome (BasketRow × List BasketRow) → Outcome BasketRow × Server
  created s (ok (b, baskets)) = (ok b, record s { baskets = baskets })
  created s (thrown x) = (thrown x, s)

  -- `BasketModel.findOrCreate({ where: { UserId } })`
  unfoldable pub find_or_create_basket : ℕ → Action Server BasketRow
  find_or_create_basket id s = elim (e.orm.find_one (has_user id) s.baskets) [
    | thrown x ↦ (thrown x, s)
    | ok (some b) ↦ (ok b, s)
    | ok none ↦ created s (e.orm.create (λ n. record { id = n; user_id = id }) s.baskets)
  ]
