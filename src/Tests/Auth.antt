-- ===== src/Tests/Auth.antt =====
-- lib/insecurity.ts, routes/login.ts and routes/changePassword.ts on concrete inputs.
use runc.Prelude.{
  String, ◌≡◌, refl, ◌⊎◌, inl, true, false, Option, none, some, List, [], ◌∷◌, arith, ◌===◌,
  concat_texts,
}
use runc.Prelude.Http.{Outcome, ok, refuse}
use runc.Database.{list_orm}
use runc.Challenges.{Board}
use runc.Coding.AntiCheat.{server_start, frac}
use runc.Auth.Users.{User, Session, session, other, token_lookup, put, get, token_of}
use runc.Auth.Text.{unquote}
use runc.Auth.Users.Sessions.{IsLinked, put-IsLinked}
use runc.Auth.Server.{Server, Services}
use runc.Auth.Login.{LoginBody, KnownUsers, login_statement, login}
use runc.Auth.Users.{needs_second_factor}
use runc.Auth.TwoFactor.{verify_second_factor}
use runc.Auth.Guarantees.SecondFactor.{HasPassed, verify_second_factor-auth}
use runc.Auth.Guarantees.PasswordReset.{IsAnswered, rewritten, reset_password-users}
use runc.Auth.Passwords.{ResetBody, reset_password, ChangeRequest, change_password}
use runc.Auth.Guarantees.SignIn.{IsSignedIn, login-auth}
use runc.Auth.Guarantees.PasswordChange.{
  IsAuthorised, change_password-users, changed_password-refused,
}

abbrev pub jim : User
jim = record {
  id = 2;
  username = "jim";
  email = "jim@shop";
  password = "secret";
  role = "customer";
  deluxe_token = "";
  totp_secret = "";
  profile_image = "";
  deleted = false;
}

-- Signatures that keep the payload's place: one token for each kind of payload.
abbrev pub jim_session : Session
jim_session = record { user = jim; bid = some 3 }

put-IsLinked_example :
    IsLinked (put "t" (session jim_session) (record { token_map = []; id_map = [] })).1
    × (token_of
          (some jim)
          (put "t" (session jim_session) (record { token_map = []; id_map = [] })).1
        ≡ some "t")
    × (token_lookup "t"
          (put "t" (session jim_session) (record { token_map = []; id_map = [] })).1.token_map
        ≡ some (session jim_session))
put-IsLinked_example =
    put-IsLinked "t" jim_session (record { token_map = []; id_map = [] })
      (λ id token e. ground arith) (inl refl)

abbrev pub services : Services
services = record {
  orm = list_orm;
  crypto = record {
    hash = λ t. concat_texts ("#" ∷ t ∷ []);
    hmac = λ t. t;
    deluxe_token = λ t. t;
    authorize = λ p. "token";
    jws_verify = λ t. true;
    decode = λ t. other;
    jwt_verify = λ t. none;
    check_otp = λ t s. t === s;
    generate_secret = "S";
  };
  domain = "shop";
}

abbrev pub empty_board : Board
empty_board = record {
  challenges = [];
  rows = [];
  pending = [];
  notifications = [];
  emitted = [];
  coding_emitted = [];
  reports = [];
  hints = [];
  accuracy = [];
  anti_cheat = record {
    solves = record { key = none; step = server_start; timestamp = 0; score = frac 0 1 } ∷ [];
    interactions = [];
  };
}

abbrev pub server : Server
server = record {
  auth = record { token_map = ("ab", session jim_session) ∷ []; id_map = (2, "ab") ∷ [] };
  users = jim ∷ [];
  baskets = [];
  answers = [];
  board = empty_board;
}

abbrev known : KnownUsers
known = record { admin = 1; jim = 2; bender = 3; chris = 4 }

abbrev find_jim : String → List User → Outcome (Option User)
find_jim statement users = ok (some jim)

abbrev credentials : LoginBody
credentials = record { email = "jim@shop"; password = "x" }

login-auth_example :
    ((login services known find_jim credentials server).1.auth ≡ server.auth)
    ⊎ ((u : User) × (find_jim (login_statement services known credentials) server.users
          ≡ ok (some u))
        × (u.totp_secret ≡ "")
        × IsSignedIn services u server.auth
            (login services known find_jim credentials server).1.auth)
login-auth_example = login-auth services known find_jim credentials server

abbrev change : String → ChangeRequest
change current = record {
  current = some current;
  new_password = some "new";
  repeat = some "new";
  token = some "ab";
}

change_password-users_example :
    ((change_password services (change "old") server).1.users ≡ server.users)
    ⊎ IsAuthorised services (change "old") server
change_password-users_example = change_password-users services (change "old") server

cached : get (some "ab") server.auth ≡ some (session jim_session)
unfolding get unquote
cached = refl

changed_password-refused_example :
    change_password services (change "new") (change_password services (change "old") server).1 ≡ (
      ok (refuse 401 "Current password is not correct."),
      (change_password services (change "old") server).1,
    )
changed_password-refused_example =
    changed_password-refused services (change "old") (change "new") server jim_session refl cached
      refl refl refl refl refl refl

-- The same services, with every temporary token naming jim.
abbrev second_factor_services : Services
second_factor_services = record services {
  crypto = record services.crypto { decode = λ t. needs_second_factor 2 };
}

abbrev careful_jim : User
careful_jim = record jim { totp_secret = "123456" }

abbrev careful_server : Server
careful_server = record server { users = careful_jim ∷ [] }

verify_second_factor-auth_example :
    let t = (verify_second_factor second_factor_services (some "tmp") "123456" careful_server).1 in
    (t.auth ≡ careful_server.auth)
    ⊎ ((u : User) × HasPassed second_factor_services (some "tmp") "123456" u careful_server
        × IsSignedIn second_factor_services u careful_server.auth t.auth)
verify_second_factor-auth_example =
    verify_second_factor-auth second_factor_services (some "tmp") "123456" careful_server

-- The answer is stored as it is, and the password under a mark.
abbrev answered_server : Server
answered_server = record server {
  answers = record { user_id = 2; security_question_id = 1; answer = "Samuel" } ∷ [];
}

abbrev reset : ResetBody
reset = record {
  email = "jim@shop";
  answer = "Samuel";
  new_password = some "new";
  repeat = some "new";
}

reset_password-users_example :
    let t = (reset_password services [] reset answered_server).1 in
    (t.users ≡ answered_server.users)
    ⊎ ((row : User) × IsAnswered services reset row answered_server
        × (t.users ≡ rewritten services reset row answered_server.users))
reset_password-users_example = reset_password-users services [] reset answered_server
