-- ===== src/Verification.antt =====
-- routes/verify.ts of test-container/rootfs/juice-shop: middlewares that solve challenges when a
-- request or its effects give them away. A body's field is none if it is undefined; `url.match` of
-- /access\.log(0-9-)*/ finds what begins with "access.log". Verification/Posted has the
-- challenges that are judged by the database.
pub mod Bypass
pub mod Posted
use runc.Prelude.{
  ℕ, ◌+◌, ◌-◌, String, Bool, true, false, not, ◌&&◌, ◌||◌, Option, none, some, List, [], ◌∷◌, ltb,
  leb, ◌==◌, ◌===◌, if◌then◌else◌,
}
use runc.Prelude.Http.{ok, Action, modify, ◌>>=◌, ◌>>◌, Reply, send, next}
use runc.Prelude.Texts.{contains, ends_with}
use runc.Auth.Text.{jwt_from}
use runc.Challenges.Enabled.{SafetyMode, Surroundings}
use runc.Sanitizing.{is_enabled}
use runc.Auth.Users.{session, AuthenticatedUsers, from_request}
use runc.Challenges.{Board, challenge_of, not_solved, solve, solve_if}

-- `app.locals`; `captcha_bypass_req_times` by index.
pub record Locals : Type 0 where
  pub captcha_req_id : ℕ
  pub captcha_bypass_req_times : List (ℕ × ℕ)
  pub abused_ssti_bug : Bool
  pub abused_ssrf_bug : Bool

pub record State : Type 0 where
  pub locals : Locals
  pub board : Board

abbrev is_field : String → Option String → Bool
is_field text none = false
is_field text (some t) = t === text

unfoldable pub empty_user_registration : Option String → Option String → Board → Board
empty_user_registration email password =
    solve_if "emptyUserRegistration" (is_field "" email && is_field "" password) false

-- `req.body?.UserId && req.body.UserId != userId`
abbrev is_other : Option ℕ → Option ℕ → Bool
is_other none logged_in = false
is_other (some id) none = not (id == 0)
is_other (some id) (some own) = not (id == 0) && not (id == own)

abbrev id_from : Option String → AuthenticatedUsers → Option ℕ
id_from authorization a = elim (from_request authorization a) [
  | none ↦ none
  | some p ↦ elim p [ session s ↦ some s.user.id | _ ↦ none ]
]

unfoldable pub forged_feedback_challenge :
    Option ℕ → Option String → AuthenticatedUsers → Board → Board
unfolding from_request
forged_feedback_challenge user_id authorization a =
    solve_if "forgedFeedbackChallenge" (is_other user_id (id_from authorization a)) false

abbrev pub time_at : List (ℕ × ℕ) → ℕ → Option ℕ
time_at [] i = none
time_at ((j, t) ∷ times) i = if j == i then some t else time_at times i

-- `now - time <= 20000`, false for an undefined time
abbrev pub is_recent : ℕ → Option ℕ → Bool
is_recent now none = false
is_recent now (some t) = leb now (t + 20000)

abbrev pub is_bypassed : ℕ → Locals → Bool
is_bypassed now l =
    leb 10 l.captcha_req_id
    && is_recent now (time_at l.captcha_bypass_req_times (l.captcha_req_id - 10))

abbrev pub tracked : ℕ → Locals → Locals
tracked now l = record l {
  captcha_req_id = l.captcha_req_id + 1;
  captcha_bypass_req_times = (l.captcha_req_id - 1, now) ∷ l.captcha_bypass_req_times;
}

unfoldable pub captcha_bypass_challenge : ℕ → State → State
captcha_bypass_challenge now s =
    if not_solved (challenge_of "captchaBypassChallenge" s.board)
    then record {
      locals = tracked now s.locals;
      board =
          if is_bypassed now s.locals
          then solve "captchaBypassChallenge" false s.board
          else s.board;
    }
    else s

unfoldable pub register_admin_challenge : Option String → Board → Board
register_admin_challenge role = solve_if "registerAdminChallenge" (is_field "admin" role) false

abbrev differs : Option String → Option String → Bool
differs none none = false
differs (some a) (some b) = not (a === b)
differs none (some b) = true
differs (some a) none = true

unfoldable pub password_repeat_challenge : Option String → Option String → Board → Board
password_repeat_challenge repeat password =
    solve_if "passwordRepeatChallenge" (differs repeat password) false

-- `utils.endsWith` of a suffix that may be undefined
abbrev pub ends_with_file : String → Option String → Bool
ends_with_file url none = false
ends_with_file url (some file) = not (file === "") && ends_with url file

-- `blueprint` is `retrieveBlueprintChallengeFile`, and `lower` is `url.toLowerCase()`.
unfoldable pub access_control_challenges : String → String → Option String → Action Board (Unit {0})
access_control_challenges url lower blueprint = do
  modify (solve_if "scoreBoardChallenge" (ends_with url "/1px.png") false)
  modify (solve_if "web3SandboxChallenge" (ends_with url "/11px.png") false)
  modify (solve_if "adminSectionChallenge" (ends_with url "/19px.png") false)
  modify (solve_if "tokenSaleChallenge" (ends_with url "/56px.png") false)
  modify (solve_if "privacyPolicyChallenge" (ends_with url "/81px.png") false)
  modify (solve_if "extraLanguageChallenge" (ends_with url "/tlh_AA.json") false)
  modify (solve_if "retrieveBlueprintChallenge" (ends_with_file url blueprint) false)
  modify (solve_if "securityPolicyChallenge" (ends_with url "/security.txt") false)
  modify (
      solve_if "missingEncodingChallenge"
        (ends_with lower
          "%e1%93%9a%e1%98%8f%e1%97%a2-%23zatschi-%23whoneedsfourlegs-1572600969477.jpg")
        false)
  modify (solve_if "accessLogDisclosureChallenge" (contains url "access.log") false)

-- The error that is handed on stays the same.
unfoldable pub error_handling_challenge : Option String → ℕ → Board → Board
error_handling_challenge err status_code =
    let is_error : Bool = elim err [ none ↦ false | some e ↦ not (e === "") ] in
    solve_if "errorHandlingChallenge" (is_error && (status_code == 200 || ltb 401 status_code))
      false

unfoldable pub server_side_challenges : Option String → Action State (Reply (Unit {0}))
server_side_challenges key s =
    let is_open : String → Bool = λ k. not_solved (challenge_of k s.board) in
    let solved : String → State = λ k. record s { board = solve k false s.board } in
    if not (is_field "tRy_H4rd3r_n0thIng_iS_Imp0ssibl3" key)
    then (ok next, s)
    else if is_open "sstiChallenge" && s.locals.abused_ssti_bug
    then (ok (send 204 tt), solved "sstiChallenge")
    else if is_open "ssrfChallenge" && s.locals.abused_ssrf_bug
    then (ok (send 204 tt), solved "ssrfChallenge")
    else (ok next, s)

-- The packages jws and jsonwebtoken on a token.
pub record Tokens : Type 0 where
  -- `data.email` of the decoded token, none if it does not decode to an object.
  pub email_of : String → Option (Option String)
  -- `jwt.verify` with the public key gives no error.
  pub verifies : String → Bool
  -- `alg` of the header
  pub algorithm_of : String → String

-- `token?.data?.email?.match(email)` of an expression without special characters
abbrev has_email : String → Option String → Bool
has_email mark none = false
has_email mark (some email) = contains email mark

abbrev pub judged_token : Tokens → String → String → String → String → Board → Board
judged_token j key algorithm mark token b = elim (j.email_of token) [
  | none ↦ b
  | some email ↦
      if j.verifies token
      then solve_if key (j.algorithm_of token === algorithm && has_email mark email) false b
      else b
]

abbrev pub jwt_challenge : Tokens → String → Option String → String → String → Board → Board
jwt_challenge j key none algorithm mark b = b
jwt_challenge j key (some token) algorithm mark b =
    if token === "" then b else judged_token j key algorithm mark token b

unfoldable pub jwt_challenges : Tokens → SafetyMode → Surroundings → Option String → Board → Board
unfolding jwt_from
jwt_challenges j mode at authorization b =
    let token = jwt_from authorization in
    let unsigned : Board =
      if not_solved (challenge_of "jwtUnsignedChallenge" b)
      then jwt_challenge j "jwtUnsignedChallenge" token "none" "jwtn3d@" b
      else b in
    if is_enabled mode at "jwtForgedChallenge" unsigned
      && not_solved (challenge_of "jwtForgedChallenge" unsigned)
    then jwt_challenge j "jwtForgedChallenge" token "HS256" "rsa_lord@" unsigned
    else unsigned
