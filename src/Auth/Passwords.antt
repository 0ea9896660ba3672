-- ===== src/Auth/Passwords.antt =====
-- routes/changePassword.ts and routes/resetPassword.ts.
use runc.Prelude.{
  ℕ, String, Bool, true, false, not, ◌&&◌, ◌||◌, Option, none, some, List, [], ◌∷◌, ◌==◌, ◌===◌,
  if◌then◌else◌, any,
}
use runc.Prelude.Http.{
  Action, pure, throw, await, catch, modify, ◌>>=◌, ◌>>◌, Reply, send, refuse, next_error,
  unanswered,
}
use runc.Auth.Users.{User, Payload, session, get}
use runc.Auth.Server.{
  SecurityAnswer, Server, Services, check_challenge, find_user, save_user, set_password,
}

-- `query`, and the `authorization` header after its first seven characters.
pub record ChangeRequest : Type 0 where
  pub current : Option String
  pub new_password : Option String
  pub repeat : Option String
  pub token : Option String

pub record ResetBody : Type 0 where
  pub email : String
  pub answer : String
  pub new_password : Option String
  pub repeat : Option String

-- `!password || password === 'undefined'`
abbrev pub is_missing : Option String → Bool
is_missing none = true
is_missing (some p) = p === "" || p === "undefined"

abbrev pub same_text : Option String → Option String → Bool
same_text none none = true
same_text (some a) (some b) = a === b
same_text _ _ = false

abbrev pub text_of : Option String → String
text_of none = ""
text_of (some t) = t

abbrev pub is_absent : Option String → Bool
is_absent none = true
is_absent (some t) = t === ""

module _ (e : Services) where
  -- The end of the handler, for the row that was found.
  unfoldable pub write_password : ChangeRequest → User → Action Server (Reply User)
  write_password q row = do
    let updated = set_password e (text_of q.new_password) row
    save_user e updated
    modify (
        check_challenge "changePasswordBenderChallenge" (
          updated.id == 3
          && is_absent q.current
          && updated.password === e.crypto.hash "slurmCl4ssic"))
    pure (send 200 updated)

  abbrev pub answer_found : ChangeRequest → Option User → Action Server (Reply User)
  answer_found q none = pure (refuse 404 "User not found.")
  answer_found q (some row) = write_password q row

  -- `currentPassword && hash(currentPassword) !== loggedInUser.data.password`
  abbrev pub is_wrong_current : ChangeRequest → User → Bool
  is_wrong_current q u =
      not (is_absent q.current) && not (e.crypto.hash (text_of q.current) === u.password)

  -- A payload without `data` throws outside of the handler's `try` when its password is read; with
  -- no current password that happens inside, at `data.id`.
  unfoldable pub change_as : ChangeRequest → Option Payload → Action Server (Reply User)
  unfolding write_password
  change_as q none = pure (next_error "Blocked illegal activity")
  change_as q (some (session s)) =
      if is_wrong_current q s.user
      then pure (refuse 401 "Current password is not correct.")
      else catch (do found ← find_user e s.user.id; answer_found q found) (λ x. pure (next_error x))
  change_as q (some p) =
      if is_absent q.current then pure (next_error "TypeError") else throw "TypeError"

  unfoldable pub change_password : ChangeRequest → Action Server (Reply User)
  unfolding change_as get
  change_password q =
      if is_missing q.new_password
      then pure (refuse 401 "Password cannot be empty.")
      else if not (same_text q.new_password q.repeat)
      then pure (refuse 401 "New and repeated password do not match.")
      else elim q.token [
        | none ↦ pure (next_error "Blocked illegal activity")
        | some token ↦ λ s. change_as q (get (some token) s.auth) s
      ]

  -- The eight checks of `verifySecurityAnswerChallenges`, each a challenge's key, the id of its
  -- user and the answer that counts; those of the last two come from the configuration.
  unfoldable pub verify_security_answer_challenges :
      List (String × ℕ × String) → User → String → Server → Server
  verify_security_answer_challenges [] u answer s = s
  verify_security_answer_challenges ((key, id, expected) ∷ checks) u answer s =
      verify_security_answer_challenges checks u answer
        (check_challenge key (u.id == id && answer === expected) s)

  -- `SecurityAnswerModel.findOne` joined with the users of that e-mail address.
  abbrev pub answers_for : String → List User → SecurityAnswer → Bool
  answers_for email users a =
      any (λ (u : User). u.id == a.user_id && u.email === email && not u.deleted) users

  abbrev pub reset_found :
      List (String × ℕ × String) → ResetBody → Option User → Action Server (Reply User)
  reset_found checks body none = pure unanswered
  reset_found checks body (some row) = do
    let updated = set_password e (text_of body.new_password) row
    save_user e updated
    modify (verify_security_answer_challenges checks updated body.answer)
    pure (send 200 updated)

  unfoldable pub reset_as :
      List (String × ℕ × String) → ResetBody → Option SecurityAnswer → Action Server (Reply User)
  unfolding verify_security_answer_challenges
  reset_as checks body none = pure (refuse 401 "Wrong answer to security question.")
  reset_as checks body (some a) =
      if e.crypto.hmac body.answer === a.answer
      then (do found ← find_user e a.user_id; reset_found checks body found)
      else pure (refuse 401 "Wrong answer to security question.")

  unfoldable pub reset_password :
      List (String × ℕ × String) → ResetBody → Action Server (Reply User)
  unfolding reset_as
  reset_password checks body =
      if body.email === "" || body.answer === ""
      then pure (next_error "Blocked illegal activity")
      else if is_missing body.new_password
      then pure (refuse 401 "Password cannot be empty.")
      else if not (same_text body.new_password body.repeat)
      then pure (refuse 401 "New and repeated password do not match.")
      else catch
          (do
            a ← await (λ s. e.orm.find_one (answers_for body.email s.users) s.answers)
            reset_as checks body a)
          (λ x. pure (next_error x))
