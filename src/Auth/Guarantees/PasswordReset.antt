-- ===== src/Auth/Guarantees/PasswordReset.antt =====
-- routes/resetPassword.ts: when the table of users changes.
use runc.Prelude.{
  ℕ, String, ◌≡◌, refl, sym, ap, ◌∙◌, ◌⊎◌, inl, inr, true, false, ◌&&◌, ◌||◌, Option, none, some,
  List, [], ◌∷◌, arith, ◌==◌, ◌===◌, ===_iff, Bool-cases, map_where,
}
use runc.Prelude.Http.{
  Outcome, ok, Action, pure, await, catch, modify, ◌>>=◌, ◌>>◌, Reply, send, next_error,
  catch_state, bind_after,
}
use mathlib.Core.List.{Memᴰ}
use mathlib.Core.Path.{subst}
use runc.Auth.Users.{User}
use runc.Auth.Server.{
  SecurityAnswer, Server, Services, by_id, find_user, save_user, set_password, check_challenge,
}
use runc.Auth.Guarantees.Saving.{save_user-users, save_user_thrown}
use runc.Auth.Passwords.{
  ResetBody, is_missing, same_text, text_of, verify_security_answer_challenges, answers_for,
  reset_found, reset_as, reset_password,
}

module _ (e : Services) where
  challenges-users :
      (checks : List (String × ℕ × String)) (u : User) (answer : String) (s : Server)
      → (verify_security_answer_challenges e checks u answer s).users ≡ s.users
  unfolding verify_security_answer_challenges
  challenges-users [] u answer s = refl
  challenges-users ((key, id, expected) ∷ checks) u answer s =
      challenges-users checks u answer (check_challenge key (u.id == id && answer === expected) s)

  -- The request names the e-mail address of a user who has a security answer, states that answer,
  -- and the row is this user's.
  abbrev pub IsAnswered : ResetBody → User → Server → Type 0
  IsAnswered body row s =
      (a : SecurityAnswer) × Memᴰ a s.answers
      × Memᴰ row s.users
      × (a.user_id ≡ row.id)
      × (row.deleted ≡ false)
      × (answers_for e body.email s.users a ≡ true)
      × (e.crypto.hmac body.answer ≡ a.answer)

  -- The users after the row has got the password of the request.
  abbrev pub rewritten : ResetBody → User → List User → List User
  rewritten body row =
      map_where (λ (v : User). v.id == row.id) (λ _. set_password e (text_of body.new_password) row)

  module _ (checks : List (String × ℕ × String)) (body : ResetBody) (s : Server) where
    abbrev After : Server → Type 0
    After t =
        (t.users ≡ s.users)
        ⊎ ((row : User) × IsAnswered body row s × (t.users ≡ rewritten body row s.users))

    saved :
        (row : User) (t : Server)
        → IsAnswered body row s
        → t ≡ s
        → After (reset_found e checks body (some row) t).1
    saved row t a same =
        bind_after After (save_user e updated) finish t
          (λ u t' q. inr (
            row,
            a,
            challenges-users checks updated body.answer t'
                ∙ save_user-users e updated t t' q
                ∙ ap (λ (s : Server). rewritten body row s.users) same,
          ))
          (λ m t' q. inl (ap (λ (s : Server). s.users) (save_user_thrown e updated t t' q ∙ same)))
      where
        updated : User
        updated = set_password e (text_of body.new_password) row

        finish : Unit {0} → Action Server (Reply User)
        finish _ = do
          modify (verify_security_answer_challenges e checks updated body.answer)
          pure (send 200 updated)

    found :
        (a : SecurityAnswer)
        → Memᴰ a s.answers
        → answers_for e body.email s.users a ≡ true
        → (e.crypto.hmac body.answer === a.answer) ≡ true
        → After ((find_user e a.user_id >>= reset_found e checks body) s).1
    found a m w h =
        bind_after After (find_user e a.user_id) (reset_found e checks body) s by_row
          (λ x t q. inl (ap (λ (p : Outcome (Option User) × Server). p.1.users) (sym q)))
      where
        by_row :
            (o : Option User) (t : Server)
            → find_user e a.user_id s ≡ (ok o, t)
            → After (reset_found e checks body o t).1
        by_row none t q = inl (ap (λ (p : Outcome (Option User) × Server). p.1.users) (sym q))
        by_row (some row) t q =
            let (p, n) =
              e.orm.find_one_some (by_id a.user_id) s.users row
                (ap (λ (p : Outcome (Option User) × Server). p.0) q) in
            saved row t (a, m, n, ground arith, ground arith, w, (===_iff _ _).0 h)
              (ap (λ (p : Outcome (Option User) × Server). p.1) (sym q))

    abbrev find_answer : Action Server (Option SecurityAnswer)
    find_answer = await (λ s. e.orm.find_one (answers_for e body.email s.users) s.answers)

    answered :
        (o : Option SecurityAnswer) (t : Server)
        → find_answer s ≡ (ok o, t)
        → After (reset_as e checks body o t).1
    unfolding reset_as
    answered none t q =
        inl (ap (λ (p : Outcome (Option SecurityAnswer) × Server). p.1.users) (sym q))
    answered (some a) t q =
        let (w, m) =
          e.orm.find_one_some (answers_for e body.email s.users) s.answers a
            (ap (λ (p : Outcome (Option SecurityAnswer) × Server). p.0) q) in
        let same : s ≡ t = ap (λ (p : Outcome (Option SecurityAnswer) × Server). p.1) q in
        elim (Bool-cases (e.crypto.hmac body.answer === a.answer)) [
          | inl h ↦ rw h (
              subst
                (λ (t : Server). After ((find_user e a.user_id >>= reset_found e checks body) t).1)
                same (found a m w h))
          | inr h ↦ rw h (inl (ap (λ (s : Server). s.users) (sym same)))
        ]

    caught : After (catch (find_answer >>= reset_as e checks body) (λ x. pure (next_error x)) s).1
    caught =
        subst After
          (sym (catch_state (find_answer >>= reset_as e checks body) (λ x. next_error x) s))
          (bind_after After find_answer (reset_as e checks body) s answered (λ x t q.
            inl (ap (λ (p : Outcome (Option SecurityAnswer) × Server). p.1.users) (sym q))))

  -- Resetting a password leaves the users as they are, or writes the new password to one row, and
  -- then the request stated the security answer of this row's user and that user's e-mail address.
  pub reset_password-users :
      (checks : List (String × ℕ × String)) (body : ResetBody) (s : Server)
      → let t = (reset_password e checks body s).1 in
        (t.users ≡ s.users)
        ⊎ ((row : User) × IsAnswered body row s × (t.users ≡ rewritten body row s.users))
  unfolding reset_password
  reset_password-users checks body s = elim (Bool-cases (body.email === "" || body.answer === "")) [
    | inl h ↦ rw h (inl refl)
    | inr h ↦ rw h (elim (Bool-cases (is_missing body.new_password)) [
      | inl k ↦ rw k (inl refl)
      | inr k ↦ rw k (elim (Bool-cases (same_text body.new_password body.repeat)) [
        | inl l ↦ rw l (caught checks body s)
        | inr l ↦ rw l (inl refl)
      ])
    ])
  ]
