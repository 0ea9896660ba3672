-- ===== src/Auth/Guarantees/PasswordChange.antt =====
-- routes/changePassword.ts and routes/resetPassword.ts: when the table changes.
use runc.Prelude.{
  String, ◌≡◌, refl, ap, ◌∙◌, ◌⊎◌, inl, inr, true, false, Option, none, some, arith, ◌===◌,
  Bool-cases, Option-cases,
}
use runc.Prelude.Http.{ok, pure, ◌>>=◌, refuse, next_error, Keeps, bind-Keeps, catch-Keeps}
use runc.Auth.Users.{User, Session, Payload, session, AuthenticatedUsers, get}
use runc.Auth.Server.{Server, Services, find_user}
use runc.Auth.Passwords.{
  ChangeRequest, is_missing, same_text, is_wrong_current, write_password, answer_found, change_as,
  change_password,
}

module _ (e : Services) where
  -- The request carries the token of a session, two equal new passwords, and the current password
  -- of the cached user or none at all.
  abbrev pub IsAuthorised : ChangeRequest → Server → Type 0
  IsAuthorised q s =
      (c : Session) × (get q.token s.auth ≡ some (session c))
      × (is_wrong_current e q c.user ≡ false)
      × (is_missing q.new_password ≡ false)
      × (same_text q.new_password q.repeat ≡ true)

  change_as-users :
      (q : ChangeRequest) (o : Option Payload) (s : Server)
      → get q.token s.auth ≡ o
      → is_missing q.new_password ≡ false
      → same_text q.new_password q.repeat ≡ true
      → ((change_as e q o s).1.users ≡ s.users) ⊎ IsAuthorised q s
  unfolding change_as
  change_as-users q none s g m r = inl refl
  change_as-users q (some (session c)) s g m r = elim (Bool-cases (is_wrong_current e q c.user)) [
    | inl wrong ↦ inl (rw (wrong, change_as))
    | inr right ↦ inr (c, g, right, m, r)
  ]
  change_as-users q (some p) s g m r = inl (ground arith)

  -- Changing the password leaves the table of users as it is, unless the request is authorised.
  pub change_password-users :
      (q : ChangeRequest) (s : Server)
      → ((change_password e q s).1.users ≡ s.users) ⊎ IsAuthorised q s
  unfolding change_password
  change_password-users q s = elim (Bool-cases (is_missing q.new_password)) [
    | inl missing ↦ inl (rw (missing, change_password))
    | inr given ↦ elim (Bool-cases (same_text q.new_password q.repeat)) [
      | inr differ ↦ inl (rw (given, change_password) (rw differ))
      | inl repeated ↦ by_token q.token refl given repeated
    ]
  ]
    where
      by_token :
          (t : Option String)
          → q.token ≡ t
          → is_missing q.new_password ≡ false
          → same_text q.new_password q.repeat ≡ true
          → ((change_password e q s).1.users ≡ s.users) ⊎ IsAuthorised q s
      by_token none p given repeated = inl (ground (arith, p, given, repeated))
      by_token (some t) p given repeated =
          let o : Option Payload = get (some t) s.auth in
          let same : change_password e q s ≡ change_as e q (get (some t) s.auth) s =
            ground (arith, p, given, repeated) in
          rw same
            (change_as-users q (get (some t) s.auth) s (ap (λ x. get x s.auth) p) given repeated)

  write_password-auth :
      (q : ChangeRequest) (row : User) (a : AuthenticatedUsers)
      → Keeps (λ (s : Server). s.auth ≡ a) (write_password e q row)
  unfolding write_password
  write_password-auth q row a s p = ground arith

  change_as-auth :
      (q : ChangeRequest) (o : Option Payload) (s : Server) → (change_as e q o s).1.auth ≡ s.auth
  unfolding change_as
  change_as-auth q none s = refl
  change_as-auth q (some (session c)) s = elim (Bool-cases (is_wrong_current e q c.user)) [
    | inl wrong ↦ rw (wrong, change_as)
    | inr right ↦
        rw (right, change_as)
          (catch-Keeps (λ (t : Server). t.auth ≡ s.auth)
            (find_user e c.user.id >>= answer_found e q) (λ x. pure (next_error x))
            (bind-Keeps (λ (t : Server). t.auth ≡ s.auth) (find_user e c.user.id) (answer_found e q)
              (λ t p. p) found)
            (λ x t p. p) s refl)
  ]
    where
      found : (o : Option User) → Keeps (λ (t : Server). t.auth ≡ s.auth) (answer_found e q o)
      found none t p = p
      found (some row) t p = write_password-auth q row s.auth t p
  change_as-auth q (some p) s = ground arith

  -- Changing a password never touches the sessions: they keep the user as it was cached.
  pub change_password-auth :
      (q : ChangeRequest) (s : Server) → (change_password e q s).1.auth ≡ s.auth
  unfolding change_password
  change_password-auth q s = elim (Option-cases q.token) [
    | inl p ↦ ground arith
    | inr (t, p) ↦ ground (arith, change_as-auth q (get (some t) s.auth) s)
  ]

  -- After a change to the password `p`, whatever its outcome, a request of the same session that
  -- states `p` as the current password is refused, if the session's cached user has another hash.
  pub changed_password-refused :
      (q r : ChangeRequest) (s : Server) (c : Session) {token p : String}
      → r.token ≡ some token
      → get (some token) s.auth ≡ some (session c)
      → q.new_password ≡ some p
      → (e.crypto.hash p === c.user.password) ≡ false
      → r.current ≡ some p
      → (p === "") ≡ false
      → is_missing r.new_password ≡ false
      → same_text r.new_password r.repeat ≡ true
      → change_password e r (change_password e q s).1
        ≡ (ok (refuse 401 "Current password is not correct."), (change_password e q s).1)
  unfolding change_password
  changed_password-refused q r s c {token} {p} t g n h k nonempty given repeated =
      let s' : Server = (change_password e q s).1 in
      let g' : get (some token) s'.auth ≡ some (session c) = rw (change_password-auth q s) g in
      refused s' g'
    where
      refused :
          (s' : Server)
          → get (some token) s'.auth ≡ some (session c)
          → change_password e r s' ≡ (ok (refuse 401 "Current password is not correct."), s')
      refused s' g' =
          let wrong : is_wrong_current e r c.user ≡ true = rw k (rw (nonempty, h)) in
          let same : change_password e r s' ≡ change_as e r (get (some token) s'.auth) s' =
            ground (arith, t, given, repeated) in
          same ∙ rw g' (denied s' wrong)
        where
          denied :
              (s' : Server)
              → is_wrong_current e r c.user ≡ true
              → change_as e r (some (session c)) s'
                ≡ (ok (refuse 401 "Current password is not correct."), s')
          denied s' wrong = rw (wrong, change_as)
