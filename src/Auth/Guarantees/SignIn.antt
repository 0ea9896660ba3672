-- ===== src/Auth/Guarantees/SignIn.antt =====
-- routes/login.ts and routes/2fa.ts: who gets a session.
use runc.Prelude.{
  ℕ, String, ◌≡◌, refl, sym, ap, ◌∙◌, ◌⊎◌, inl, inr, true, Option, none, some, List, arith, ◌==◌,
  ◌===◌, ===_iff, Bool-cases,
}
use runc.Prelude.Http.{
  Outcome, ok, thrown, Action, pure, await, ◌>>=◌, ◌>>◌, Reply, send, next_error, catch_state,
  bind_ok, bind_thrown,
}
use runc.Auth.Users.{User, session, AuthenticatedUsers, put}
use runc.Auth.Server.{BasketRow, Server, Services, find_or_create_basket, on_auth}
use runc.Auth.Login.{
  LoginBody, LoginReply, authenticated, KnownUsers, login_statement, verify_pre_login_challenges,
  verify_post_login_challenges, after_login, answer_login, login,
}

module _ (e : Services) where
  -- The cache with a new session of this user, whatever its basket.
  abbrev pub IsSignedIn : User → AuthenticatedUsers → AuthenticatedUsers → Type 0
  IsSignedIn u before after =
      (bid : ℕ) × (after
        ≡ (put (e.crypto.authorize (session (record { user = u; bid = none })))
            (session (record { user = u; bid = some bid })) before).1)

  pub basket-auth : (id : ℕ) (s : Server) → (find_or_create_basket e id s).1.auth ≡ s.auth
  unfolding find_or_create_basket
  basket-auth id s = ground arith

  post_login-auth :
      (known : KnownUsers) (u : User) (s : Server)
      → (verify_post_login_challenges e known u s).auth ≡ s.auth
  unfolding verify_post_login_challenges
  post_login-auth known u s = ground arith

  pre_login-auth :
      (known : KnownUsers) (body : LoginBody) (s : Server)
      → (verify_pre_login_challenges e known body s).auth ≡ s.auth
  unfolding verify_pre_login_challenges
  pre_login-auth known body s = refl

  pre_login-users :
      (known : KnownUsers) (body : LoginBody) (s : Server)
      → (verify_pre_login_challenges e known body s).users ≡ s.users
  unfolding verify_pre_login_challenges
  pre_login-users known body s = refl

  -- The awaited part of `afterLogin`.
  abbrev open_session : User → BasketRow → Action Server (Reply LoginReply)
  open_session u basket = do
    on_auth (
        put (e.crypto.authorize (session (record { user = u; bid = none })))
          (session (record { user = u; bid = some basket.id })))
    pure (
        send 200 (
          authenticated (e.crypto.authorize (session (record { user = u; bid = none }))) basket.id
            u.email))

  after_login-auth :
      (known : KnownUsers) (u : User) (s : Server)
      → ((after_login e known u s).1.auth ≡ s.auth)
        ⊎ IsSignedIn u s.auth (after_login e known u s).1.auth
  unfolding after_login
  after_login-auth known u s = by_basket (find_or_create_basket e u.id t) refl
    where
      t : Server
      t = verify_post_login_challenges e known u s

      body : Action Server (Reply LoginReply)
      body = find_or_create_basket e u.id >>= open_session u

      final : (after_login e known u s).1 ≡ (body t).1
      final = catch_state body (λ x. next_error x) t

      by_basket :
          (p : Outcome BasketRow × Server)
          → find_or_create_basket e u.id t ≡ p
          → ((after_login e known u s).1.auth ≡ s.auth)
            ⊎ IsSignedIn u s.auth (after_login e known u s).1.auth
      by_basket (r, t') q = go r q
        where
          same : t'.auth ≡ s.auth
          same =
              sym (ap (λ (p : Outcome BasketRow × Server). p.1.auth) q)
              ∙ basket-auth u.id t
              ∙ post_login-auth known u s

          go :
              (r : Outcome BasketRow)
              → find_or_create_basket e u.id t ≡ (r, t')
              → ((after_login e known u s).1.auth ≡ s.auth)
                ⊎ IsSignedIn u s.auth (after_login e known u s).1.auth
          go (thrown x) q' = inl (
              ap (λ (z : Server). z.auth) final
              ∙ ap (λ (p : Outcome (Reply LoginReply) × Server). p.1.auth)
                  (bind_thrown (find_or_create_basket e u.id) (open_session u) t q')
              ∙ same)
          go (ok b) q' = inr (
            b.id,
            ap (λ (z : Server). z.auth) final
                ∙ ap (λ (p : Outcome (Reply LoginReply) × Server). p.1.auth)
                    (bind_ok (find_or_create_basket e u.id) (open_session u) t q')
                ∙ ap
                    (λ (a : AuthenticatedUsers).
                      (put (e.crypto.authorize (session (record { user = u; bid = none })))
                        (session (record { user = u; bid = some b.id })) a).1)
                    same,
          )

  -- The session that an answer adds is of the user found, who has no second factor.
  abbrev AddsSession : Option User → Server → Server → Type 0
  AddsSession o s t =
      (t.auth ≡ s.auth)
      ⊎ ((u : User) × (o ≡ some u) × (u.totp_secret ≡ "") × IsSignedIn u s.auth t.auth)

  answer_login-AddsSession :
      (known : KnownUsers) (o : Option User) (s : Server)
      → AddsSession o s (answer_login e known o s).1
  unfolding answer_login
  answer_login-AddsSession known none s = inl refl
  answer_login-AddsSession known (some u) s = elim (Bool-cases (u.id == 0)) [
    | inl no_id ↦ inl (rw (no_id, answer_login))
    | inr has_id ↦ elim (Bool-cases (u.totp_secret === "")) [
      | inr second ↦ inl (rw (has_id, answer_login) (rw second))
      | inl plain ↦ rw (has_id, answer_login) (rw plain (signed plain (after_login-auth known u s)))
    ]
  ]
    where
      signed :
          (u.totp_secret === "") ≡ true
          → ((after_login e known u s).1.auth ≡ s.auth)
            ⊎ IsSignedIn u s.auth (after_login e known u s).1.auth
          → AddsSession (some u) s (after_login e known u s).1
      signed plain (inl same) = inl same
      signed plain (inr new) = inr (u, refl, (===_iff u.totp_secret "").0 plain, new)

  -- Signing in with a password leaves the sessions as they are, or adds one for the user that the
  -- statement found, and then that user has no second factor.
  pub login-auth :
      (known : KnownUsers) (run : String → List User → Outcome (Option User)) (body : LoginBody)
      (s : Server)
      → ((login e known run body s).1.auth ≡ s.auth)
        ⊎ ((u : User) × (run (login_statement e known body) s.users ≡ ok (some u))
            × (u.totp_secret ≡ "")
            × IsSignedIn u s.auth (login e known run body s).1.auth)
  unfolding login
  login-auth known run body s = by_result (run (login_statement e known body) s.users) refl
    where
      asked :
          (o : Option User)
          → run (login_statement e known body) s.users ≡ ok o
          → ◌≡◌ {A = Outcome (Option User) × Server}
              (
                run
                    (login_statement e known body)
                    (verify_pre_login_challenges e known body s).users,
                verify_pre_login_challenges e known body s,
              )
              (ok o, verify_pre_login_challenges e known body s)
      asked o q = rw (pre_login-users known body s) (rw q)

      asked_thrown :
          (x : String)
          → run (login_statement e known body) s.users ≡ thrown x
          → ◌≡◌ {A = Outcome (Option User) × Server}
              (
                run
                    (login_statement e known body)
                    (verify_pre_login_challenges e known body s).users,
                verify_pre_login_challenges e known body s,
              )
              (thrown x, verify_pre_login_challenges e known body s)
      asked_thrown x q = rw (pre_login-users known body s) (rw q)

      by_result :
          (r : Outcome (Option User))
          → run (login_statement e known body) s.users ≡ r
          → ((login e known run body s).1.auth ≡ s.auth)
            ⊎ ((u : User) × (run (login_statement e known body) s.users ≡ ok (some u))
                × (u.totp_secret ≡ "")
                × IsSignedIn u s.auth (login e known run body s).1.auth)
      by_result (thrown x) q =
          let s' : Server = verify_pre_login_challenges e known body s in
          let ask : Action Server (Option User) =
            await (λ t. run (login_statement e known body) t.users) in
          inl (
            ap (λ (z : Server). z.auth)
              (catch_state (ask >>= answer_login e known) (λ x. next_error x) s')
            ∙ ap (λ (p : Outcome (Reply LoginReply) × Server). p.1.auth)
                (bind_thrown ask (answer_login e known) s' (asked_thrown x q))
            ∙ pre_login-auth known body s)
      by_result (ok o) q =
          let s' : Server = verify_pre_login_challenges e known body s in
          let ask : Action Server (Option User) =
            await (λ t. run (login_statement e known body) t.users) in
          let final : (login e known run body s).1 ≡ (answer_login e known o s').1 =
            catch_state (ask >>= answer_login e known) (λ x. next_error x) s'
            ∙ ap (λ (p : Outcome (Reply LoginReply) × Server). p.1)
                (bind_ok ask (answer_login e known) s' (asked o q)) in
          let before : s'.auth ≡ s.auth = pre_login-auth known body s in
          rw final (conclude o s' before q (answer_login-AddsSession known o s'))
        where
          conclude :
              (o : Option User) (s' : Server)
              → s'.auth ≡ s.auth
              → run (login_statement e known body) s.users ≡ ok o
              → AddsSession o s' (answer_login e known o s').1
              → ((answer_login e known o s').1.auth ≡ s.auth)
                ⊎ ((u : User) × (run (login_statement e known body) s.users ≡ ok (some u))
                    × (u.totp_secret ≡ "")
                    × IsSignedIn u s.auth (answer_login e known o s').1.auth)
          conclude o s' b q (inl same) = inl (same ∙ b)
          conclude o s' b q (inr (u, f, plain, signed)) =
              inr (u, q ∙ ap ok f, plain, rw (← b) signed)
