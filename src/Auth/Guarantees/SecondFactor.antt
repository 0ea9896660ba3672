-- ===== src/Auth/Guarantees/SecondFactor.antt =====
-- routes/2fa.ts: who passes the second factor.
use runc.Prelude.{
  ℕ, String, ◌≡◌, refl, sym, ap, ◌∙◌, ◌⊎◌, inl, inr, true, false, Option, none, some, [], ◌∷◌,
  arith, ◌===◌, if◌then◌else◌, Bool-cases, concat_texts,
}
use runc.Prelude.Http.{
  Outcome, ok, Action, pure, ◌>>=◌, ◌>>◌, Reply, send, refuse, catch_state, bind_after,
}
use mathlib.Core.List.{Memᴰ}
use mathlib.Core.Path.{subst}
use runc.Auth.Users.{
  User, Payload, session, needs_second_factor, totp_setup, other, AuthenticatedUsers, put,
}
use runc.Auth.Roles.{verified}
use runc.Auth.Server.{
  BasketRow, Server, Services, by_id, find_user, find_or_create_basket, check_challenge, on_auth,
}
use runc.Auth.TwoFactor.{
  TwoFactorReply, authentication, admit, verify_second_factor, second_factor_user, expect_user,
}
use runc.Auth.Guarantees.SignIn.{IsSignedIn, basket-auth}

module _ (e : Services) where
  admit-auth :
      (u : User) (s : Server)
      → ((admit e u s).1.auth ≡ s.auth) ⊎ IsSignedIn e u s.auth (admit e u s).1.auth
  unfolding admit put
  admit-auth u s =
      bind_after After (find_or_create_basket e u.id) open_session start
        (λ b t q. inr (
          b.id,
          ap
              (λ (a : AuthenticatedUsers).
                (put (e.crypto.authorize (session (record { user = u; bid = none })))
                  (session (record { user = u; bid = some b.id })) a).1)
              (kept t q),
        ))
        (λ m t q. inl (kept t q))
    where
      After : Server → Type 0
      After t = (t.auth ≡ s.auth) ⊎ IsSignedIn e u s.auth t.auth

      start : Server
      start =
          check_challenge "twoFactorAuthUnsafeSecretStorageChallenge"
            (u.email === concat_texts ("wurstbrot@" ∷ e.domain ∷ [])) s

      open_session : BasketRow → Action Server (Reply TwoFactorReply)
      open_session basket = do
        on_auth (
            put (e.crypto.authorize (session (record { user = u; bid = none })))
              (session (record { user = u; bid = some basket.id })))
        pure (
            send 200 (
              authentication (e.crypto.authorize (session (record { user = u; bid = none })))
                basket.id u.email))

      kept :
          {r : Outcome BasketRow} (t : Server)
          → find_or_create_basket e u.id start ≡ (r, t)
          → t.auth ≡ s.auth
      kept t q =
          sym (ap (λ (p : Outcome BasketRow × Server). p.1.auth) q) ∙ basket-auth e u.id start

  -- The token is one of the password step, of a user in the table whose secret accepts the one-time
  -- password.
  abbrev pub HasPassed : Option String → String → User → Server → Type 0
  HasPassed tmp_token totp_token u s =
      Memᴰ u s.users
      × (verified e.crypto tmp_token ≡ needs_second_factor u.id)
      × (u.deleted ≡ false)
      × (e.crypto.check_otp totp_token u.totp_secret ≡ true)

  -- Verifying a second factor leaves the sessions as they are, or adds one for the user whom the
  -- temporary token names, and then this user is in the table and the one-time password is right.
  pub verify_second_factor-auth :
      (tmp_token : Option String) (totp_token : String) (s : Server)
      → let t = (verify_second_factor e tmp_token totp_token s).1 in
        (t.auth ≡ s.auth)
        ⊎ ((u : User) × HasPassed tmp_token totp_token u s × IsSignedIn e u s.auth t.auth)
  unfolding verify_second_factor
  verify_second_factor-auth tmp_token totp_token s =
      subst After (sym (catch_state body (λ x. refuse 401 "") s))
        (by_payload (verified e.crypto tmp_token) refl)
    where
      After : Server → Type 0
      After t =
          (t.auth ≡ s.auth)
          ⊎ ((u : User) × HasPassed tmp_token totp_token u s × IsSignedIn e u s.auth t.auth)

      check : User → Action Server (Reply TwoFactorReply)
      check u =
          if e.crypto.check_otp totp_token u.totp_secret then admit e u else pure (refuse 401 "")

      from_id : ℕ → Action Server (Reply TwoFactorReply)
      from_id id = do found ← find_user e id; u ← expect_user found; check u

      body : Action Server (Reply TwoFactorReply)
      body = second_factor_user e (verified e.crypto tmp_token) >>= from_id

      checked :
          (u : User)
          → Memᴰ u s.users
          → u.deleted ≡ false
          → verified e.crypto tmp_token ≡ needs_second_factor u.id
          → After (check u s).1
      checked u m d v = elim (Bool-cases (e.crypto.check_otp totp_token u.totp_secret)) [
        | inl right ↦ rw right (elim (admit-auth u s) [
          | inl same ↦ inl same
          | inr new ↦ inr (u, (m, v, d, right), new)
        ])
        | inr wrong ↦ rw wrong (inl refl)
      ]

      by_payload :
          (p : Payload)
          → verified e.crypto tmp_token ≡ p
          → After ((second_factor_user e p >>= from_id) s).1
      by_payload (session c) v = inl refl
      by_payload (totp_setup c) v = inl refl
      by_payload other v = inl refl
      by_payload (needs_second_factor id) v =
          bind_after After (find_user e id) (λ found. do u ← expect_user found; check u) s
            (λ found t q. by_row found t q)
            (λ m t q. inl (ap (λ (p : Outcome (Option User) × Server). p.1.auth) (sym q)))
        where
          by_row :
              (found : Option User) (t : Server)
              → find_user e id s ≡ (ok found, t)
              → After ((expect_user found >>= check) t).1
          by_row none t q = inl (ap (λ (p : Outcome (Option User) × Server). p.1.auth) (sym q))
          by_row (some u) t q =
              let (p, m) =
                e.orm.find_one_some (by_id id) s.users u
                  (ap (λ (p : Outcome (Option User) × Server). p.0) q) in
              let same : s ≡ t = ap (λ (p : Outcome (Option User) × Server). p.1) q in
              let i : u.id ≡ id = ground arith in rw (← same) (checked u m (ground arith) (rw i v))
