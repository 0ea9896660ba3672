-- ===== src/Account/Profile/Updates.antt =====
-- routes/updateUserProfile.ts: what an update of the profile writes.
use mathlib.Core.List.{Memᴰ}
use mathlib.Core.Path.{subst}
use runc.Prelude.{
  String, ◌≡◌, refl, sym, ap, ◌∙◌, ◌⊎◌, inl, inr, Bool, true, false, ◌&&◌, Option, none, some, List,
  arith, ◌==◌, ◌===◌, if◌then◌else◌, map_where,
}
use runc.Prelude.Http.{ok, pure, ◌>>=◌, ◌>>◌, modify, next_error, catch_after, bind_after}
use mathlib.Core.Option
use runc.Challenges.{Challenge, Board, challenge_of, not_solved, mark_solved, solve, solve_if}
use runc.Challenges.Enabled.{
  SafetyMode, Surroundings, is_challenge_enabled, get_challenge_enablement_status,
}
use runc.Challenges.Solving.{challenge_of-solve}
use runc.Sanitizing.{is_enabled}
use runc.Auth.Users.{User, Session, Payload, session, get, put}
use runc.Auth.Server.{Server, Services, find_user, save_user, by_id}
use runc.Auth.Guarantees.Saving.{save_user-users, save_user_thrown}
use runc.Account.Profile.{
  sanitize_legacy, set_username, ProfileRequest, with_username, save_username, renew, csrf_checked,
  update_found, update_as, update_user_profile,
}

-- Solving a challenge enables and disables none.
module _ (mode : SafetyMode) (at : Surroundings) where
  abbrev enabled_in : Option Challenge → Bool
  enabled_in o = elim o [ none ↦ true | some c ↦ is_challenge_enabled c mode at ]

  enabled_in-mark : (o : Option Challenge) → enabled_in (Option.map mark_solved o) ≡ enabled_in o
  unfolding is_challenge_enabled get_challenge_enablement_status
  enabled_in-mark none = refl
  enabled_in-mark (some c) = refl

  enabled_in-if :
      (same : Bool) (o : Option Challenge)
      → enabled_in (if same then Option.map mark_solved o else o) ≡ enabled_in o
  enabled_in-if true o = enabled_in-mark o
  enabled_in-if false o = refl

  is_enabled-solve_if :
      (j k : String) (criteria r : Bool) (b : Board)
      → is_enabled mode at j (solve_if k criteria r b) ≡ is_enabled mode at j b
  unfolding solve_if
  is_enabled-solve_if j k criteria r b = by_test (not_solved (challenge_of k b) && criteria)
    where
      by_test :
          (t : Bool) → is_enabled mode at j (if t then solve k r b else b) ≡ is_enabled mode at j b
      by_test true =
          ap enabled_in (challenge_of-solve j k r b) ∙ enabled_in-if (k === j) (challenge_of j b)
      by_test false = refl

module _ (e : Services) (sanitize_secure : String → String) (mode : SafetyMode)
    (at : Surroundings) where
  abbrev pub renamed : String → Board → User → User
  renamed username b u = record u { username = set_username sanitize_secure mode at username b }

  -- The rows with the id of a stored user, whom the request's session names, became this user's row
  -- with the name in the request, as the setter stores it, and nothing else was written.
  abbrev pub IsRenamed : ProfileRequest → Server → List User → Type 0
  IsRenamed q s after =
      (c : Session) × (u : User) × (get q.token s.auth ≡ some (session c))
      × (by_id c.user.id u ≡ true)
      × Memᴰ u s.users
      × (after ≡ map_where (λ (v : User). v.id == u.id) (λ _. renamed q.username s.board u) s.users)

  abbrev IsSafe : ProfileRequest → Server → Server → Type 0
  IsSafe q s t = (t.users ≡ s.users) ⊎ IsRenamed q s t.users

  renew-users : (u : User) (s : Server) → (renew e sanitize_secure mode at u s).1.users ≡ s.users
  unfolding put
  renew-users u s = refl

  renamed-csrf_checked :
      (q : ProfileRequest) (u : User) (s : Server)
      → renamed q.username (csrf_checked e sanitize_secure mode at q u s).board
        ≡ renamed q.username s.board
  unfolding set_username
  renamed-csrf_checked q u s =
      ap
        (λ (on : Bool). λ (v : User). record v {
          username = if on then sanitize_legacy q.username else sanitize_secure q.username;
        })
        (is_enabled-solve_if mode at "persistedXssUserChallenge" "csrfChallenge" _ false s.board)

  saved_rows :
      (username : String) (u : User) (s : Server)
      → ((save_username e sanitize_secure mode at username u s).1.users ≡ s.users)
        ⊎ ((save_username e sanitize_secure mode at username u s).1.users
            ≡ map_where (λ (v : User). v.id == u.id) (λ _. renamed username s.board u) s.users)
  saved_rows username u s =
      let v = with_username e sanitize_secure mode at username s u in
      bind_after
        (λ (t : Server).
          (t.users ≡ s.users) ⊎ (t.users ≡ map_where (λ (w : User). w.id == u.id) (λ _. v) s.users))
        (save_user e v) (λ _. pure v) s (λ x t k. inr (save_user-users e v s t k))
        (λ x t k. inl (ap (λ (r : Server). r.users) (save_user_thrown e v s t k)))

  update_found-users :
      (q : ProfileRequest) (c : Session) (o : Option User) (s : Server)
      → get q.token s.auth ≡ some (session c)
      → ((u : User) → o ≡ some u → (by_id c.user.id u ≡ true) × Memᴰ u s.users)
      → IsSafe q s (update_found e sanitize_secure mode at q o s).1
  update_found-users q c none s g h = inl refl
  update_found-users q c (some u) s g h =
      let s' = csrf_checked e sanitize_secure mode at q u s in
      bind_after (IsSafe q s)
        (modify (csrf_checked e sanitize_secure mode at q u)
          >> save_username e sanitize_secure mode at q.username u)
        (renew e sanitize_secure mode at) s
        (λ v t k.
          subst (λ rows. (rows ≡ s.users) ⊎ IsRenamed q s rows) (sym (renew-users v t))
            (written s' refl (renamed-csrf_checked q u s) t (ap (λ p. p.1) k)))
        (λ x t k. written s' refl (renamed-csrf_checked q u s) t (ap (λ p. p.1) k))
    where
      written :
          (s' : Server)
          → s'.users ≡ s.users
          → renamed q.username s'.board ≡ renamed q.username s.board
          → (t : Server) → (save_username e sanitize_secure mode at q.username u s').1 ≡ t
          → IsSafe q s t
      written s' same name t k = elim (saved_rows q.username u s') [
        | inl kept ↦ inl (ap (λ (r : Server). r.users) (sym k) ∙ kept ∙ same)
        | inr wrote ↦ inr (
          c,
          u,
          g,
          (h u refl).0,
          (h u refl).1,
          ap (λ (r : Server). r.users) (sym k)
              ∙ wrote
              ∙ ap (map_where (λ (v : User). v.id == u.id) (λ _. renamed q.username s'.board u))
                  same
              ∙ ap (λ f. map_where (λ (v : User). v.id == u.id) (λ _. f u) s.users) name,
        )
      ]

  update_as-users :
      (q : ProfileRequest) (o : Option Payload) (s : Server)
      → get q.token s.auth ≡ o
      → IsSafe q s (update_as e sanitize_secure mode at q o s).1
  update_as-users q none s g = inl refl
  update_as-users q (some (session c)) s g =
      catch_after (IsSafe q s) (find_user e c.user.id >>= update_found e sanitize_secure mode at q)
        (λ x. pure (next_error x)) s (λ r t k. found t (ap (λ p. p.1) k))
        (λ x t k. found t (ap (λ p. p.1) k))
    where
      found :
          (t : Server)
          → ((find_user e c.user.id >>= update_found e sanitize_secure mode at q) s).1 ≡ t
          → IsSafe q s t
      found t k = subst (IsSafe q s) k (
          bind_after (IsSafe q s) (find_user e c.user.id) (update_found e sanitize_secure mode at q)
            s (λ o r l. after_find o r (ap (λ p. p.0) l) (ap (λ p. p.1) l))
            (λ x r l. inl (ap (λ p. p.1.users) (sym l))))
        where
          after_find :
              (o : Option User) (r : Server)
              → e.orm.find_one (by_id c.user.id) s.users ≡ ok o
              → s ≡ r
              → IsSafe q s (update_found e sanitize_secure mode at q o r).1
          after_find o r l m =
              subst (λ x. IsSafe q s (update_found e sanitize_secure mode at q o x).1) m
                (update_found-users q c o s g
                  (λ u n. e.orm.find_one_some (by_id c.user.id) s.users u (l ∙ ap ok n)))
  update_as-users q (some p) s g = inl (ground arith)

  -- Updating the profile leaves the users as they are, or writes one stored user, whom the session
  -- of the request names, back to the rows with this user's id, changed in the name alone, which is
  -- the one in the request, as the setter makes it.
  pub update_user_profile-users :
      (q : ProfileRequest) (s : Server)
      → ((update_user_profile e sanitize_secure mode at q s).1.users ≡ s.users)
        ⊎ IsRenamed q s (update_user_profile e sanitize_secure mode at q s).1.users
  unfolding update_user_profile
  update_user_profile-users q s = update_as-users q (get q.token s.auth) s refl
