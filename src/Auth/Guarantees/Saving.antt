-- ===== src/Auth/Guarantees/Saving.antt =====
-- What saving a row of the Users table writes, and what it leaves as it is.
use runc.Prelude.{String, ◌≡◌, refl, inl, inr, List, arith, ◌==◌, Bool-cases, map_where}
use runc.Prelude.Http.{Outcome, ok, thrown, Keeps, await_write_thrown}
use runc.Auth.Users.{User, AuthenticatedUsers}
use runc.Auth.Server.{Server, Services, is_impostor, saved, save_user}

module _ (e : Services) where
  pub save_user-auth :
      (a : AuthenticatedUsers) (u : User) → Keeps (λ (s : Server). s.auth ≡ a) (save_user e u)
  save_user-auth a u s p = ground arith

  pub save_user-users :
      (u : User) (s t : Server) {x : Unit {0}}
      → save_user e u s ≡ (ok x, t)
      → t.users ≡ map_where (λ (v : User). v.id == u.id) (λ _. u) s.users
  save_user-users u s t q = elim (Bool-cases (is_impostor e u)) [
    | inl impostor ↦ ground arith
    | inr fine ↦ by_update (e.orm.update (λ (v : User). v.id == u.id) (λ _. u) s.users) refl
  ]
    where
      by_update :
          (r : Outcome (List User))
          → e.orm.update (λ (v : User). v.id == u.id) (λ _. u) s.users ≡ r
          → t.users ≡ map_where (λ (v : User). v.id == u.id) (λ _. u) s.users
      by_update (ok users) k = let l = e.orm.update_lem _ _ _ _ k in ground arith
      by_update (thrown m) k = ground arith

  pub save_user_thrown :
      (u : User) (s t : Server) {m : String} → save_user e u s ≡ (thrown m, t) → t ≡ s
  save_user_thrown u s t {m} q = await_write_thrown (saved e u) s m t q
