-- ===== src/Shop/Deluxe/Upgrades.antt =====
-- routes/deluxe.ts: who becomes a deluxe member, and what it costs.
use runc.Prelude.{
  ℕ, String, ◌≡◌, refl, sym, ap, ◌∙◌, ◌⊎◌, inl, inr, true, Option, none, some, [], ◌∷◌, ◌==◌,
  map_where, concat_texts,
}
use runc.Prelude.Http.{
  Outcome, ok, thrown, Action, pure, modify, ◌>>=◌, ◌>>◌, Reply, send, refuse, catch_state,
  bind_after,
}
use mathlib.Core.Path.{subst}
use mathlib.Core.List.{Memᴰ}
use runc.Auth.Users.{User, session, put}
use runc.Auth.Server.{Server, Services, check_challenge, on_auth, save_user}
use runc.Auth.Guarantees.Saving.{save_user-users, save_user_thrown}
use runc.Shop.Deluxe.Payments.{IsPaid, take_payment-IsPaid, take_payment-Keeps}
use runc.Shop.Deluxe.{
  State, UpgradeRequest, is_a_customer, find_customer, take_payment, upgraded, is_free, promote,
  upgrade_paid, upgrade_found, upgrade_to_deluxe,
}

module _ (e : Services) (year month : ℕ) (r : UpgradeRequest) where
  -- What `promote` may write: nothing, or the row of this user.
  abbrev MayUpgrade : User → Server → Server → Type 0
  MayUpgrade u s t =
      (t.users ≡ s.users)
      ⊎ (t.users ≡ map_where (λ (v : User). v.id == u.id) (λ _. upgraded e u) s.users)

  promote-MayUpgrade : (u : User) (s : Server) → MayUpgrade u s (promote e r u s).1
  unfolding promote
  promote-MayUpgrade u s =
      subst (MayUpgrade u s)
        (sym (catch_state body (λ x. refuse 400 "Something went wrong. Please try again!") s))
        (bind_after (MayUpgrade u s) (save_user e (upgraded e u)) (λ _. session_of) s
          (λ a t q. inr (save_user-users e (upgraded e u) s t q))
          (λ x t q. inl (ap (λ (z : Server). z.users) (save_user_thrown e (upgraded e u) s t q))))
    where
      session_of : Action Server (Reply String)
      session_of = do
        modify (check_challenge "freeDeluxeChallenge" (is_free e r))
        let p = session (record { user = upgraded e u; bid = none })
        on_auth (put (e.crypto.authorize p) p)
        pure (send 200 (e.crypto.authorize p))

      body : Action Server (Reply String)
      body = save_user e (upgraded e u) >>= λ _. session_of

  abbrev IsKeptOrUpgraded : State → State → Type 0
  IsKeptOrUpgraded s t =
      (t.server.users ≡ s.server.users)
      ⊎ ((u : User) × Memᴰ u s.server.users
          × (is_a_customer e r.user_id u ≡ true)
          × (t.server.users
              ≡ map_where (λ (v : User). v.id == u.id) (λ _. upgraded e u) s.server.users)
          × IsPaid e year month r s t)

  found-IsKeptOrUpgraded :
      (s : State) (u : User)
      → Memᴰ u s.server.users
      → is_a_customer e r.user_id u ≡ true
      → IsKeptOrUpgraded s (upgrade_found e year month r (some u) s).1
  found-IsKeptOrUpgraded s u i c =
      bind_after (IsKeptOrUpgraded s) (take_payment e year month r) (upgrade_paid e r u) s paid
        (λ x t q. inl (ap (λ (z : Server). z.users) (server_of (thrown x) t q)))
    where
      server_of :
          (o : Outcome (Option String)) (t : State)
          → take_payment e year month r s ≡ (o, t)
          → t.server ≡ s.server
      server_of o t q =
          sym (ap (λ (p : Outcome (Option String) × State). p.1.server) q)
          ∙ take_payment-Keeps e year month r s.server s refl

      paid :
          (a : Option String) (t : State)
          → take_payment e year month r s ≡ (ok a, t)
          → IsKeptOrUpgraded s (upgrade_paid e r u a t).1
      paid (some why) t q = inl (ap (λ (z : Server). z.users) (server_of (ok (some why)) t q))
      paid none t q =
          let (same, p) = take_payment-IsPaid e year month r s t q in
          elim (promote-MayUpgrade u t.server) [
            | inl k ↦ inl (k ∙ ap (λ (z : Server). z.users) same)
            | inr k ↦ inr (
              u,
              i,
              c,
              k
                  ∙ ap
                      (λ (z : Server).
                        map_where (λ (v : User). v.id == u.id) (λ _. upgraded e u) z.users)
                      same,
              p,
            )
          ]

  -- Asking for the membership leaves every user as it is, or makes one a deluxe member: a stored
  -- customer with the request's user id, and then a request that pays by wallet lowered the
  -- balances of that user's wallets by the price, which a wallet of the user held unless the user
  -- has none, and a request that pays by card named a card of the user that has not expired.
  pub upgrade_to_deluxe-users :
      (s : State)
      → let t = (upgrade_to_deluxe e year month r s).1 in
        (t.server.users ≡ s.server.users)
        ⊎ ((u : User) × Memᴰ u s.server.users
            × (is_a_customer e r.user_id u ≡ true)
            × (t.server.users
                ≡ map_where (λ (v : User). v.id == u.id) (λ _. upgraded e u) s.server.users)
            × IsPaid e year month r s t)
  unfolding upgrade_to_deluxe
  upgrade_to_deluxe-users s =
      subst (IsKeptOrUpgraded s)
        (sym (
          catch_state (find_customer e r.user_id >>= upgrade_found e year month r)
            (λ x. refuse 400 (concat_texts ("Something went wrong: " ∷ x ∷ []))) s))
        (bind_after (IsKeptOrUpgraded s) (find_customer e r.user_id) (upgrade_found e year month r)
          s
          (λ o t q.
            subst (λ z. IsKeptOrUpgraded s (upgrade_found e year month r o z).1)
              (ap (λ (p : Outcome (Option User) × State). p.1) q)
              (by_user o (ap (λ (p : Outcome (Option User) × State). p.0) q)))
          (λ x t q. inl (ap (λ (p : Outcome (Option User) × State). p.1.server.users) (sym q))))
    where
      by_user :
          (o : Option User)
          → e.orm.find_one (is_a_customer e r.user_id) s.server.users ≡ ok o
          → IsKeptOrUpgraded s (upgrade_found e year month r o s).1
      by_user none q = inl refl
      by_user (some u) q =
          let (c, i) = e.orm.find_one_some _ _ _ q in found-IsKeptOrUpgraded s u i c
