-- ===== src/Shop/Wallet/Charges.antt =====
-- routes/wallet.ts: when a balance changes.
use runc.Prelude.{
  ℕ, ◌≡◌, refl, sym, ap, ◌∙◌, ◌⊎◌, inl, inr, ◌&&◌, Option, none, some, List, arith, ◌==◌,
  Bool-cases,
}
use runc.Prelude.Int.{ℤ, ◌+ℤ◌}
use runc.Prelude.Http.{Outcome, ok, thrown, Reply, bind_ok, bind_thrown}
use runc.Database.{Orm}
use runc.Shop.Tables.{Wallet, Card, Store}
use runc.Shop.Wallet.{payment_card, charged, add_wallet_balance, HasCard, raised}

module _ (o : Orm) (user : ℕ) (amount : ℤ) where
  abbrev IsRaisedOrKept : Store → Store → Type 0
  IsRaisedOrKept s t = (t.wallets ≡ s.wallets) ⊎ (t.wallets ≡ raised user amount s.wallets)

  charged-wallets : (c : Card) (s : Store) → IsRaisedOrKept s (charged o user amount (some c) s).1
  unfolding charged
  charged-wallets c s =
      by_outcome
        (o.update (λ (w : Wallet). w.user_id == user)
          (λ (w : Wallet). record w { balance = w.balance +ℤ amount }) s.wallets)
        refl
    where
      by_outcome :
          (r : Outcome (List Wallet))
          → o.update
              (λ (w : Wallet). w.user_id == user)
              (λ (w : Wallet). record w { balance = w.balance +ℤ amount })
              s.wallets
            ≡ r
          → IsRaisedOrKept s (charged o user amount (some c) s).1
      by_outcome (ok t) e = let l = o.update_lem _ _ _ _ e in inr (ground arith)
      by_outcome (thrown m) e = inl (ground arith)

  none_state : (s : Store) → (charged o user amount none s).1 ≡ s
  unfolding charged
  none_state s = refl

  payment_card-state :
      (payment_id : Option ℕ) (s : Store) → (payment_card o payment_id user s).1 ≡ s
  unfolding payment_card
  payment_card-state none s = refl
  payment_card-state (some id) s = ground arith

  payment_card-HasCard :
      (payment_id : Option ℕ) (s : Store) (c : Card) (t : Store)
      → payment_card o payment_id user s ≡ (ok (some c), t)
      → HasCard user payment_id s
  unfolding payment_card
  payment_card-HasCard none s c t e = ground arith
  payment_card-HasCard (some id) s c t e = elim (Bool-cases (id == 0)) [
    | inl h ↦ ground arith
    | inr h ↦
        let q : o.find_one (λ (c : Card). c.id == id && c.user_id == user) s.cards ≡ ok (some c) =
          ground arith in
        let (p, m) = o.find_one_some _ _ _ q in (c, m, ground arith, ground arith)
  ]

  -- Adding to the balance leaves every wallet as it is, or raises the balances of the requesting
  -- user's wallets by the amount, and no other, and
  -- then the request named a stored card of this user.
  pub add_wallet_balance-wallets :
      (payment_id : Option ℕ) (s : Store)
      → let t = (add_wallet_balance o user payment_id amount s).1 in
        (t.wallets ≡ s.wallets)
        ⊎ (HasCard user payment_id s × (t.wallets ≡ raised user amount s.wallets))
  unfolding add_wallet_balance
  add_wallet_balance-wallets payment_id s = by_card (payment_card o payment_id user s) refl
    where
      by_card :
          (p : Outcome (Option Card) × Store)
          → payment_card o payment_id user s ≡ p
          → let t = (add_wallet_balance o user payment_id amount s).1 in
            (t.wallets ≡ s.wallets)
            ⊎ (HasCard user payment_id s × (t.wallets ≡ raised user amount s.wallets))
      by_card (r, t) q = by_result r q
        where
          same : t ≡ s
          same =
              sym (ap (λ (p : Outcome (Option Card) × Store). p.1) q)
              ∙ payment_card-state payment_id s

          by_result :
              (r : Outcome (Option Card))
              → payment_card o payment_id user s ≡ (r, t)
              → let t = (add_wallet_balance o user payment_id amount s).1 in
                (t.wallets ≡ s.wallets)
                ⊎ (HasCard user payment_id s × (t.wallets ≡ raised user amount s.wallets))
          by_result (ok none) q = inl (
              ap (λ (p : Outcome (Reply ℤ) × Store). p.1.wallets)
                (bind_ok (payment_card o payment_id user) (charged o user amount) s q)
              ∙ ap (λ (s : Store). s.wallets) (none_state t ∙ same))
          by_result (thrown m) q = inl (
              ap (λ (p : Outcome (Reply ℤ) × Store). p.1.wallets)
                (bind_thrown (payment_card o payment_id user) (charged o user amount) s q)
              ∙ ap (λ (s : Store). s.wallets) same)
          by_result (ok (some c)) q =
              let e : (add_wallet_balance o user payment_id amount s).1
                  ≡ (charged o user amount (some c) t).1 =
                ap (λ (p : Outcome (Reply ℤ) × Store). p.1)
                  (bind_ok (payment_card o payment_id user) (charged o user amount) s q) in
              elim (charged-wallets c t) [
                | inl k ↦
                    inl (ap (λ (s : Store). s.wallets) e ∙ k ∙ ap (λ (s : Store). s.wallets) same)
                | inr k ↦ inr (
                  (payment_card-HasCard payment_id s c t q),
                  ap (λ (s : Store). s.wallets) e
                      ∙ k
                      ∙ ap (λ (s : Store). raised user amount s.wallets) same,
                )
              ]
