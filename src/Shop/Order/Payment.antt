-- ===== src/Shop/Order/Payment.antt =====
-- routes/order.ts: what is paid from the wallet.
use runc.Prelude.{ℕ, ◌≡◌, refl, inl, inr, true, Option, none, some, arith, ◌==◌, Bool-cases}
use runc.Prelude.Int.{ℤ, ◌≤ℤ◌, leb_ℤ}
use runc.Prelude.Http.{Outcome, ok, thrown}
use mathlib.Core.List.{Memᴰ}
use runc.Shop.Tables.{Wallet, Store}
use runc.Shop.Order.{OrderServices, OrderRequest, pays_by_wallet, settle, non_zero}

module _ (e : OrderServices) (r : OrderRequest) (user : ℕ) where
  -- The settlement of an order that pays by wallet succeeds only if the user has a wallet whose
  -- balance covers the total.
  pub settle-covered :
      (total points : ℤ) (s : Store)
      → non_zero r.user_id ≡ some user
      → pays_by_wallet e r ≡ true
      → (settle e r total points s).0 ≡ ok tt
      → (w : Wallet) × Memᴰ w s.wallets × (w.user_id ≡ user) × (total ≤ℤ w.balance)
  unfolding settle
  settle-covered total points s u p h =
      by_wallet (e.orm.find_one (λ (w : Wallet). w.user_id == user) s.wallets) refl
    where
      by_wallet :
          (x : Outcome (Option Wallet))
          → e.orm.find_one (λ (w : Wallet). w.user_id == user) s.wallets ≡ x
          → (w : Wallet) × Memᴰ w s.wallets × (w.user_id ≡ user) × (total ≤ℤ w.balance)
      by_wallet (thrown m) q = ground arith
      by_wallet (ok none) q = ground arith
      by_wallet (ok (some w)) q =
          let (a, b) = e.orm.find_one_some _ _ _ q in
          elim (Bool-cases (leb_ℤ total w.balance)) [
            | inl k ↦ (w, b, ground arith, ground arith)
            | inr k ↦ ground arith
          ]
