-- ===== src/Shop/Basket/Stock.antt =====
-- routes/basketItems.ts: what passes the quantity check.
use runc.Prelude.{ℕ, ◌≡◌, refl, ◌⊎◌, Bool, true, false, Option, none, some, arith, ◌==◌}
use runc.Prelude.Int.{ℤ, ◌≤ℤ◌}
use runc.Prelude.Http.{Outcome, ok, thrown, next}
use mathlib.Core.List.{Memᴰ}
use runc.Database.{Orm}
use runc.Shop.Tables.{Quantity, Store}
use runc.Shop.Basket.{is_limited, checked, quantity_check, quantity_check_before_addition}

module _ (o : Orm) (deluxe : Bool) (id : ℕ) (quantity : ℤ) where
  -- An addition goes on to the next handler only if the product has a stock row that covers the
  -- requested quantity, and the customer is deluxe or the quantity is within the product's limit.
  -- A zero limit counts as no limit.
  pub quantity_check_before_addition-covered :
      (s : Store)
      → (quantity_check_before_addition o deluxe id quantity s).0 ≡ ok next
      → (q : Quantity) × Memᴰ q s.quantities
        × (q.product_id ≡ id)
        × (quantity ≤ℤ q.quantity)
        × ((deluxe ≡ true) ⊎ (is_limited q.limit_per_user quantity ≡ false))
  unfolding quantity_check_before_addition quantity_check
  quantity_check_before_addition-covered s e =
      by_row (o.find_one (λ (q : Quantity). q.product_id == id) s.quantities) refl
    where
      by_row :
          (r : Outcome (Option Quantity))
          → o.find_one (λ (q : Quantity). q.product_id == id) s.quantities ≡ r
          → (q : Quantity) × Memᴰ q s.quantities
            × (q.product_id ≡ id)
            × (quantity ≤ℤ q.quantity)
            × ((deluxe ≡ true) ⊎ (is_limited q.limit_per_user quantity ≡ false))
      by_row (thrown m) h = ground arith
      by_row (ok none) h = ground arith
      by_row (ok (some q)) h =
          let (p, m) = o.find_one_some _ _ _ h in
          let c : checked deluxe quantity q ≡ next = ground arith in
          (q, m, ground arith, ground arith, ground arith)
