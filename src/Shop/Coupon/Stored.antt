-- ===== src/Shop/Coupon/Stored.antt =====
-- routes/coupon.ts: which coupons the baskets hold.
use runc.Prelude.{
  ℕ, String, ◌≡◌, refl, sym, ap, ◌∙◌, ◌⊎◌, Option, none, some, List, ◌==◌, map_where,
}
use runc.Prelude.Http.{Action, pure, await, ◌>>=◌, next_error, catch_after, bind_after}
use mathlib.Core.Path.{subst}
use runc.Database.{Orm}
use runc.Shop.Tables.{Basket, Store}
use runc.Shop.Coupon.{Coupons, discount_from_coupon, truthy, couponed, apply_coupon}

module _ (k : Coupons) where
  -- No coupon, or one that gives a discount.
  abbrev pub IsValid : Option String → Type 0
  IsValid none = Unit
  IsValid (some coupon) = (n : ℕ) × (truthy k (discount_from_coupon k (some coupon)) ≡ some n)

  abbrev pub HasValidCoupon : Basket → Type 0
  HasValidCoupon b = IsValid b.coupon

  module _ (o : Orm) (id : ℕ) (coupon : Option String) where
    -- The baskets are as before, or the coupon gives a discount, the baskets with the id hold it, and
    -- nothing else about any basket changed.
    abbrev pub IsApplied : List Basket → List Basket → Type 0
    IsApplied before after =
        (after ≡ before)
        ⊎ ((c : String) × (n : ℕ) × (coupon ≡ some c)
            × (truthy k (discount_from_coupon k (some c)) ≡ some n)
            × (after
                ≡ map_where (λ (b : Basket). b.id == id) (λ b. record b { coupon = some c })
                    before))

    -- A coupon without a discount leaves the whole state as it is, a coupon stored before included.
    pub apply_coupon_invalid :
        (s : Store)
        → truthy k (discount_from_coupon k coupon) ≡ none
        → (apply_coupon k o id coupon s).1 ≡ s
    unfolding apply_coupon
    apply_coupon_invalid s h =
        let m : Action Store (Option Basket) =
          await (λ (s : Store). o.find_one (λ (b : Basket). b.id == id) s.baskets) in
        catch_after (λ (t : Store). t ≡ s) (m >>= couponed k o id coupon) (λ e. pure (next_error e))
          s (λ r t q. ap (λ p. p.1) (sym q) ∙ same) (λ e t q. ap (λ p. p.1) (sym q) ∙ same)
      where
        answered : (o' : Option Basket) → (couponed k o id coupon o' s).1 ≡ s
        answered none = refl
        answered (some basket) = rw h refl

        same :
            ((await (λ (s : Store). o.find_one (λ (b : Basket). b.id == id) s.baskets)
                >>= couponed k o id coupon)
              s).1
            ≡ s
        same =
            bind_after (λ (t : Store). t ≡ s)
              (await (λ (s : Store). o.find_one (λ (b : Basket). b.id == id) s.baskets))
              (couponed k o id coupon) s
              (λ o' t q.
                subst (λ t. (couponed k o id coupon o' t).1 ≡ s) (ap (λ p. p.1) q) (answered o'))
              (λ e t q. sym (ap (λ p. p.1) q))
