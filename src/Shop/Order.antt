-- ===== src/Shop/Order.antt =====
-- `placeOrder` of routes/order.ts, less the PDF it draws. Money is in hundredths, bonus points are
-- whole. Every rejection before the insertion ends in `next(error)`, whether the inner or the outer
-- handler catches it, so the body throws and `place_order` catches once.
pub mod Pricing
pub mod Payment
use runc.Prelude.{
  ℕ, suc, ◌+◌, ◌*◌, ◌/◌, String, Bool, false, not, Option, none, some, List, [], ◌∷◌, ◌++◌, ltb,
  leb, ◌==◌, ◌===◌, if◌then◌else◌, find, includes,
}
use runc.Prelude.Int.{ℤ, pos, negsuc, ◌+ℤ◌, ◌-ℤ◌, ◌*ℤ◌, ltb_ℤ, leb_ℤ}
use runc.Prelude.Http.{
  Outcome, ok, thrown, Action, pure, throw, gets, await, catch, modify, await_write, ◌>>=◌, ◌>>◌,
  Reply, send, next_error, unanswered,
}
use Prim.Native.Char.{code}
use Prim.Native.String
use runc.Database.{Orm}
use runc.Shop.Tables.{
  Wallet, Delivery, Basket, BasketItem, Quantity, Product, OrderLine, Order, Store, check_challenge,
  written, find_wallet, add_to_wallet,
}
use runc.Shop.Coupon.{Coupons, Campaign, campaigns, discount_from_coupon, truthy, set_coupon}

-- `req.body.orderDetails`; its ids are falsy if they are absent or 0.
pub record OrderDetails : Type 0 where
  pub payment_id : Option String
  pub address_id : Option ℕ
  pub delivery_method_id : Option ℕ

-- What the handler reads of the request and its surroundings.
pub record OrderRequest : Type 0 where
  -- `req.params.id`
  pub id : ℕ
  pub user_id : Option ℕ
  pub details : Option OrderDetails
  -- `req.body.couponData`, decoded: the code and the number of the date
  pub coupon_data : Option (String × Option ℕ)
  pub deluxe : Bool
  -- the email of `authenticatedUsers.from(req)`, empty without a session
  pub email : String
  pub order_id : String

-- The calls of packages: the ORM, the join of a basket with its products (a removed item has no
-- `BasketItem`), and the insertion into the orders collection.
pub record OrderServices : Type 1 where
  pub orm : Orm
  pub coupons : Coupons
  pub find_basket : ℕ → Store → Outcome (Option Basket)
  pub products_of : Basket → Store → List (Product × Option BasketItem)
  pub insert : Order → List Order → Outcome (List Order)
  -- `products.christmasSpecial.id`
  pub christmas_special : ℕ

-- What the loop over the basket accumulates.
pub record Totals : Type 0 where
  pub lines : List OrderLine
  pub price : ℤ
  pub points : ℤ

abbrev pub item_price : Bool → Product → ℕ
item_price deluxe p = if deluxe then p.deluxe_price else p.price

-- `Math.round(itemPrice / 10)`, of a price in hundredths
abbrev pub item_points : ℕ → ℕ
item_points price = (price + 500) / 1000

unfoldable pub line_of : Bool → Product → BasketItem → OrderLine
line_of deluxe p i = record {
  quantity = i.quantity;
  id = p.id;
  name = p.name;
  price = item_price deluxe p;
  total = pos (item_price deluxe p) *ℤ i.quantity;
  bonus = pos (item_points (item_price deluxe p)) *ℤ i.quantity;
}

abbrev pub add_line : OrderLine → Totals → Totals
add_line l t = record {
  lines = t.lines ++ l ∷ [];
  price = t.price +ℤ l.total;
  points = t.points +ℤ l.bonus;
}

-- `toFixed(2)` of the discount: the nearest hundredth, a tie away from 0
unfoldable pub discount_amount : ℤ → ℕ → ℤ
discount_amount (pos n) discount = pos ((n * discount + 50) / 100)
discount_amount (negsuc n) discount = pos 0 -ℤ pos ((suc n * discount + 50) / 100)

-- `email.replace(/[aeiou]/gi, '*')`
abbrev is_vowel : ℕ → Bool
is_vowel c = includes (b'a' ∷ b'e' ∷ b'i' ∷ b'o' ∷ b'u' ∷ b'A' ∷ b'E' ∷ b'I' ∷ b'O' ∷ b'U' ∷ []) c

unfoldable pub mask_vowels : String → String
mask_vowels String.[] = String.[]
mask_vowels (String.◌∷◌ c s) =
    let rest = mask_vowels s in
    if is_vowel (code c) then String.◌++◌ "*" rest else String.◌∷◌ c rest

abbrev pub non_zero : Option ℕ → Option ℕ
non_zero none = none
non_zero (some n) = if n == 0 then none else some n

module _ (e : OrderServices) (r : OrderRequest) where
  abbrev set_stock : ℕ → ℤ → Option Quantity → Action Store (Unit {0})
  set_stock product sold none = pure tt
  set_stock product sold (some row) = await_write (λ s.
      written
        (e.orm.update (λ (q : Quantity). q.product_id == product)
          (λ (q : Quantity). record q { quantity = row.quantity -ℤ sold }) s.quantities)
        (λ qs. record s { quantities = qs }))

  unfoldable pub take_stock : BasketItem → Action Store (Unit {0})
  take_stock i = do
    row ← await (λ s. e.orm.find_one (λ (q : Quantity). q.product_id == i.product_id) s.quantities)
    set_stock i.product_id i.quantity row

  unfoldable pub order_lines : List (Product × Option BasketItem) → Totals → Action Store Totals
  unfolding take_stock line_of
  order_lines [] t = pure t
  order_lines ((p, none) ∷ ps) t = order_lines ps t
  order_lines ((p, some i) ∷ ps) t = do
    modify (check_challenge "christmasSpecialChallenge" (i.product_id == e.christmas_special))
    take_stock i
    order_lines ps (add_line (line_of r.deluxe p i) t)

  -- The campaign of the request's coupon data, if its date is the campaign's.
  unfoldable pub campaign_discount : Action Store ℕ
  campaign_discount = elim r.coupon_data [
    | none ↦ pure 0
    | some (name, none) ↦ pure 0
    | some (name, some date) ↦ elim (find (λ (c : Campaign). c.name === name) campaigns) [
      | none ↦ pure 0
      | some c ↦
          if date == c.valid_on
          then (do
            modify (check_challenge "manipulateClockChallenge" (ltb c.valid_on e.coupons.now))
            pure c.discount)
          else pure 0
    ]
  ]

  unfoldable pub calculate_applicable_discount : Basket → Action Store ℕ
  unfolding campaign_discount
  calculate_applicable_discount b =
      elim (truthy e.coupons (discount_from_coupon e.coupons b.coupon)) [
        | none ↦ campaign_discount
        | some d ↦ (do modify (check_challenge "forgedCouponChallenge" (leb 80 d)); pure d)
      ]

  abbrev pub default_delivery : Delivery
  default_delivery = record { id = 0; name = ""; price = 0; deluxe_price = 0; eta = 5 }

  unfoldable pub delivery_method : Action Store Delivery
  delivery_method = elim r.details [
    | none ↦ pure default_delivery
    | some d ↦ elim (non_zero d.delivery_method_id) [
      | none ↦ pure default_delivery
      | some id ↦ (do
        m ← await (λ s. e.orm.find_one (λ (d : Delivery). d.id == id) s.deliveries)
        pure (elim m [ none ↦ default_delivery | some d ↦ d ]))
    ]
  ]

  abbrev pub delivery_amount : Delivery → ℕ
  delivery_amount d = if r.deluxe then d.deluxe_price else d.price

  abbrev pub pays_by_wallet : Bool
  pays_by_wallet = elim r.details [
    | none ↦ false
    | some d ↦ elim d.payment_id [ none ↦ false | some p ↦ p === "wallet" ]
  ]

  abbrev pub charge_wallet : ℕ → ℤ → Option Wallet → Action Store (Unit {0})
  charge_wallet user total none = throw "Insufficient wallet balance."
  charge_wallet user total (some w) =
      if leb_ℤ total w.balance
      then add_to_wallet e.orm user (pos 0 -ℤ total)
      else throw "Insufficient wallet balance."

  -- Payment from the wallet if the request says so, and then the bonus points, one unit each.
  unfoldable pub settle : ℤ → ℤ → Action Store (Unit {0})
  settle total points = elim (non_zero r.user_id) [
    | none ↦ pure tt
    | some user ↦ (do
      if pays_by_wallet then find_wallet e.orm user >>= charge_wallet user total else pure tt
      add_to_wallet e.orm user (points *ℤ pos 100))
  ]

  unfoldable pub order_of : Totals → ℕ → Delivery → Order
  unfolding discount_amount mask_vowels
  order_of t discount d = record {
    promotional_amount = if discount == 0 then pos 0 else discount_amount t.price discount;
    payment_id = elim r.details [ none ↦ none | some d ↦ d.payment_id ];
    address_id = elim r.details [ none ↦ none | some d ↦ d.address_id ];
    order_id = r.order_id;
    delivered = false;
    email = if r.email === "" then none else some (mask_vowels r.email);
    total_price =
        (if discount == 0 then t.price else t.price -ℤ discount_amount t.price discount)
        +ℤ pos (delivery_amount d);
    products = t.lines;
    bonus = t.points;
    delivery_price = delivery_amount d;
    eta = d.eta;
  }

  -- The body up to the insertion.
  unfoldable pub prepare_order : Basket → Action Store Order
  unfolding order_lines calculate_applicable_discount delivery_method order_of settle
  prepare_order b = do
    products ← gets (e.products_of b)
    totals ← order_lines products (record { lines = []; price = pos 0; points = pos 0 })
    discount ← calculate_applicable_discount b
    delivery ← delivery_method
    modify (
        check_challenge "negativeOrderChallenge"
          (ltb_ℤ (order_of totals discount delivery).total_price (pos 0)))
    settle (order_of totals discount delivery).total_price totals.points
    pure (order_of totals discount delivery)

  -- The `finish` event of the file writer: the coupon is cleared without waiting for it, the items
  -- are removed, and only then the request is answered.
  unfoldable pub finish : Action Store (Reply String)
  finish = do
    catch (set_coupon e.coupons e.orm r.id none) (λ m. pure tt)
    await_write (λ s. elim (e.orm.destroy (λ (i : BasketItem). i.basket_id == r.id) s.items) [
      | ok (n, items) ↦ ok (record s { items = items })
      | thrown m ↦ thrown m
    ])
    pure (send 200 r.order_id)

  -- The insertion is not awaited: its rejection is nobody's, and the request stays open.
  unfoldable pub complete : Order → Action Store (Reply String)
  unfolding finish
  complete order =
      catch
        (do
          await_write (λ s. written (e.insert order s.orders) (λ os. record s { orders = os }))
          finish)
        (λ m. pure unanswered)

  abbrev prepared : Outcome Order → Action Store (Reply String)
  prepared (ok order) = complete order
  prepared (thrown m) = pure (next_error m)

  unfoldable pub place_order_in : Option Basket → Action Store (Reply String)
  unfolding complete prepare_order
  place_order_in none = pure (next_error "Basket does not exist.")
  place_order_in (some b) = λ s. let (o, t) = prepare_order b s in prepared o t

  unfoldable pub place_order : Action Store (Reply String)
  unfolding place_order_in
  place_order =
      catch (do b ← await (e.find_basket r.id); place_order_in b) (λ m. pure (next_error m))
