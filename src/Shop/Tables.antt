-- ===== src/Shop/Tables.antt =====
-- The rows of the shop's tables, and the state that its routes share. Money is in hundredths of
-- the currency unit, which the source keeps as decimals; quantities and balances are signed.
use runc.Prelude.{ℕ, String, Bool, false, ◌&&◌, Option, List, ◌==◌}
use runc.Prelude.Int.{ℤ, ◌+ℤ◌}
use runc.Prelude.Http.{Outcome, ok, thrown, Action, await, await_write}
use runc.Database.{Orm}
use runc.Challenges.{Board, solve_if}

-- models/wallet.ts
pub record Wallet : Type 0 where
  pub user_id : ℕ
  pub balance : ℤ

-- models/card.ts; the number as it is printed
pub record Card : Type 0 where
  pub user_id : ℕ
  pub id : ℕ
  pub full_name : String
  pub card_num : String
  pub exp_month : ℕ
  pub exp_year : ℕ

-- models/address.ts, less the fields that are only shown
pub record Address : Type 0 where
  pub user_id : ℕ
  pub id : ℕ
  pub full_name : String

-- models/delivery.ts
pub record Delivery : Type 0 where
  pub id : ℕ
  pub name : String
  pub price : ℕ
  pub deluxe_price : ℕ
  pub eta : ℕ

-- models/basket.ts
pub record Basket : Type 0 where
  pub id : ℕ
  pub coupon : Option String

-- models/basketitem.ts
pub record BasketItem : Type 0 where
  pub product_id : ℕ
  pub basket_id : ℕ
  pub id : ℕ
  pub quantity : ℤ

-- models/quantity.ts
pub record Quantity : Type 0 where
  pub product_id : ℕ
  pub quantity : ℤ
  pub limit_per_user : Option ℤ

-- models/product.ts
pub record Product : Type 0 where
  pub id : ℕ
  pub name : String
  pub price : ℕ
  pub deluxe_price : ℕ

-- An element of `basketProducts` in routes/order.ts.
pub record OrderLine : Type 0 where
  pub quantity : ℤ
  pub id : ℕ
  pub name : String
  pub price : ℕ
  pub total : ℤ
  pub bonus : ℤ

-- A document of the orders collection.
pub record Order : Type 0 where
  pub promotional_amount : ℤ
  pub payment_id : Option String
  pub address_id : Option ℕ
  pub order_id : String
  pub delivered : Bool
  pub email : Option String
  pub total_price : ℤ
  pub products : List OrderLine
  pub bonus : ℤ
  pub delivery_price : ℕ
  pub eta : ℕ

pub record Store : Type 0 where
  pub wallets : List Wallet
  pub cards : List Card
  pub addresses : List Address
  pub deliveries : List Delivery
  pub baskets : List Basket
  pub items : List BasketItem
  pub quantities : List Quantity
  pub orders : List Order
  pub board : Board

abbrev pub check_challenge : String → Bool → Store → Store
check_challenge key criteria s = record s { board = solve_if key criteria false s.board }

abbrev pub written : {A : Type 0} → Outcome A → (A → Store) → Outcome Store
written (ok a) f = ok (f a)
written (thrown e) f = thrown e

module _ (o : Orm) where
  abbrev pub find_wallet : ℕ → Action Store (Option Wallet)
  find_wallet user = await (λ s. o.find_one (λ (w : Wallet). w.user_id == user) s.wallets)

  -- `WalletModel.increment({ balance }, { where: { UserId } })`; a decrement adds the opposite.
  abbrev pub add_to_wallet : ℕ → ℤ → Action Store (Unit {0})
  add_to_wallet user amount = await_write (λ s.
      written
        (o.update (λ (w : Wallet). w.user_id == user)
          (λ (w : Wallet). record w { balance = w.balance +ℤ amount }) s.wallets)
        (λ ws. record s { wallets = ws }))

  abbrev pub find_card : ℕ → ℕ → Action Store (Option Card)
  find_card id user =
      await (λ s. o.find_one (λ (c : Card). c.id == id && c.user_id == user) s.cards)
