-- ===== src/Tests/Shop.antt =====
-- The shop's routes on concrete inputs.
use runc.Prelude.{ℕ, ◌≡◌, refl, ◌⊎◌, false, none, some, [], ◌∷◌, ◌++◌, filter, map_where}
use runc.Tests.Auth
use runc.Auth.Users.{session, get}
use runc.Auth.Text.{unquote}
use runc.Shop.History
use runc.Shop.History.{order_history}
use runc.Shop.Order.{mask_vowels}
use runc.Shop.Coupon.{Coupons}
use runc.Prelude.Int.{pos, ◌+ℤ◌, ◌-ℤ◌, ◌*ℤ◌, ◌≤ℤ◌}
use mathlib.Core.List.{Memᴰ}
use runc.Prelude.Http.{ok, send, next, pure, Action}
use runc.Database.{list_orm, find_all_list}
use runc.Coding.AntiCheat.{server_start, frac}
use runc.Shop.Tables.{Wallet, Card, Basket, BasketItem, Product, Store, Order}
use runc.Shop.Wallet.{add_wallet_balance, HasCard, raised}
use runc.Shop.Wallet.Charges.{add_wallet_balance-wallets}
use runc.Shop.Owned.{masked, get_payment_methods, get_payment_method_by_id}
use runc.Shop.Basket.{Entries, NewItem, quantity_check, quantity_check_before_addition}
use runc.Shop.Coupon.{discount_from_coupon}
use runc.Shop.Order.{
  OrderServices, OrderRequest, prepare_order, order_of, settle, default_delivery, order_lines,
  take_stock, line_of, calculate_applicable_discount, campaign_discount, delivery_method,
}
use runc.Shop.Order.Pricing.{expected_lines, with_lines, no_lines, IsPriced, prepare_order-IsPriced}
use runc.Shop.Order.Payment.{settle-covered}

abbrev card : Card
card = record {
  user_id = 2;
  id = 7;
  full_name = "Jim";
  card_num = "1234567812345678";
  exp_month = 1;
  exp_year = 2080;
}

abbrev item : BasketItem
item = record { product_id = 5; basket_id = 3; id = 1; quantity = pos 2 }

abbrev store : Store
store = record {
  wallets = record { user_id = 2; balance = pos 10000 } ∷ [];
  cards = card ∷ record card { user_id = 9; id = 8 } ∷ [];
  addresses = record { user_id = 2; id = 4; full_name = "Jim" } ∷ [];
  deliveries = [];
  baskets = record { id = 3; coupon = none } ∷ [];
  items = item ∷ [];
  quantities = record { product_id = 5; quantity = pos 10; limit_per_user = some (pos 4) } ∷ [];
  orders = [];
  board = record {
    challenges = [];
    rows = [];
    pending = [];
    notifications = [];
    emitted = [];
    coding_emitted = [];
    reports = [];
    hints = [];
    accuracy = [];
    anti_cheat = record {
      solves = record { key = none; step = server_start; timestamp = 0; score = frac 0 1 } ∷ [];
      interactions = [];
    };
  };
}

add_wallet_balance-wallets_example :
    ((add_wallet_balance list_orm 2 (some 7) (pos 500) store).1.wallets ≡ store.wallets)
    ⊎ (HasCard 2 (some 7) store
        × ((add_wallet_balance list_orm 2 (some 7) (pos 500) store).1.wallets
            ≡ raised 2 (pos 500) store.wallets))
add_wallet_balance-wallets_example = add_wallet_balance-wallets list_orm 2 (pos 500) (some 7) store

listed : (get_payment_methods list_orm 2 store).0 ≡ ok (send 200 (masked card ∷ []))
unfolding get_payment_methods
listed = refl

shown : (get_payment_method_by_id list_orm 7 2 store).0 ≡ ok (send 200 (masked card))
unfolding get_payment_method_by_id
shown = refl

passes : (quantity_check_before_addition list_orm false 5 (pos 3) store).0 ≡ ok next
unfolding quantity_check_before_addition quantity_check
passes = refl

abbrev save : NewItem → Action Store BasketItem
save n = pure item

abbrev entries : ℕ → ℕ → Entries
entries first last =
    ("ProductId", some 5)
    ∷ ("BasketId", some first)
    ∷ ("quantity", some 1)
    ∷ ("BasketId", some last)
    ∷ []

abbrev basket : Basket
basket = record { id = 3; coupon = none }

abbrev product : Product
product = record { id = 5; name = "Apple Juice"; price = 199; deluxe_price = 99 }

abbrev services : OrderServices
services = record {
  orm = list_orm;
  coupons = record { decode = λ c. none; month = "NOV26"; now = 0 };
  find_basket = λ id s. ok (some basket);
  products_of = λ b s. (product, some item) ∷ [];
  insert = λ o os. ok (os ++ o ∷ []);
  christmas_special = 0;
}

abbrev request : OrderRequest
request = record {
  id = 3;
  user_id = some 2;
  details =
      some (record { payment_id = some "wallet"; address_id = none; delivery_method_id = none });
  coupon_data = none;
  deluxe = false;
  email = "jim@shop";
  order_id = "1-2";
}

settled : (settle services request (pos 398) (pos 0) store).0 ≡ ok tt
unfolding settle ◌+ℤ◌ ◌-ℤ◌ ◌*ℤ◌
settled = refl

settle-covered_example :
    (w : Wallet) × Memᴰ w store.wallets × (w.user_id ≡ 2) × (pos 398 ≤ℤ w.balance)
settle-covered_example = settle-covered services request 2 (pos 398) (pos 0) store refl refl settled

abbrev placed : Order
placed =
    order_of services request
      (with_lines (expected_lines false ((product, some item) ∷ [])) no_lines) 0
      (default_delivery services request)

prepared : (prepare_order services request basket store).0 ≡ ok placed
unfolding prepare_order order_lines take_stock line_of calculate_applicable_discount
    campaign_discount discount_from_coupon delivery_method settle order_of ◌+ℤ◌ ◌-ℤ◌ ◌*ℤ◌
prepared = refl

prepare_order-IsPriced_example : IsPriced (expected_lines false ((product, some item) ∷ [])) placed
prepare_order-IsPriced_example =
    prepare_order-IsPriced services request basket placed store prepared

-- Coupons that stand for themselves, in November.
abbrev plain_coupons : Coupons
plain_coupons = record { decode = λ c. some c; month = "NOV26"; now = 0 }

-- The order, and one of another customer.
abbrev history : History.State
history = record {
  auth = Auth.server.auth;
  orders = placed ∷ record placed { email = some "*my@sh*p" } ∷ [];
}

abbrev orders_collection : History.Collection
orders_collection = record {
  find = λ p t. ok (filter p t);
  update = λ p f t. ok (map_where p f t);
  find_lem = find_all_list;
}

known : get (some "ab") history.auth ≡ some (session Auth.jim_session)
unfolding get unquote
known = refl

shown_to_jim : (order_history orders_collection (some "ab") history).0 ≡ ok (send 200 (placed ∷ []))
unfolding order_history get unquote mask_vowels order_of
shown_to_jim = refl
