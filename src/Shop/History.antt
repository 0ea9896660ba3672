-- ===== src/Shop/History.antt =====
-- routes/orderHistory.ts: the orders of a customer, found again by the masked e-mail address that
-- routes/order.ts stores, and those of all, for the accounting.
pub mod Listing
use runc.Prelude.{
  String, ◌≡◌, Bool, true, false, not, ◌&&◌, Option, none, some, List, [], ◌∷◌, ◌==◌, ◌===◌,
  if◌then◌else◌, filter, find,
}
use runc.Prelude.Http.{
  Outcome, ok, thrown, Action, pure, await_write, ◌>>=◌, ◌>>◌, Reply, send, next_error,
}
use runc.Auth.Users.{Payload, session, AuthenticatedUsers, get}
use runc.Shop.Tables.{Order}
use runc.Shop.Order.{mask_vowels}

pub record State : Type 0 where
  pub auth : AuthenticatedUsers
  pub orders : List Order

-- The collection, of the package marsdb: a call may reject, and a call that resolves gives the
-- documents that pass the test.
pub record Collection : Type 0 where
  pub find : (Order → Bool) → List Order → Outcome (List Order)
  pub update : (Order → Bool) → (Order → Order) → List Order → Outcome (List Order)
  pub find_lem :
      (p : Order → Bool) (t found : List Order) → find p t ≡ ok found → found ≡ filter p t

abbrev pub has_email : String → Order → Bool
has_email masked o = elim o.email [ none ↦ false | some e ↦ e === masked ]

abbrev pub reverse_onto : List Order → List Order → List Order
reverse_onto [] acc = acc
reverse_onto (o ∷ os) acc = reverse_onto os (o ∷ acc)

module _ (c : Collection) where
  abbrev pub listed : Outcome (List Order) → Outcome (Reply (List Order))
  listed (ok orders) = ok (send 200 orders)
  listed (thrown e) = thrown e

  abbrev pub history_of : Option Payload → Action State (Reply (List Order))
  history_of (some (session u)) s =
      if not (u.user.email === "") && not (u.user.id == 0)
      then (listed (c.find (has_email (mask_vowels u.user.email)) s.orders), s)
      else (ok (next_error "Blocked illegal activity"), s)
  history_of _ s = (ok (next_error "Blocked illegal activity"), s)

  -- `token` is the header without "Bearer ".
  unfoldable pub order_history : Option String → Action State (Reply (List Order))
  unfolding get mask_vowels
  order_history token s = history_of (get token s.auth) s

  unfoldable pub all_orders : Action State (Reply (List Order))
  all_orders s = elim (c.find (λ o. true) s.orders) [
    | ok orders ↦ (ok (send 200 (reverse_onto orders [])), s)
    | thrown e ↦ (thrown e, s)
  ]

  -- `selector` is the test on the document's id; the body's status is negated.
  unfoldable pub toggle_delivery_status : (Order → Bool) → Bool → Action State (Reply (Unit {0}))
  toggle_delivery_status selector delivery_status = do
    await_write (λ s.
        elim (c.update selector
          (λ o. record o {
            delivered = not delivery_status;
            eta = if not delivery_status then 0 else 1;
          })
          s.orders) [ ok orders ↦ ok (record s { orders = orders }) | thrown e ↦ thrown e ])
    pure (send 200 tt)
