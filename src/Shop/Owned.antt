-- ===== src/Shop/Owned.antt =====
-- routes/payment.ts, routes/address.ts and routes/delivery.ts: the rows a user may see and remove.
-- `user` is the `UserId` that `appendUserId` wrote; `deluxe` is `isDeluxe(req)`.
pub mod Isolation
use runc.Prelude.{
  ℕ, ◌-◌, String, Bool, true, ◌&&◌, Option, none, some, List, [], ◌∷◌, map, ◌==◌, if◌then◌else◌,
  concat_texts,
}
use runc.Prelude.Http.{Outcome, ok, thrown, Action, pure, await, ◌>>=◌, ◌>>◌, Reply, send, refuse}
use Prim.Native.String
use runc.Database.{Orm}
use runc.Shop.Tables.{Card, Address, Delivery, Store, find_card}

-- `cardNumber.substring(cardNumber.length - 4)`: a start below 0 is 0.
unfoldable pub last_four : String → String
last_four s = String.slice s (String.len s - 4) (String.len s)

abbrev pub masked : Card → Card
masked c = record c { card_num = concat_texts ("************" ∷ last_four c.card_num ∷ []) }

abbrev pub display_method : Bool → Delivery → Delivery
display_method deluxe d = record d { price = if deluxe then d.deluxe_price else d.price }

abbrev pub deleted : String → ℕ → Reply String
deleted message n = if n == 0 then refuse 400 "Malicious activity detected." else send 200 message

-- `destroy` on a column of the store: the number of rows removed
abbrev pub destroyed : {A : Type 0} → Outcome (ℕ × List A) → (List A → Store) → Action Store ℕ
destroyed (ok (n, rows)) f s = (ok n, f rows)
destroyed (thrown e) f s = (thrown e, s)

module _ (o : Orm) where
  unfoldable pub get_payment_methods : ℕ → Action Store (Reply (List Card))
  get_payment_methods user = do
    cards ← await (λ s. o.find_all (λ (c : Card). c.user_id == user) s.cards)
    pure (send 200 (map masked cards))

  abbrev payment_method_reply : Option Card → Reply Card
  payment_method_reply none = refuse 400 "Malicious activity detected"
  payment_method_reply (some c) = send 200 (masked c)

  unfoldable pub get_payment_method_by_id : ℕ → ℕ → Action Store (Reply Card)
  get_payment_method_by_id id user = do card ← find_card o id user; pure (payment_method_reply card)

  unfoldable pub del_payment_method_by_id : ℕ → ℕ → Action Store (Reply String)
  del_payment_method_by_id id user = do
    n ← λ s.
        destroyed (o.destroy (λ (c : Card). c.id == id && c.user_id == user) s.cards)
          (λ cards. record s { cards = cards }) s
    pure (deleted "Card deleted successfully." n)

  unfoldable pub get_address : ℕ → Action Store (Reply (List Address))
  get_address user = do
    addresses ← await (λ s. o.find_all (λ (a : Address). a.user_id == user) s.addresses)
    pure (send 200 addresses)

  abbrev address_reply : Option Address → Reply Address
  address_reply none = refuse 400 "Malicious activity detected."
  address_reply (some a) = send 200 a

  unfoldable pub get_address_by_id : ℕ → ℕ → Action Store (Reply Address)
  get_address_by_id id user = do
    address ← await (λ s. o.find_one (λ (a : Address). a.id == id && a.user_id == user) s.addresses)
    pure (address_reply address)

  unfoldable pub del_address_by_id : ℕ → ℕ → Action Store (Reply String)
  del_address_by_id id user = do
    n ← λ s.
        destroyed (o.destroy (λ (a : Address). a.id == id && a.user_id == user) s.addresses)
          (λ addresses. record s { addresses = addresses }) s
    pure (deleted "Address deleted successfully." n)

  unfoldable pub get_delivery_methods : Bool → Action Store (Reply (List Delivery))
  get_delivery_methods deluxe = do
    methods ← await (λ s. o.find_all (λ (d : Delivery). true) s.deliveries)
    pure (send 200 (map (display_method deluxe) methods))

  abbrev delivery_reply : Bool → Option Delivery → Reply Delivery
  delivery_reply deluxe none = refuse 400 "error"
  delivery_reply deluxe (some d) = send 200 (display_method deluxe d)

  unfoldable pub get_delivery_method : Bool → ℕ → Action Store (Reply Delivery)
  get_delivery_method deluxe id = do
    method ← await (λ s. o.find_one (λ (d : Delivery). d.id == id) s.deliveries)
    pure (delivery_reply deluxe method)
