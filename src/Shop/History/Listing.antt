-- ===== src/Shop/History/Listing.antt =====
-- routes/orderHistory.ts: an order that routes/order.ts made is in its customer's history.
use runc.Prelude.{
  ℕ, String, ◌≡◌, refl, sym, ◌∙◌, inl, inr, Bool, true, false, Option, some, List, [], ◌∷◌, arith,
  ◌==◌, ◌===◌, ===_iff, Bool-cases, filter, every,
}
use runc.Prelude.Http.{Outcome, ok, thrown, send}
use mathlib.Core.Path.{subst}
use mathlib.Core.List.{Memᴰ}
use runc.Auth.Users.{Session, session, get}
use runc.Shop.Tables.{Order, Delivery}
use runc.Shop.Order.{OrderServices, OrderRequest, Totals, mask_vowels, order_of}
use runc.Shop.History.{State, Collection, has_email, listed, history_of, order_history}

Mem-filter :
    {A : Type 0} (p : A → Bool) (x : A) (xs : List A)
    → Memᴰ x xs
    → p x ≡ true
    → Memᴰ x (filter p xs)
Mem-filter p x [] i h = elim i [ ]
Mem-filter p x (y ∷ ys) (Memᴰ.head e) h =
    let q : p y ≡ true = subst (λ z. p z ≡ true) e h in rw q (Memᴰ.head e)
Mem-filter p x (y ∷ ys) (Memᴰ.tail i) h = elim (Bool-cases (p y)) [
  | inl q ↦ rw q (Memᴰ.tail (Mem-filter p x ys i h))
  | inr q ↦ rw q (Mem-filter p x ys i h)
]

every-filter : {A : Type 0} (p : A → Bool) (xs : List A) → every p (filter p xs) ≡ true
every-filter p [] = refl
every-filter p (x ∷ xs) = ground (arith, every-filter p xs)

order_of-has_email :
    (e : OrderServices) (r : OrderRequest) (t : Totals) (discount : ℕ) (d : Delivery)
    → (r.email === "") ≡ false
    → has_email (mask_vowels r.email) (order_of e r t discount d) ≡ true
unfolding order_of
order_of-has_email e r t discount d h =
    rw h ((===_iff (mask_vowels r.email) (mask_vowels r.email)).1 refl)

module _ (c : Collection) (u : Session) (token : Option String) (s : State) where
  -- The history of a session's user with an address and an id lists the orders with the masked
  -- address, and no others.
  order_history-filter :
      (shown : List Order)
      → get token s.auth ≡ some (session u)
      → (u.user.email === "") ≡ false
      → (u.user.id == 0) ≡ false
      → (order_history c token s).0 ≡ ok (send 200 shown)
      → shown ≡ filter (has_email (mask_vowels u.user.email)) s.orders
  unfolding order_history
  order_history-filter shown g m i h =
      let k : listed c (c.find (has_email (mask_vowels u.user.email)) s.orders)
          ≡ ok (send 200 shown) =
        rw (m, i) at (subst (λ p. (history_of c p s).0 ≡ ok (send 200 shown)) g h) in
      by_found (c.find (has_email (mask_vowels u.user.email)) s.orders) refl k
    where
      by_found :
          (o : Outcome (List Order))
          → c.find (has_email (mask_vowels u.user.email)) s.orders ≡ o
          → listed c o ≡ ok (send 200 shown)
          → shown ≡ filter (has_email (mask_vowels u.user.email)) s.orders
      by_found (thrown x) q k = ground arith
      by_found (ok found) q k =
          let same : found ≡ shown = ground arith in
          sym same ∙ c.find_lem (has_email (mask_vowels u.user.email)) s.orders found q

  -- A stored order that was made for a request with the address of a session's user is in the
  -- history that this session is shown, if the address is not empty and the id is not 0, and all
  -- that is shown bears the masked address.
  pub order_history-placed :
      (e : OrderServices) (r : OrderRequest) (t : Totals) (discount : ℕ) (d : Delivery)
      (shown : List Order)
      → get token s.auth ≡ some (session u)
      → u.user.email ≡ r.email
      → (r.email === "") ≡ false
      → (u.user.id == 0) ≡ false
      → Memᴰ (order_of e r t discount d) s.orders
      → (order_history c token s).0 ≡ ok (send 200 shown)
      → Memᴰ (order_of e r t discount d) shown
        × (every (has_email (mask_vowels r.email)) shown ≡ true)
  order_history-placed e r t discount d shown g same m i o h =
      let own : (u.user.email === "") ≡ false = subst (λ z. (z === "") ≡ false) (sym same) m in
      let all : shown ≡ filter (has_email (mask_vowels r.email)) s.orders =
        subst (λ z. shown ≡ filter (has_email (mask_vowels z)) s.orders) same
          (order_history-filter shown g own i h) in
      (
        rw all (
            Mem-filter (has_email (mask_vowels r.email)) (order_of e r t discount d) s.orders o
              (order_of-has_email e r t discount d m)),
        rw all (every-filter (has_email (mask_vowels r.email)) s.orders),
      )
