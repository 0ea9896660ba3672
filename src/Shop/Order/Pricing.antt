-- ===== src/Shop/Order/Pricing.antt =====
-- routes/order.ts: the lines of an order and what they sum up to.
use runc.Prelude.{
  ℕ, ◌+◌, ◌/◌, ◌≡◌, refl, sym, ap, ◌∙◌, inl, inr, Bool, true, false, Option, none, some, List, [],
  ◌∷◌, ◌++◌, arith, ◌==◌, Bool-cases,
}
use runc.Prelude.Int.{ℤ, pos, ◌+ℤ◌, ◌-ℤ◌, ◌*ℤ◌, ltb_ℤ, +ℤ_parts, eq_of_parts}
use runc.Prelude.Http.{Outcome, ok, Action, pure, modify, ◌>>=◌, ◌>>◌, bind_resolved}
use mathlib.Core.Path.{subst}
use runc.Shop.Tables.{
  Delivery, Basket, BasketItem, Product, OrderLine, Order, Store, check_challenge,
}
use runc.Shop.Order.{
  OrderServices, OrderRequest, Totals, line_of, add_line, take_stock, order_lines, settle, order_of,
  calculate_applicable_discount, delivery_method, prepare_order, discount_amount, delivery_amount,
}

-- A line of an item at a price in hundredths: the price once for each piece, and a bonus point for
-- every ten of the currency, to the nearest, for each piece.
abbrev pub line_at : ℕ → Product → BasketItem → OrderLine
line_at price p i = record {
  quantity = i.quantity;
  id = p.id;
  name = p.name;
  price = price;
  total = pos price *ℤ i.quantity;
  bonus = pos ((price + 500) / 1000) *ℤ i.quantity;
}

-- What a customer, with the deluxe membership or without, expects of the lines: one for each product
-- that is still in the basket, in the basket's order, for a member at the product's deluxe price and
-- for anyone else at its price.
abbrev pub expected_lines : Bool → List (Product × Option BasketItem) → List OrderLine
expected_lines deluxe [] = []
expected_lines deluxe ((p, none) ∷ ps) = expected_lines deluxe ps
expected_lines true ((p, some i) ∷ ps) = line_at p.deluxe_price p i ∷ expected_lines true ps
expected_lines false ((p, some i) ∷ ps) = line_at p.price p i ∷ expected_lines false ps

expected_more :
    (deluxe : Bool) (p : Product) (i : BasketItem) (ps : List (Product × Option BasketItem))
    → line_of deluxe p i ∷ expected_lines deluxe ps ≡ expected_lines deluxe ((p, some i) ∷ ps)
unfolding line_of
expected_more true p i ps = refl
expected_more false p i ps = refl

abbrev pub sum_ℤ : (OrderLine → ℤ) → List OrderLine → ℤ
sum_ℤ f [] = pos 0
sum_ℤ f (l ∷ ls) = f l +ℤ sum_ℤ f ls

add_zero : (a : ℤ) → a +ℤ pos 0 ≡ a
unfolding ◌+ℤ◌
add_zero a = eq_of_parts _ _ (ground arith)

add_assoc : (a b c : ℤ) → (a +ℤ b) +ℤ c ≡ a +ℤ (b +ℤ c)
add_assoc a b c =
    let h = +ℤ_parts (a +ℤ b) c in
    let k = +ℤ_parts a b in
    let l = +ℤ_parts a (b +ℤ c) in let m = +ℤ_parts b c in eq_of_parts _ _ (omega arith)

zero_add : (a : ℤ) → pos 0 +ℤ a ≡ a
unfolding ◌+ℤ◌
zero_add a = eq_of_parts _ _ (ground arith)

append_assoc : {A : Type 0} (xs ys zs : List A) → (xs ++ ys) ++ zs ≡ xs ++ (ys ++ zs)
append_assoc [] ys zs = refl
append_assoc (x ∷ xs) ys zs = ap (λ l. x ∷ l) (append_assoc xs ys zs)

append_nil : {A : Type 0} (xs : List A) → xs ++ [] ≡ xs
append_nil [] = refl
append_nil (x ∷ xs) = ap (λ l. x ∷ l) (append_nil xs)

abbrev pub with_lines : List OrderLine → Totals → Totals
with_lines ls t = record {
  lines = t.lines ++ ls;
  price = t.price +ℤ sum_ℤ (λ (l : OrderLine). l.total) ls;
  points = t.points +ℤ sum_ℤ (λ (l : OrderLine). l.bonus) ls;
}

with_none : (t : Totals) → with_lines [] t ≡ t
with_none t = rw (append_nil t.lines, add_zero t.price, add_zero t.points) refl

with_more :
    (l : OrderLine) (ls : List OrderLine) (t : Totals)
    → with_lines ls (add_line l t) ≡ with_lines (l ∷ ls) t
with_more l ls t =
    rw
      (
        append_assoc t.lines (l ∷ []) ls,
        add_assoc t.price l.total (sum_ℤ (λ (l : OrderLine). l.total) ls),
        add_assoc t.points l.bonus (sum_ℤ (λ (l : OrderLine). l.bonus) ls),
      )
      refl

abbrev pub no_lines : Totals
no_lines = record { lines = []; price = pos 0; points = pos 0 }

sub_zero : (a : ℤ) → a -ℤ pos 0 ≡ a
unfolding ◌-ℤ◌
sub_zero a = eq_of_parts _ _ (ground arith)

-- The order has these lines, and its amounts are their sums.
abbrev pub IsPriced : List OrderLine → Order → Type 0
IsPriced ls order =
    (order.products ≡ ls)
    × (order.bonus ≡ sum_ℤ (λ (l : OrderLine). l.bonus) ls)
    × (order.total_price
        ≡ sum_ℤ (λ (l : OrderLine). l.total) ls
          -ℤ order.promotional_amount
          +ℤ pos order.delivery_price)

module _ (e : OrderServices) (r : OrderRequest) where
  order_lines-with :
      (ps : List (Product × Option BasketItem)) (t t' : Totals) (s : Store)
      → (order_lines e r ps t s).0 ≡ ok t'
      → t' ≡ with_lines (expected_lines r.deluxe ps) t
  unfolding order_lines
  order_lines-with [] t t' s h = (ground arith) ∙ sym (with_none t)
  order_lines-with ((p, none) ∷ ps) t t' s h = order_lines-with ps t t' s h
  order_lines-with ((p, some i) ∷ ps) t t' s h =
      let (u, s', q, k) =
        bind_resolved (take_stock e r i)
          (λ _. order_lines e r ps (add_line (line_of r.deluxe p i) t))
          (check_challenge "christmasSpecialChallenge" (i.product_id == e.christmas_special) s) t'
          h in
      order_lines-with ps (add_line (line_of r.deluxe p i) t) t' s' k
      ∙ with_more (line_of r.deluxe p i) (expected_lines r.deluxe ps) t
      ∙ ap (λ ls. with_lines ls t) (expected_more r.deluxe p i ps)

  order_of-IsPriced :
      (t : Totals) (n : ℕ) (d : Delivery) (ls : List OrderLine)
      → t ≡ with_lines ls no_lines
      → IsPriced ls (order_of e r t n d)
  unfolding order_of
  order_of-IsPriced t n d ls h =
      let p : t.price ≡ sum_ℤ (λ (l : OrderLine). l.total) ls =
        ap (λ (t : Totals). t.price) h ∙ zero_add _ in
      let q : t.points ≡ sum_ℤ (λ (l : OrderLine). l.bonus) ls =
        ap (λ (t : Totals). t.points) h ∙ zero_add _ in
      let l : t.lines ≡ ls = ap (λ (t : Totals). t.lines) h in
      elim (Bool-cases (n == 0)) [
        | inl z ↦ (l, q, rw (z, sub_zero) (ap (λ (x : ℤ). x +ℤ pos (delivery_amount e r d)) p))
        | inr z ↦ (
          l,
          q,
          rw z (ap (λ (x : ℤ). x -ℤ discount_amount t.price n +ℤ pos (delivery_amount e r d)) p),
        )
      ]

  -- An order that is ready for insertion has one line for each product of the basket that still has
  -- a basket item: at the product's deluxe price for a deluxe member, at its price for another. Its bonus is the sum of the lines'
  -- bonuses, and its price is the sum of their totals, less the promotional amount, plus the
  -- delivery.
  pub prepare_order-IsPriced :
      (b : Basket) (order : Order) (s : Store)
      → (prepare_order e r b s).0 ≡ ok order
      → IsPriced (expected_lines r.deluxe (e.products_of b s)) order
  unfolding prepare_order
  prepare_order-IsPriced b order s h =
      let (t, s1, q, h1) =
        bind_resolved (order_lines e r (e.products_of b s) no_lines) from_lines s order h in
      let (n, s2, q2, h2) =
        bind_resolved (calculate_applicable_discount e r b) (from_discount t) s1 order h1 in
      let (d, s3, q3, h3) = bind_resolved (delivery_method e r) (from_delivery t n) s2 order h2 in
      let (u, s4, q4, h4) =
        bind_resolved (settle e r (order_of e r t n d).total_price t.points)
          (λ _. pure (order_of e r t n d)) _ order h3 in
      let same : order_of e r t n d ≡ order = ground arith in
      subst (IsPriced (expected_lines r.deluxe (e.products_of b s))) same (
        order_of-IsPriced t n d _ (
          order_lines-with (e.products_of b s) no_lines t s
            (ap (λ (p : Outcome Totals × Store). p.0) q)))
    where
      from_delivery : Totals → ℕ → Delivery → Action Store Order
      from_delivery t n d = do
        modify (
            check_challenge "negativeOrderChallenge"
              (ltb_ℤ (order_of e r t n d).total_price (pos 0)))
        settle e r (order_of e r t n d).total_price t.points
        pure (order_of e r t n d)

      from_discount : Totals → ℕ → Action Store Order
      from_discount t n = do d ← delivery_method e r; from_delivery t n d

      from_lines : Totals → Action Store Order
      from_lines t = do n ← calculate_applicable_discount e r b; from_discount t n
