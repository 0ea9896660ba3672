-- ===== src/Shop/Owned/Isolation.antt =====
-- routes/payment.ts and routes/address.ts: users are kept apart.
use runc.Prelude.{
  ℕ, String, ◌≡◌, refl, ◌∙◌, ◌⊎◌, inl, inr, Bool, true, false, not, ◌&&◌, Option, none, some, List,
  [], ◌∷◌, map, arith, ◌==◌, Bool-cases, filter, any, count, All,
}
use runc.Prelude.Http.{Outcome, ok, thrown, pure, ◌>>=◌, Reply, send, refuse}
use mathlib.Core.List.{Memᴰ}
use runc.Database.{Orm}
use runc.Shop.Tables.{Card, Address, Store}
use runc.Shop.Owned.{
  masked, get_payment_methods, get_payment_method_by_id, del_payment_method_by_id,
  del_address_by_id, deleted, destroyed,
}

-- Removing rows that fail the test `q` leaves those that pass it, in their order.
filter-filter :
    {Row : Type 0} (p q : Row → Bool) (t : List Row)
    → ((r : Row) → q r ≡ true → p r ≡ false)
    → filter q (filter (λ r. not (p r)) t) ≡ filter q t
filter-filter p q [] h = refl
filter-filter p q (x ∷ xs) h = elim (Bool-cases (q x)) [
  | inl k ↦ let l = h x k in ground (arith, filter-filter p q xs h)
  | inr k ↦ ground (arith, filter-filter p q xs h)
]

-- What the number of removed rows says of the table.
module _ {Row : Type 0} (p : Row → Bool) where
  any-filter-not : (t : List Row) → any p (filter (λ r. not (p r)) t) ≡ false
  any-filter-not [] = refl
  any-filter-not (x ∷ xs) = elim (Bool-cases (p x)) [
    | inl h ↦ rw h (any-filter-not xs)
    | inr h ↦ ground (arith, any-filter-not xs)
  ]

  none_counted :
      (t : List Row) → count p t ≡ 0 → (any p t ≡ false) × (filter (λ r. not (p r)) t ≡ t)
  none_counted [] e = (refl, refl)
  none_counted (x ∷ xs) e = elim (Bool-cases (p x)) [
    | inl h ↦ ground arith
    | inr h ↦ let (a, b) = none_counted xs (ground arith) in (ground arith, ground arith)
  ]

  some_counted : (t : List Row) → (count p t == 0) ≡ false → any p t ≡ true
  some_counted [] e = ground arith
  some_counted (x ∷ xs) e = ground (arith, some_counted xs)

-- A deletion of the rows that are the user's `own`: what the handler answers and what is left.
abbrev pub IsDeletion :
    {Row : Type 0}
    → (Row → Bool)
    → (Row → Bool)
    → String
    → List Row
    → Outcome (Reply String)
    → List Row
    → Type 0
IsDeletion own others message before r after =
    (filter others after ≡ filter others before)
    × (((e : String) × (r ≡ thrown e) × (after ≡ before))
        ⊎ (((r ≡ ok (send 200 message)) × (any own before ≡ true) × (any own after ≡ false))
            ⊎ ((r ≡ ok (refuse 400 "Malicious activity detected."))
                × (any own before ≡ false)
                × (after ≡ before))))

counted-IsDeletion :
    {Row : Type 0} (own others : Row → Bool)
    → ((r : Row) → others r ≡ true → own r ≡ false)
    → (message : String) (t rows : List Row) (n : ℕ) → n ≡ count own t
    → rows ≡ filter (λ r. not (own r)) t
    → IsDeletion own others message t (ok (deleted message n)) rows
counted-IsDeletion own others disjoint message t rows n a b =
    let kept : filter others rows ≡ filter others t = rw b (filter-filter own others t disjoint) in
    elim (Bool-cases (n == 0)) [
      | inl h ↦
          let (f, g) = none_counted own t (ground arith) in (kept, inr (inr (rw h refl, f, b ∙ g)))
      | inr h ↦
          let f = some_counted own t (ground arith) in
          (kept, inr (inl (rw h refl, f, rw b (any-filter-not own t))))
    ]

masked_of :
    (user : ℕ) (t : List Card)
    → All (λ (c : Card). c.user_id ≡ user) (map masked (filter (λ (c : Card). c.user_id == user) t))
masked_of user [] = tt
masked_of user (c ∷ cs) = elim (Bool-cases (c.user_id == user)) [
  | inl h ↦ rw h (ground arith, masked_of user cs)
  | inr h ↦ rw h (masked_of user cs)
]

module _ (o : Orm) (user : ℕ) where
  -- The listed payment methods are the user's own cards, each with its number masked, whatever
  -- rows the table holds.
  pub get_payment_methods-own :
      (s : Store) (cs : List Card)
      → (get_payment_methods o user s).0 ≡ ok (send 200 cs)
      → All (λ (c : Card). c.user_id ≡ user) cs
        × (cs ≡ map masked (filter (λ (c : Card). c.user_id == user) s.cards))
  unfolding get_payment_methods
  get_payment_methods-own s cs e =
      by_rows (o.find_all (λ (c : Card). c.user_id == user) s.cards) refl
    where
      by_rows :
          (r : Outcome (List Card))
          → o.find_all (λ (c : Card). c.user_id == user) s.cards ≡ r
          → All (λ (c : Card). c.user_id ≡ user) cs
            × (cs ≡ map masked (filter (λ (c : Card). c.user_id == user) s.cards))
      by_rows (thrown m) q = ground arith
      by_rows (ok rows) q =
          let l = o.find_all_lem _ _ _ q in
          let k : cs ≡ map masked (filter (λ (c : Card). c.user_id == user) s.cards) =
            ground arith in
          (rw k (masked_of user s.cards), k)

  -- A payment method that is shown by its id is a masked card of the requesting user.
  pub get_payment_method_by_id-own :
      (id : ℕ) (s : Store) (c : Card)
      → (get_payment_method_by_id o id user s).0 ≡ ok (send 200 c)
      → (d : Card) × Memᴰ d s.cards × (d.user_id ≡ user) × (c ≡ masked d)
  unfolding get_payment_method_by_id
  get_payment_method_by_id-own id s c e =
      by_row (o.find_one (λ (c : Card). c.id == id && c.user_id == user) s.cards) refl
    where
      by_row :
          (r : Outcome (Option Card))
          → o.find_one (λ (c : Card). c.id == id && c.user_id == user) s.cards ≡ r
          → (d : Card) × Memᴰ d s.cards × (d.user_id ≡ user) × (c ≡ masked d)
      by_row (thrown m) q = ground arith
      by_row (ok none) q = ground arith
      by_row (ok (some d)) q =
          let (p, m) = o.find_one_some _ _ _ q in (d, m, ground arith, ground arith)

  -- Deleting a payment method by its id either rejects and changes nothing, or answers 200 after
  -- the user's own card with this id was there and is gone, or answers 400 and leaves the cards as
  -- they are, since the user has no such card. The cards of the others stay in each case.
  pub del_payment_method_by_id-own :
      (id : ℕ) (s : Store)
      → let (r, t) = del_payment_method_by_id o id user s in
        IsDeletion
          (λ (c : Card). c.id == id && c.user_id == user)
          (λ (c : Card). not (c.user_id == user))
          "Card deleted successfully."
          s.cards
          r
          t.cards
  unfolding del_payment_method_by_id
  del_payment_method_by_id-own id s = by_rows (o.destroy own s.cards) refl
    where
      own : Card → Bool
      own c = c.id == id && c.user_id == user

      answer : Outcome (ℕ × List Card) → Outcome (Reply String) × Store
      answer x =
          ((λ s. destroyed x (λ cards. record s { cards = cards }) s) >>= λ n.
          pure (deleted "Card deleted successfully." n))
            s

      by_rows :
          (x : Outcome (ℕ × List Card))
          → o.destroy own s.cards ≡ x
          → let (r, t) = answer x in
            IsDeletion own
              (λ (c : Card). not (c.user_id == user))
              "Card deleted successfully."
              s.cards
              r
              t.cards
      by_rows (thrown m) q = (refl, inl (m, refl, refl))
      by_rows (ok (n, rows)) q =
          let (a, b) = o.destroy_lem own s.cards rows n q in
          counted-IsDeletion own (λ (c : Card). not (c.user_id == user)) (λ c e. ground arith)
            "Card deleted successfully." s.cards rows n a b

  -- The same of addresses: the user's own address with this id is gone after 200, was not there
  -- if the answer is 400, and the addresses of the others stay.
  pub del_address_by_id-own :
      (id : ℕ) (s : Store)
      → let (r, t) = del_address_by_id o id user s in
        IsDeletion
          (λ (a : Address). a.id == id && a.user_id == user)
          (λ (a : Address). not (a.user_id == user))
          "Address deleted successfully."
          s.addresses
          r
          t.addresses
  unfolding del_address_by_id
  del_address_by_id-own id s = by_rows (o.destroy own s.addresses) refl
    where
      own : Address → Bool
      own a = a.id == id && a.user_id == user

      answer : Outcome (ℕ × List Address) → Outcome (Reply String) × Store
      answer x =
          ((λ s. destroyed x (λ addresses. record s { addresses = addresses }) s) >>= λ n.
          pure (deleted "Address deleted successfully." n))
            s

      by_rows :
          (x : Outcome (ℕ × List Address))
          → o.destroy own s.addresses ≡ x
          → let (r, t) = answer x in
            IsDeletion own
              (λ (a : Address). not (a.user_id == user))
              "Address deleted successfully."
              s.addresses
              r
              t.addresses
      by_rows (thrown m) q = (refl, inl (m, refl, refl))
      by_rows (ok (n, rows)) q =
          let (a, b) = o.destroy_lem own s.addresses rows n q in
          counted-IsDeletion own (λ (a : Address). not (a.user_id == user)) (λ a e. ground arith)
            "Address deleted successfully." s.addresses rows n a b
