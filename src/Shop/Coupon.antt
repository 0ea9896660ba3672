-- ===== src/Shop/Coupon.antt =====
-- The discount of an order: `discountFromCoupon` of lib/insecurity.ts, and routes/coupon.ts and the
-- campaigns of routes/order.ts, which use it. The package z85 is a parameter, and so is the month
-- that `toMMMYY` prints. Times are in milliseconds.
pub mod Stored
use runc.Prelude.{
  ℕ, ◌+◌, ◌-◌, ◌*◌, String, Bool, false, not, ◌&&◌, ◌||◌, Option, none, some, List, [], ◌∷◌, leb,
  ◌==◌, ◌===◌, if◌then◌else◌, get_elem?, any,
}
use runc.Prelude.Http.{
  Action, pure, await, catch, await_write, ◌>>=◌, ◌>>◌, Reply, send, refuse, next_error,
}
use Prim.Native.Char.{Char, code}
use runc.Database.{Orm}
use runc.Shop.Tables.{Basket, Store, written}

pub record Coupons : Type 0 where
  -- `z85.decode`, none for null
  pub decode : String → Option String
  -- `toMMMYY(new Date())`
  pub month : String
  -- `new Date().getTime()`
  pub now : ℕ

abbrev is_digit : ℕ → Bool
is_digit c = leb b'0' c && leb c b'9'

-- `-[0-9]{2}` and `[0-9]{2}-[0-9]{2}` at the start of a text
two_digits : String → Option String
two_digits (String.◌∷◌ c (String.◌∷◌ d s)) =
    if is_digit (code c) && is_digit (code d) then some s else none
two_digits (String.◌∷◌ c String.[]) = none
two_digits String.[] = none

digits_at : Option String → Bool
unfolding two_digits
digits_at (some (String.◌∷◌ c s)) = elim (two_digits s) [
  | none ↦ false
  | some rest ↦ code c == b'-'
]
digits_at (some String.[]) = false
digits_at none = false

months : List String
months =
    "JAN" ∷ "FEB" ∷ "MAR" ∷ "APR" ∷ "MAY" ∷ "JUN" ∷ "JUL" ∷ "AUG" ∷ "SEP" ∷ "OCT" ∷ "NOV" ∷ "DEC"
    ∷ []

after_prefix : String → String → Option String
after_prefix String.[] s = some s
after_prefix (String.◌∷◌ c p) String.[] = none
after_prefix (String.◌∷◌ c p) (String.◌∷◌ d s) =
    let rest = after_prefix p s in if code c == code d then rest else none

unfoldable pub matches_at : String → Bool
unfolding months after_prefix digits_at two_digits
matches_at s =
    any (λ m. digits_at (elim (after_prefix m s) [ none ↦ none | some rest ↦ two_digits rest ]))
      months

-- The expression is not anchored: it may match anywhere.
unfoldable pub has_valid_format : String → Bool
unfolding matches_at
has_valid_format String.[] = false
has_valid_format (String.◌∷◌ c s) =
    let rest = has_valid_format s in matches_at (String.◌∷◌ c s) || rest

cons_first : Char → List String → List String
cons_first c [] = String.◌∷◌ c String.[] ∷ []
cons_first c (w ∷ ws) = String.◌∷◌ c w ∷ ws

-- `s.split('-')`
unfoldable pub split_dash : String → List String
unfolding cons_first
split_dash String.[] = String.[] ∷ []
split_dash (String.◌∷◌ c s) =
    let rest = split_dash s in if code c == b'-' then String.[] ∷ rest else cons_first c rest

-- `parseInt` of a text that has no sign: the leading digits, none for NaN
digits_from : Option ℕ → String → Option ℕ
digits_from n String.[] = n
digits_from none (String.◌∷◌ c s) =
    let rest = digits_from (some (code c - b'0')) s in if is_digit (code c) then rest else none
digits_from (some n) (String.◌∷◌ c s) =
    let rest = digits_from (some (n * 10 + (code c - b'0'))) s in
    if is_digit (code c) then rest else some n

unfoldable pub parse_int : String → Option ℕ
unfolding digits_from
parse_int s = digits_from none s

abbrev pub part : ℕ → List String → String
part i parts = elim (get_elem? parts i) [ none ↦ "" | some p ↦ p ]

module _ (k : Coupons) where
  unfoldable pub discount_from_text : String → Option ℕ
  discount_from_text decoded =
      if not (decoded === "") && has_valid_format decoded && k.month === part 0 (split_dash decoded)
      then parse_int (part 1 (split_dash decoded))
      else none

  unfoldable pub discount_from_coupon : Option String → Option ℕ
  discount_from_coupon none = none
  discount_from_coupon (some coupon) =
      if coupon === ""
      then none
      else elim (k.decode coupon) [ none ↦ none | some decoded ↦ discount_from_text decoded ]

  -- `undefined`, NaN and 0 are falsy.
  abbrev pub truthy : Option ℕ → Option ℕ
  truthy none = none
  truthy (some n) = if n == 0 then none else some n

  module _ (o : Orm) where
    abbrev pub coupon_reply : Option ℕ → Reply ℕ
    coupon_reply none = refuse 404 "Invalid coupon."
    coupon_reply (some discount) = send 200 discount

    -- `(discount ? coupon : null)?.toString()`, none for undefined
    abbrev pub stored_coupon : Option String → Option ℕ → Option String
    stored_coupon coupon none = none
    stored_coupon coupon (some discount) = coupon

    -- The column `coupon` of the rows with an id; `none` is null.
    abbrev pub set_coupon : ℕ → Option String → Action Store (Unit {0})
    set_coupon id coupon = await_write (λ s.
        written
          (o.update (λ (b : Basket). b.id == id) (λ b. record b { coupon = coupon }) s.baskets)
          (λ bs. record s { baskets = bs }))

    -- `basket.update({ coupon })`: sequelize ignores a value that is undefined, so nothing is written
    -- then.
    abbrev pub update_coupon : ℕ → Option String → Action Store (Unit {0})
    update_coupon id none = pure tt
    update_coupon id (some coupon) = set_coupon id (some coupon)

    abbrev pub couponed : ℕ → Option String → Option Basket → Action Store (Reply ℕ)
    couponed id coupon none = pure (next_error "Basket does not exist.")
    couponed id coupon (some basket) = do
      update_coupon id (stored_coupon coupon (truthy (discount_from_coupon coupon)))
      pure (coupon_reply (truthy (discount_from_coupon coupon)))

    unfoldable pub apply_coupon : ℕ → Option String → Action Store (Reply ℕ)
    apply_coupon id coupon =
        catch
          (do
            basket ← await (λ s. o.find_one (λ (b : Basket). b.id == id) s.baskets)
            couponed id coupon basket)
          (λ e. pure (next_error e))

pub record Campaign : Type 0 where
  pub name : String
  pub valid_on : ℕ
  pub discount : ℕ

abbrev pub campaigns : List Campaign
campaigns =
    record { name = "WMNSDY2019"; valid_on = 1551999600000; discount = 75 }
    ∷ record { name = "WMNSDY2020"; valid_on = 1583622000000; discount = 60 }
    ∷ record { name = "WMNSDY2021"; valid_on = 1615158000000; discount = 60 }
    ∷ record { name = "WMNSDY2022"; valid_on = 1646694000000; discount = 60 }
    ∷ record { name = "WMNSDY2023"; valid_on = 1678230000000; discount = 60 }
    ∷ record { name = "ORANGE2020"; valid_on = 1588546800000; discount = 50 }
    ∷ record { name = "ORANGE2021"; valid_on = 1620082800000; discount = 40 }
    ∷ record { name = "ORANGE2022"; valid_on = 1651618800000; discount = 40 }
    ∷ record { name = "ORANGE2023"; valid_on = 1683154800000; discount = 40 }
    ∷ []
