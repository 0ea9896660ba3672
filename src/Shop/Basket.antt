-- ===== src/Shop/Basket.antt =====
-- routes/basketItems.ts. `bid` is the `bid` of `authenticatedUsers.from(req)`, none without a
-- session; the values of a request's body are numbers.
use runc.Prelude.{
  ℕ, zero, suc, String, Bool, false, not, ◌&&◌, ◌||◌, Option, none, some, List, [], ◌∷◌, map, ◌==◌,
  ◌===◌, if◌then◌else◌, filter,
}
use runc.Prelude.Int.{ℤ, pos, negsuc, ltb_ℤ, leb_ℤ}
use runc.Prelude.Http.{
  Action, pure, throw, await, catch, modify, ◌>>=◌, ◌>>◌, Reply, send, refuse, next, next_error,
  unanswered,
}
use runc.Database.{Orm}
use runc.Shop.Tables.{BasketItem, Quantity, Store, check_challenge}
pub mod Stock
pub mod Additions

-- A key and its value in the raw body, as `parseJsonCustom` lists them: none for 'undefined'.
abbrev pub Entries : Type 0
Entries = List (String × Option ℕ)

abbrev pub values_of : String → Entries → List (Option ℕ)
values_of key es = map (λ (p : String × Option ℕ). p.1) (filter (λ p. p.0 === key) es)

abbrev pub first_of : List (Option ℕ) → Option ℕ
first_of [] = none
first_of (v ∷ vs) = v

abbrev pub last_of : List (Option ℕ) → Option ℕ
last_of [] = none
last_of (v ∷ []) = v
last_of (v ∷ w ∷ vs) = last_of (w ∷ vs)

-- The row that is built for the new item.
pub record NewItem : Type 0 where
  pub product_id : Option ℕ
  pub basket_id : Option ℕ
  pub quantity : Option ℕ

abbrev pub new_item : Entries → NewItem
new_item es = record {
  product_id = last_of (values_of "ProductId" es);
  basket_id = last_of (values_of "BasketId" es);
  quantity = last_of (values_of "quantity" es);
}

-- `user && id && user.bid != id`, where 0 and an absent id are falsy
abbrev pub is_foreign : Option (Option ℕ) → Option ℕ → Bool
is_foreign none id = false
is_foreign (some bid) none = false
is_foreign (some none) (some id) = not (id == 0)
is_foreign (some (some b)) (some id) = not (id == 0) && not (b == id)

-- `basketItemInstance.save()` is a parameter: it validates the row and stores it.
module _ (save : NewItem → Action Store BasketItem) where
  unfoldable pub add_basket_item : Option (Option ℕ) → Entries → Action Store (Reply BasketItem)
  add_basket_item bid es =
      if is_foreign bid (first_of (values_of "BasketId" es))
      then pure (refuse 401 "{'error' : 'Invalid BasketId'}")
      else (do
        modify
            (check_challenge "basketManipulateChallenge" (is_foreign bid (new_item es).basket_id))
        catch (do item ← save (new_item es); pure (send 200 item)) (λ e. pure (next_error e)))

abbrev pub is_limited : Option ℤ → ℤ → Bool
is_limited none quantity = false
is_limited (some (pos zero)) quantity = false
is_limited (some (pos (suc n))) quantity = ltb_ℤ (pos (suc n)) quantity
is_limited (some (negsuc n)) quantity = ltb_ℤ (negsuc n) quantity

abbrev pub checked : Bool → ℤ → Quantity → Reply (Unit {0})
checked deluxe quantity q =
    if not (is_limited q.limit_per_user quantity) || deluxe
    then (if leb_ℤ quantity q.quantity
        then next
        else refuse 400 "We are out of stock! Sorry for the inconvenience.")
    else refuse 400 "You can order only up to {{quantity}} items of this product."

module _ (o : Orm) where
  abbrev checked_product : Bool → ℤ → Option Quantity → Action Store (Reply (Unit {0}))
  checked_product deluxe quantity none = throw "No such product found!"
  checked_product deluxe quantity (some q) = pure (checked deluxe quantity q)

  unfoldable pub quantity_check : Bool → ℕ → ℤ → Action Store (Reply (Unit {0}))
  quantity_check deluxe id quantity = do
    product ← await (λ s. o.find_one (λ (q : Quantity). q.product_id == id) s.quantities)
    checked_product deluxe quantity product

  unfoldable pub quantity_check_before_addition : Bool → ℕ → ℤ → Action Store (Reply (Unit {0}))
  quantity_check_before_addition deluxe id quantity =
      catch (quantity_check deluxe id quantity) (λ e. pure (next_error e))

  -- `void quantityCheck(…)` is not awaited here: nothing answers if it rejects.
  abbrev update_checked : Bool → Option ℤ → Option BasketItem → Action Store (Reply (Unit {0}))
  update_checked deluxe none item = pure next
  update_checked deluxe (some quantity) none = throw "No such item found!"
  update_checked deluxe (some quantity) (some item) =
      catch (quantity_check deluxe item.product_id quantity) (λ e. pure unanswered)

  -- `quantity` is none where `req.body.quantity` is falsy.
  unfoldable pub quantity_check_before_update :
      Option (Option ℕ) → Bool → ℕ → Option ℕ → Option ℤ → Action Store (Reply (Unit {0}))
  quantity_check_before_update bid deluxe id basket_id quantity =
      catch
        (do
          item ← await (λ s. o.find_one (λ (i : BasketItem). i.id == id) s.items)
          modify (check_challenge "basketManipulateChallenge" (is_foreign bid basket_id))
          update_checked deluxe quantity item)
        (λ e. pure (next_error e))
