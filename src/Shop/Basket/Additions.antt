-- ===== src/Shop/Basket/Additions.antt =====
-- routes/basketItems.ts: whose basket an item is added to.
use runc.Prelude.{ℕ, ◌≡◌, refl, ◌≢◌, true, false, some, arith}
use runc.Prelude.Http.{ok, Action, pure, catch, ◌>>=◌, send, refuse, next_error}
use runc.Shop.Tables.{BasketItem, Store, check_challenge}
use runc.Shop.Basket.{
  Entries, values_of, first_of, last_of, new_item, is_foreign, NewItem, add_basket_item,
}

foreign-ne : (b id : ℕ) → id ≢ 0 → id ≢ b → is_foreign (some (some b)) (some id) ≡ true
foreign-ne b id n m = ground arith

foreign_self : (b : ℕ) → is_foreign (some (some b)) (some b) ≡ false
foreign_self b = ground arith

-- The guard reads the first basket of the body. If that one is neither 0 nor the basket of the
-- session, then the request is refused and the state stays, whatever follows in the body.
pub add_basket_item-refused :
    (save : NewItem → Action Store BasketItem) (b id : ℕ) (es : Entries) (s : Store)
    → first_of (values_of "BasketId" es) ≡ some id
    → id ≢ 0
    → id ≢ b
    → add_basket_item save (some (some b)) es s
      ≡ (ok (refuse 401 "{'error' : 'Invalid BasketId'}"), s)
unfolding add_basket_item
add_basket_item-refused save b id es s e n m =
    let f : is_foreign (some (some b)) (first_of (values_of "BasketId" es)) ≡ true =
      rw e (foreign-ne b id n m) in
    rw f refl

-- What is stored is the last basket of the body: a request that names the session's basket first
-- and another one last adds its item to the other one, and the manipulation challenge is judged
-- true.
pub add_basket_item-last :
    (save : NewItem → Action Store BasketItem) (b id : ℕ) (es : Entries) (s : Store)
    → first_of (values_of "BasketId" es) ≡ some b
    → last_of (values_of "BasketId" es) ≡ some id
    → id ≢ 0
    → id ≢ b
    → ((new_item es).basket_id ≡ some id)
      × (add_basket_item save (some (some b)) es s
          ≡ catch
              (do item ← save (new_item es); pure (send 200 item))
              (λ m. pure (next_error m))
              (check_challenge "basketManipulateChallenge" true s))
unfolding add_basket_item
add_basket_item-last save b id es s e l n m =
    let f : is_foreign (some (some b)) (first_of (values_of "BasketId" es)) ≡ false =
      rw e (foreign_self b) in
    let g : is_foreign (some (some b)) (new_item es).basket_id ≡ true =
      rw l (foreign-ne b id n m) in
    (l, rw (f, g) refl)
