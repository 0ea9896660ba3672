-- ===== src/Shop/Wallet.antt =====
-- routes/wallet.ts. `user` is the `UserId` that `appendUserId` wrote.
pub mod Charges
use runc.Prelude.{ℕ, ◌≡◌, not, Option, none, some, List, ◌==◌, if◌then◌else◌, map_where}
use runc.Prelude.Int.{ℤ, ◌+ℤ◌}
use runc.Prelude.Http.{Action, pure, catch, ◌>>=◌, ◌>>◌, Reply, send, refuse}
use mathlib.Core.List.{Memᴰ}
use runc.Database.{Orm}
use runc.Shop.Tables.{Wallet, Card, Store, find_wallet, add_to_wallet, find_card}

module _ (o : Orm) where
  abbrev balance_reply : Option Wallet → Reply ℤ
  balance_reply none = refuse 404 "error"
  balance_reply (some w) = send 200 w.balance

  unfoldable pub get_wallet_balance : ℕ → Action Store (Reply ℤ)
  get_wallet_balance user = do w ← find_wallet o user; pure (balance_reply w)

  -- `cardId ? await CardModel.findOne(…) : null`
  unfoldable pub payment_card : Option ℕ → ℕ → Action Store (Option Card)
  payment_card none user = pure none
  payment_card (some id) user = if id == 0 then pure none else find_card o id user

  unfoldable pub charged : ℕ → ℤ → Option Card → Action Store (Reply ℤ)
  charged user amount none = pure (refuse 402 "Payment not accepted.")
  charged user amount (some c) =
      catch (do add_to_wallet o user amount; pure (send 200 amount))
        (λ _. pure (refuse 404 "error"))

  unfoldable pub add_wallet_balance : ℕ → Option ℕ → ℤ → Action Store (Reply ℤ)
  unfolding payment_card charged
  add_wallet_balance user payment_id amount = do
    c ← payment_card payment_id user
    charged user amount c

-- A card of the user with this id is in the table.
abbrev pub HasCard : ℕ → Option ℕ → Store → Type 0
HasCard user payment_id s =
    (c : Card) × Memᴰ c s.cards × (c.user_id ≡ user) × (payment_id ≡ some c.id)

-- The table after the user's balance is raised by the amount.
abbrev pub raised : ℕ → ℤ → List Wallet → List Wallet
raised user amount =
    map_where (λ (w : Wallet). w.user_id == user)
      (λ (w : Wallet). record w { balance = w.balance +ℤ amount })
