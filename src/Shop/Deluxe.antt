-- ===== src/Shop/Deluxe.antt =====
-- routes/deluxe.ts. `user_id` is the `UserId` that `appendUserId` wrote; `year` and `month` are
-- `getFullYear()` and `getMonth()` of the current date. Money is in hundredths.
pub mod Payments
pub mod Upgrades
use runc.Prelude.{
  ℕ, ◌+◌, String, Bool, false, not, ◌&&◌, ◌||◌, Option, none, some, List, [], ◌∷◌, ltb, ◌==◌, ◌===◌,
  if◌then◌else◌, map_where, concat_texts,
}
use runc.Prelude.Int.{pos, ◌-ℤ◌, ltb_ℤ}
use runc.Prelude.Http.{
  Outcome, ok, thrown, Action, pure, throw, await, catch, modify, await_write, ◌>>=◌, ◌>>◌, Reply,
  send, refuse,
}
use runc.Auth.Text.{jwt_from}
use runc.Auth.Users.{User, session, put}
use runc.Auth.Roles.{verify, is_customer, is_deluxe}
use runc.Auth.Server.{Server, Services, check_challenge, on_auth, by_id, save_user}
use runc.Shop.Tables.{Wallet, Card}

pub record State : Type 0 where
  pub server : Server
  pub wallets : List Wallet
  pub cards : List Card

pub record UpgradeRequest : Type 0 where
  pub user_id : ℕ
  pub payment_mode : Option String
  pub payment_id : Option ℕ
  pub authorization : Option String

abbrev pub on_server : {A : Type 0} → Action Server A → Action State A
on_server m s = let (r, t) = m s.server in (r, record s { server = t })

abbrev pub pays_by : String → UpgradeRequest → Bool
pays_by mode r = elim r.payment_mode [ none ↦ false | some m ↦ m === mode ]

abbrev pub owned : ℕ → Wallet → Bool
owned user w = w.user_id == user

abbrev pub lowered : ℕ → List Wallet → List Wallet
lowered user = map_where (owned user) (λ (w : Wallet). record w { balance = w.balance -ℤ pos 4900 })

-- `card.expMonth - 1 < month` without the subtraction
abbrev pub is_expired : ℕ → ℕ → Card → Bool
is_expired year month c = ltb c.exp_year year || c.exp_year == year && ltb c.exp_month (month + 1)

module _ (e : Services) where
  abbrev pub is_a_customer : ℕ → User → Bool
  is_a_customer user u = by_id user u && u.role === "customer"

  abbrev pub find_customer : ℕ → Action State (Option User)
  find_customer user = await (λ s. e.orm.find_one (is_a_customer user) s.server.users)

  abbrev pub written_wallets : State → Outcome (List Wallet) → Outcome State
  written_wallets s (ok ws) = ok (record s { wallets = ws })
  written_wallets s (thrown m) = thrown m

  abbrev pub decrement : ℕ → State → Outcome State
  decrement user s = written_wallets s (
      e.orm.update (owned user) (λ (w : Wallet). record w { balance = w.balance -ℤ pos 4900 })
        s.wallets)

  -- The error of an early return, or none.
  abbrev pub take_from_wallet : ℕ → Option Wallet → Action State (Option String)
  take_from_wallet user none = do await_write (decrement user); pure none
  take_from_wallet user (some w) =
      if ltb_ℤ w.balance (pos 4900)
      then pure (some "Insuffienct funds in Wallet")
      else (do await_write (decrement user); pure none)

  abbrev pub pay_by_wallet : ℕ → Action State (Option String)
  pay_by_wallet user = do
    w ← await (λ s. e.orm.find_one (owned user) s.wallets)
    take_from_wallet user w

  abbrev pub checked_card : ℕ → ℕ → Option Card → Option String
  checked_card year month none = some "Invalid Card"
  checked_card year month (some c) = if is_expired year month c then some "Invalid Card" else none

  -- A `where` of an undefined value is an error of the mapper.
  abbrev pub find_card : Option ℕ → ℕ → Action State (Option Card)
  find_card none user = throw "WHERE parameter \"id\" has invalid \"undefined\" value"
  find_card (some id) user =
      await (λ s. e.orm.find_one (λ (c : Card). c.id == id && c.user_id == user) s.cards)

  abbrev pub pay_by_card : ℕ → ℕ → Option ℕ → ℕ → Action State (Option String)
  pay_by_card year month id user = do c ← find_card id user; pure (checked_card year month c)

  unfoldable pub take_payment : ℕ → ℕ → UpgradeRequest → Action State (Option String)
  take_payment year month r =
      if pays_by "wallet" r
      then pay_by_wallet r.user_id
      else if pays_by "card" r
      then pay_by_card year month r.payment_id r.user_id
      else pure none

  abbrev pub upgraded : User → User
  upgraded u = record u { role = "deluxe"; deluxe_token = e.crypto.deluxe_token u.email }

  abbrev pub is_free : UpgradeRequest → Bool
  is_free r =
      verify e.crypto (jwt_from r.authorization)
      && (not (pays_by "wallet" r) && not (pays_by "card" r))

  -- The inner `try`: the token of the new session.
  unfoldable pub promote : UpgradeRequest → User → Action Server (Reply String)
  unfolding put verify
  promote r u =
      catch
        (do
          save_user e (upgraded u)
          modify (check_challenge "freeDeluxeChallenge" (is_free r))
          let p = session (record { user = upgraded u; bid = none })
          on_auth (put (e.crypto.authorize p) p)
          pure (send 200 (e.crypto.authorize p)))
        (λ x. pure (refuse 400 "Something went wrong. Please try again!"))

  abbrev pub upgrade_paid : UpgradeRequest → User → Option String → Action State (Reply String)
  upgrade_paid r u (some why) = pure (refuse 400 why)
  upgrade_paid r u none = on_server (promote r u)

  abbrev pub upgrade_found : ℕ → ℕ → UpgradeRequest → Option User → Action State (Reply String)
  upgrade_found year month r none = pure (refuse 400 "Something went wrong. Please try again!")
  upgrade_found year month r (some u) = take_payment year month r >>= upgrade_paid r u

  unfoldable pub upgrade_to_deluxe : ℕ → ℕ → UpgradeRequest → Action State (Reply String)
  unfolding take_payment promote
  upgrade_to_deluxe year month r =
      catch (find_customer r.user_id >>= upgrade_found year month r)
        (λ x. pure (refuse 400 (concat_texts ("Something went wrong: " ∷ x ∷ []))))

  -- The cost of the membership, in hundredths.
  unfoldable pub deluxe_membership_status : Option String → Reply ℕ
  unfolding is_customer is_deluxe
  deluxe_membership_status authorization =
      if is_customer e.crypto authorization
      then send 200 4900
      else if is_deluxe e.crypto authorization
      then refuse 400 "You are already a deluxe member!"
      else refuse 400 "You are not eligible for deluxe membership!"
