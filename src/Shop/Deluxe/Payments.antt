-- ===== src/Shop/Deluxe/Payments.antt =====
-- routes/deluxe.ts: what was paid when the membership may be given.
use runc.Prelude.{
  ℕ, String, ◌≡◌, refl, sym, ap, ◌∙◌, ◌⊎◌, inl, inr, true, false, ◌&&◌, Option, none, some, List,
  arith, ◌==◌, ◌===◌, ===_iff, Bool-cases, any,
}
use runc.Prelude.Int.{pos, ◌-ℤ◌, ◌≤ℤ◌, ltb_ℤ}
use runc.Prelude.Http.{
  Outcome, ok, thrown, pure, await, await_write, ◌>>◌, Keeps, bind-Keeps, await_write-Keeps,
  await_write_ok, bind_returned,
}
use mathlib.Core.Path.{subst}
use mathlib.Core.List.{Memᴰ}
use runc.Auth.Server.{Server, Services}
use runc.Shop.Tables.{Wallet, Card}
use runc.Shop.Deluxe.{
  State, UpgradeRequest, pays_by, owned, lowered, is_expired, decrement, take_from_wallet,
  pay_by_wallet, checked_card, find_card, pay_by_card, take_payment,
}

module _ (e : Services) (year month : ℕ) (r : UpgradeRequest) where
  -- A card of the user, with the request's id, that has not expired.
  abbrev pub HasCard : State → Type 0
  HasCard s =
      (c : Card) × Memᴰ c s.cards
      × (c.user_id ≡ r.user_id)
      × (r.payment_id ≡ some c.id)
      × (is_expired year month c ≡ false)

  -- A wallet of the user holds the price, or the user has none.
  abbrev pub CanPay : State → Type 0
  CanPay s =
      (any (owned r.user_id) s.wallets ≡ false)
      ⊎ ((w : Wallet) × Memᴰ w s.wallets × (w.user_id ≡ r.user_id) × (pos 4900 ≤ℤ w.balance))

  -- What was paid on the way from one state to another.
  abbrev pub IsPaid : State → State → Type 0
  IsPaid s t =
      (pays_by "wallet" r ≡ true → CanPay s × (t.wallets ≡ lowered r.user_id s.wallets))
      × (pays_by "card" r ≡ true → HasCard s)

  decrement-wallets :
      (s t : State)
      → decrement e r.user_id s ≡ ok t
      → (t.server ≡ s.server) × (t.wallets ≡ lowered r.user_id s.wallets)
  decrement-wallets s t h =
      by_update
        (e.orm.update (owned r.user_id)
          (λ (w : Wallet). record w { balance = w.balance -ℤ pos 4900 }) s.wallets)
        refl
    where
      by_update :
          (u : Outcome (List Wallet))
          → e.orm.update
              (owned r.user_id)
              (λ (w : Wallet). record w { balance = w.balance -ℤ pos 4900 })
              s.wallets
            ≡ u
          → (t.server ≡ s.server) × (t.wallets ≡ lowered r.user_id s.wallets)
      by_update (thrown m) k = ground arith
      by_update (ok ws) k =
          let l = e.orm.update_lem _ _ _ _ k in
          let w : record s { wallets = ws } ≡ t = ground arith in
          (ap (λ (z : State). z.server) (sym w), sym (ap (λ (z : State). z.wallets) w) ∙ l)

  pay_by_card-HasCard :
      (s t : State)
      → pay_by_card e year month r.payment_id r.user_id s ≡ (ok none, t)
      → (t.server ≡ s.server) × HasCard s
  pay_by_card-HasCard s t h =
      let (c, s', m, k) =
        bind_returned (find_card e r.payment_id r.user_id) (λ c. pure (checked_card e year month c))
          s none t h in
      let same : s' ≡ t = ap (λ (p : Outcome (Option String) × State). p.1) k in
      let valid : checked_card e year month c ≡ none = ground arith in
      by_id r.payment_id refl c valid
        (subst (λ z. find_card e r.payment_id r.user_id s ≡ (ok c, z)) same m)
    where
      by_id :
          (id : Option ℕ)
          → r.payment_id ≡ id
          → (c : Option Card) → checked_card e year month c ≡ none
          → find_card e id r.user_id s ≡ (ok c, t)
          → (t.server ≡ s.server) × HasCard s
      by_id none i c v m = ground arith
      by_id (some id) i none v m = ground arith
      by_id (some id) i (some c) v m =
          let found : e.orm.find_one (λ (c : Card). c.id == id && c.user_id == r.user_id) s.cards
              ≡ ok (some c) =
            ap (λ (p : Outcome (Option Card) × State). p.0) m in
          let same : s ≡ t = ap (λ (p : Outcome (Option Card) × State). p.1) m in
          let (p, i_mem) = e.orm.find_one_some _ _ _ found in
          let fresh : is_expired year month c ≡ false = ground arith in
          let own : c.user_id ≡ r.user_id = ground arith in
          let its : id ≡ c.id = ground arith in
          (ap (λ (z : State). z.server) (sym same), (c, i_mem, own, i ∙ ap some its, fresh))

  decremented :
      (s t : State)
      → ◌>>◌ {B = Option String} (await_write (decrement e r.user_id)) (pure none) s ≡ (ok none, t)
      → (t.server ≡ s.server) × (t.wallets ≡ lowered r.user_id s.wallets)
  decremented s t h =
      let (u, s', m, k) =
        bind_returned (await_write (decrement e r.user_id)) (λ _. pure none) s none t h in
      let same : s' ≡ t = ap (λ (p : Outcome (Option String) × State). p.1) k in
      decrement-wallets s t (
        subst (λ z. decrement e r.user_id s ≡ ok z) same
          (await_write_ok (decrement e r.user_id) s u s' m))

  pay_by_wallet-CanPay :
      (s t : State)
      → pay_by_wallet e r.user_id s ≡ (ok none, t)
      → (t.server ≡ s.server) × CanPay s × (t.wallets ≡ lowered r.user_id s.wallets)
  pay_by_wallet-CanPay s t h =
      let (w, s', m, k) =
        bind_returned (await (λ (s : State). e.orm.find_one (owned r.user_id) s.wallets))
          (take_from_wallet e r.user_id) s none t h in
      let same : s' ≡ s = sym (ap (λ (p : Outcome (Option Wallet) × State). p.1) m) in
      by_wallet w (ap (λ (p : Outcome (Option Wallet) × State). p.0) m)
        (subst (λ z. take_from_wallet e r.user_id w z ≡ (ok none, t)) same k)
    where
      by_wallet :
          (w : Option Wallet)
          → e.orm.find_one (owned r.user_id) s.wallets ≡ ok w
          → take_from_wallet e r.user_id w s ≡ (ok none, t)
          → (t.server ≡ s.server) × CanPay s × (t.wallets ≡ lowered r.user_id s.wallets)
      by_wallet none f k = let (a, b) = decremented s t k in (a, inl (e.orm.find_one_none _ _ f), b)
      by_wallet (some w) f k = elim (Bool-cases (ltb_ℤ w.balance (pos 4900))) [
        | inl low ↦ let g = rw low at k in ground arith
        | inr enough ↦
            let g : ◌>>◌ {B = Option String} (await_write (decrement e r.user_id)) (pure none) s
                ≡ (ok none, t) =
              rw enough at k in
            let (a, b) = decremented s t g in
            let (p, i) = e.orm.find_one_some _ _ _ f in
            (a, inr (w, i, ground arith, ground arith), b)
      ]

  pub take_payment-IsPaid :
      (s t : State)
      → take_payment e year month r s ≡ (ok none, t)
      → (t.server ≡ s.server) × IsPaid s t
  unfolding take_payment
  take_payment-IsPaid s t h = elim (Bool-cases (pays_by "wallet" r)) [
    | inl w ↦
        let g : pay_by_wallet e r.user_id s ≡ (ok none, t) = rw w at h in
        let (a, b, c) = pay_by_wallet-CanPay s t g in (a, (λ _. (b, c), λ card. clash w card))
    | inr w ↦ elim (Bool-cases (pays_by "card" r)) [
      | inl c ↦
          let g : pay_by_card e year month r.payment_id r.user_id s ≡ (ok none, t) =
            rw (w, c) at h in
          let (a, b) = pay_by_card-HasCard s t g in (a, (λ wallet. ground arith, λ _. b))
      | inr c ↦
          let g : ◌≡◌ {A = Outcome (Option String) × State} (ok none, s) (ok none, t) =
            rw (w, c) at h in
          (
            ap (λ (p : Outcome (Option String) × State). p.1.server) (sym g),
            (λ wallet. ground arith, λ card. ground arith),
          )
    ]
  ]
    where
      clash : pays_by "wallet" r ≡ true → pays_by "card" r ≡ true → HasCard s
      clash w c = by_mode r.payment_mode refl w c
        where
          by_mode :
              (m : Option String)
              → r.payment_mode ≡ m
              → pays_by "wallet" r ≡ true
              → pays_by "card" r ≡ true
              → HasCard s
          by_mode none q w c = ground arith
          by_mode (some m) q w c =
              let a : m ≡ "wallet" = (===_iff m "wallet").0 (ground arith) in
              let b : m ≡ "card" = (===_iff m "card").0 (ground arith) in
              let d : ("wallet" === "card") ≡ true =
                subst (λ z. (z === "card") ≡ true) a ((===_iff m "card").1 b) in
              ground arith

  pay_by_card-Keeps :
      (a : Server)
      → Keeps (λ (z : State). z.server ≡ a) (pay_by_card e year month r.payment_id r.user_id)
  pay_by_card-Keeps a = by_id r.payment_id
    where
      by_id :
          (id : Option ℕ)
          → Keeps (λ (z : State). z.server ≡ a) (pay_by_card e year month id r.user_id)
      by_id none s p = p
      by_id (some id) s p = ground arith

  pub take_payment-Keeps :
      (a : Server) → Keeps (λ (z : State). z.server ≡ a) (take_payment e year month r)
  unfolding take_payment
  take_payment-Keeps a s p = elim (Bool-cases (pays_by "wallet" r)) [
    | inl w ↦ rw w (
        bind-Keeps P (await (λ (s : State). e.orm.find_one (owned r.user_id) s.wallets))
          (take_from_wallet e r.user_id) (λ s p. p) taken s p)
    | inr w ↦ elim (Bool-cases (pays_by "card" r)) [
      | inl c ↦ rw (w, c) (pay_by_card-Keeps a s p)
      | inr c ↦ rw (w, c) p
    ]
  ]
    where
      P : State → Type 0
      P z = z.server ≡ a

      lowering : Keeps P (await_write (decrement e r.user_id))
      lowering =
          await_write-Keeps P (decrement e r.user_id) (λ s t p h. (decrement-wallets s t h).0 ∙ p)

      taken : (w : Option Wallet) → Keeps P (take_from_wallet e r.user_id w)
      taken none s p =
          bind-Keeps {B = Option String} P (await_write (decrement e r.user_id)) (λ _. pure none)
            lowering (λ _ s p. p) s p
      taken (some w) s p = elim (Bool-cases (ltb_ℤ w.balance (pos 4900))) [
        | inl low ↦ rw low p
        | inr enough ↦ rw enough (
            bind-Keeps {B = Option String} P (await_write (decrement e r.user_id)) (λ _. pure none)
              lowering (λ _ s p. p) s p)
      ]
