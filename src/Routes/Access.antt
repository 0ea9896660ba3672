-- ===== src/Routes/Access.antt =====
-- server.ts: the layers end the requests that the rules of Routes/Rules speak of.
use runc.Prelude.{
  String, ◌≡◌, refl, sym, ◌∙◌, inl, inr, Bool, true, false, ◌&&◌, List, [], ◌∷◌, arith, ◌===◌,
  ===_iff, ==_iff, and-eq-true, Bool-cases, every, any,
}
use runc.Prelude.Http.{Action, Reply}
use mathlib.Core.Path.{subst}
use runc.Auth.Roles.{Crypto}
use runc.Routes.{
  put, Request, Mount, all, on, Middleware, is_authorized, deny_all, Layer, Express, App, rank,
  fits, applies, serve,
}
use runc.Routes.Table.{layers}
use runc.Routes.Rules.{Rule, same_mount, not_kept, forbidden, members_only}
use runc.Routes.Blocking.{blocks, stops, serve_stopped}

abbrev pub is_under : Express → Request → Rule → Bool
is_under x r (mount, pattern) = fits x mount pattern r

abbrev is_guard : Middleware → Middleware → Bool
is_guard is_authorized is_authorized = true
is_guard deny_all deny_all = true
is_guard _ _ = false

-- A layer that carries out a rule with a guard.
abbrev carries : Middleware → Rule → Layer → Bool
carries g rule l =
    (same_mount rule.0 l.mount && rule.1 === l.pattern) && any (is_guard g) l.middlewares

is_guard-eq : (g m : Middleware) → is_guard g m ≡ true → g ≡ m
is_guard-eq is_authorized is_authorized h = refl
is_guard-eq deny_all deny_all h = refl
is_guard-eq g m h = ground arith

module _ (x : Express) (r : Request) where
  same_mount-fits : (m n : Mount) (p : String) → same_mount m n ≡ true → fits x m p r ≡ fits x n p r
  same_mount-fits all all p h = refl
  same_mount-fits (on m) (on n) p h = let e = (==_iff (rank m) (rank n)).0 h in rw e refl
  same_mount-fits all (on n) p h = cc
  same_mount-fits (on m) all p h = cc

  guards-block :
      (g : Middleware) (ms : List Middleware)
      → blocks x r g ≡ true
      → any (is_guard g) ms ≡ true
      → any (blocks x r) ms ≡ true
  guards-block g [] b h = cc
  guards-block g (m ∷ ms) b h = elim (Bool-cases (is_guard g m)) [
    | inl k ↦
        let c : blocks x r m ≡ true = subst (λ n. blocks x r n ≡ true) (is_guard-eq g m k) b in
        rw c refl
    | inr k ↦
        let rest : any (is_guard g) ms ≡ true = rw k at h in
        let c = guards-block g ms b rest in ground arith
  ]

  carries-stops :
      (g : Middleware) (rule : Rule) (ls : List Layer)
      → blocks x r g ≡ true
      → is_under x r rule ≡ true
      → any (carries g rule) ls ≡ true
      → any (stops x r) ls ≡ true
  carries-stops g rule [] b u h = cc
  carries-stops g rule (l ∷ ls) b u h = elim (Bool-cases (carries g rule l)) [
    | inr k ↦
        let rest : any (carries g rule) ls ≡ true = rw k at h in
        let c = carries-stops g rule ls b u rest in ground arith
    | inl k ↦
        let (both, guard) =
          and-eq-true (same_mount rule.0 l.mount && rule.1 === l.pattern)
            (any (is_guard g) l.middlewares) k in
        let (mount, pattern) =
          and-eq-true (same_mount rule.0 l.mount) (rule.1 === l.pattern) both in
        let p : rule.1 ≡ l.pattern = (===_iff rule.1 l.pattern).0 pattern in
        let f : fits x rule.0 l.pattern r ≡ true = subst (λ q. fits x rule.0 q r ≡ true) p u in
        let a : applies x l r ≡ true = sym (same_mount-fits rule.0 l.mount l.pattern mount) ∙ f in
        rw (a, guards-block g l.middlewares b guard) refl
  ]

  rules-stop :
      (g : Middleware) (rules : List Rule) (ls : List Layer)
      → blocks x r g ≡ true
      → every (λ rule. any (carries g rule) ls) rules ≡ true
      → any (is_under x r) rules ≡ true
      → any (stops x r) ls ≡ true
  rules-stop g [] ls b h u = cc
  rules-stop g (rule ∷ rules) ls b h u =
      let (here, later) =
        and-eq-true (any (carries g rule) ls) (every (λ rule. any (carries g rule) ls) rules) h in
      elim (Bool-cases (is_under x r rule)) [
        | inl k ↦ carries-stops g rule ls b k here
        | inr k ↦
            let rest : any (is_under x r) rules ≡ true = rw k at u in
            rules-stop g rules ls b later rest
      ]

forbidden-carried : every (λ rule. any (carries deny_all rule) layers) forbidden ≡ true
unfolding layers
forbidden-carried = refl

-- No promise that is not kept is carried by `denyAll`, and PUT of a product by no guard at all.
not_kept-open :
    (any (λ rule. any (carries deny_all rule) layers) not_kept ≡ false)
    × (any (carries is_authorized (on put, "/api/Products/:id")) layers ≡ false)
unfolding layers
not_kept-open = (refl, refl)

members_only-carried : every (λ rule. any (carries is_authorized rule) layers) members_only ≡ true
unfolding layers
members_only-carried = refl

module _ {S : Type 0} (x : Express) (c : Crypto) (a : App S) (r : Request) where
  -- A request that the comments forbid everyone ends before the API, except GET of users, POST of
  -- products and PUT of a product, and so does GET of a hint, any request for a single complaint and
  -- PUT of a card, if the request's token is not signed with the random secret: for every two
  -- continuations after the layers, the answer and the state are the same.
  pub serve-forbidden :
      (k j : Action S (Reply String)) (s : S)
      → x.verifies x.random r.authorization ≡ false
      → any (is_under x r) forbidden ≡ true
      → serve x c a layers r k s ≡ serve x c a layers r j s
  serve-forbidden k j s v h =
      let b : blocks x r deny_all ≡ true = rw v refl in
      serve_stopped x c a r layers k j s
        (rules-stop x r deny_all forbidden layers b forbidden-carried h)

  -- A request under a rule of `members_only` whose token the public key does not verify ends
  -- before the API: for every two continuations after the layers, the answer and the state are
  -- the same.
  pub serve_unauthenticated :
      (k j : Action S (Reply String)) (s : S)
      → x.verifies x.public_key r.authorization ≡ false
      → any (is_under x r) members_only ≡ true
      → serve x c a layers r k s ≡ serve x c a layers r j s
  serve_unauthenticated k j s v h =
      let b : blocks x r is_authorized ≡ true = rw v refl in
      serve_stopped x c a r layers k j s
        (rules-stop x r is_authorized members_only layers b members_only-carried h)
