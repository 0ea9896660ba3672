-- ===== src/Routes/Handlers.antt =====
-- server.ts: a handler that stands behind a guard in its chain is not called when the guard refuses
-- the request, whatever the path.
use runc.Prelude.{
  String, ◌≡◌, refl, sym, ap, ◌∙◌, inl, inr, Bool, true, false, not, ◌&&◌, ◌||◌, List, [], ◌∷◌,
  arith, ◌===◌, and-eq-true, Bool-cases, every, any,
}
use runc.Prelude.Http.{
  Outcome, ok, thrown, Action, ◌>>=◌, Reply, send, refuse, next, next_error, unanswered, bind_ok,
}
use mathlib.Core.Path.{subst}
use mathlib.Core.List.{Memᴰ}
use runc.Auth.Roles
use runc.Auth.Roles.{Crypto}
use runc.Routes.{
  Request, Middleware, is_authorized, deny_all, append_user_id, is_accounting, step, Layer, Express,
  App, applies, forbidden_or_next, append_user, go_on, run, chain, serve,
}
use runc.Routes.Table.{layers}
use runc.Routes.Custom.{all_layers}
use runc.Routes.Blocking.{blocks, run_blocked, go_on_same, bind_same}

abbrev is_next : Reply (Unit {0}) → Bool
is_next next = true
is_next (send code u) = false
is_next (refuse code e) = false
is_next (next_error e) = false
is_next unanswered = false

-- The guard does not let the request through.
abbrev pub refuses : Express → Crypto → Request → Middleware → Bool
refuses x c r is_authorized = blocks x r is_authorized
refuses x c r deny_all = blocks x r deny_all
refuses x c r is_accounting = not (is_next (Roles.is_accounting c r.authorization))
refuses x c r append_user_id = false
refuses x c r (step name) = false

-- The handlers that the guard protects in server.ts.
abbrev pub Guarded : Type 0
Guarded = Middleware × List String

abbrev pub guarded : List Guarded
guarded =
    (is_accounting, "allOrders" ∷ "toggleDeliveryStatus" ∷ "IpFilter" ∷ [])
    ∷ (
      is_authorized,
      "twoFactorAuth.status" ∷ "twoFactorAuth.setup" ∷ "twoFactorAuth.disable"
          ∷ "updateProductReviews" ∷ "likeProductReviews" ∷ [],
    )
    ∷ []

abbrev pub is_in : String → List String → Bool
is_in name names = any (λ n. n === name) names

abbrev is_same : Middleware → Middleware → Bool
is_same is_authorized is_authorized = true
is_same is_accounting is_accounting = true
is_same _ _ = false

is_same-eq : (g m : Middleware) → is_same g m ≡ true → g ≡ m
is_same-eq is_authorized is_authorized h = refl
is_same-eq is_accounting is_accounting h = refl
is_same-eq g m h = ground arith

abbrev is_protected : List String → Middleware → Bool
is_protected names (step name) = is_in name names
is_protected names is_authorized = false
is_protected names deny_all = false
is_protected names append_user_id = false
is_protected names is_accounting = false

-- No protected handler stands in the chain before the guard.
abbrev is_behind : Middleware → List String → List Middleware → Bool
is_behind g names [] = true
is_behind g names (m ∷ ms) =
    let rest = is_behind g names ms in is_same g m || not (is_protected names m) && rest

abbrev are_behind : Guarded → Bool
are_behind (g, names) = every (λ (l : Layer). is_behind g names l.middlewares) all_layers

guarded-behind : every are_behind guarded ≡ true
unfolding all_layers layers
guarded-behind = refl

module _ {S : Type 0} (x : Express) (c : Crypto) (a : App S) (r : Request)
    (other : String → Request → Action S (Reply String)) (names : List String) where
  -- The application with other handlers.
  abbrev changed : App S
  changed = record a { middleware = other }

  abbrev Agrees : Type 0
  Agrees =
      (name : String) → is_in name names ≡ false → (s : S) → a.middleware name r s ≡ other name r s

  run_same :
      (m : Middleware) (s : S)
      → Agrees
      → is_protected names m ≡ false
      → run x c a m r s ≡ run x c changed m r s
  unfolding run append_user
  run_same is_authorized s h p = refl
  run_same deny_all s h p = refl
  run_same append_user_id s h p = refl
  run_same is_accounting s h p = refl
  run_same (step name) s h p = h name p s

  bind_swap :
      (m n : Action S (Reply String)) (f : Reply String → Action S (Reply String)) (s : S)
      → m s ≡ n s
      → (m >>= f) s ≡ (n >>= f) s
  bind_swap m n f s q =
      ap
        (λ (p : Outcome (Reply String) × S).
          let w : Outcome (Reply String) × S = elim p.0 [
            | ok b ↦ f b p.1
            | thrown e ↦ (thrown e, p.1)
          ] in
          w)
        q

  stop_same :
      (q : Reply (Unit {0})) (k j : Action S (Reply String)) (s : S)
      → not (is_next q) ≡ true
      → go_on k (forbidden_or_next q) s ≡ go_on j (forbidden_or_next q) s
  stop_same next k j s h = cc
  stop_same (send code u) k j s h = refl
  stop_same (refuse code e) k j s h = refl
  stop_same (next_error e) k j s h = refl
  stop_same unanswered k j s h = refl

  guard-stops :
      (m : Middleware) (k j : Action S (Reply String)) (s : S)
      → refuses x c r m ≡ true
      → (run x c a m r >>= go_on k) s ≡ (run x c changed m r >>= go_on j) s
  unfolding run
  guard-stops is_authorized k j s h =
      bind_ok (run x c a is_authorized r) (go_on k) s (run_blocked x c a r is_authorized s h)
      ∙ sym (
          bind_ok (run x c changed is_authorized r) (go_on j) s
            (run_blocked x c changed r is_authorized s h))
  guard-stops deny_all k j s h =
      bind_ok (run x c a deny_all r) (go_on k) s (run_blocked x c a r deny_all s h)
      ∙ sym (
          bind_ok (run x c changed deny_all r) (go_on j) s (run_blocked x c changed r deny_all s h))
  guard-stops is_accounting k j s h = stop_same (Roles.is_accounting c r.authorization) k j s h
  guard-stops append_user_id k j s h = cc
  guard-stops (step name) k j s h = cc

  chain_behind :
      (g : Middleware) (ms : List Middleware) (k j : Action S (Reply String)) (s : S)
      → Agrees
      → refuses x c r g ≡ true
      → is_behind g names ms ≡ true
      → ((t : S) → k t ≡ j t)
      → chain x c a ms r k s ≡ chain x c changed ms r j s
  unfolding chain
  chain_behind g [] k j s h b i e = e s
  chain_behind g (m ∷ ms) k j s h b i e = elim (Bool-cases (is_same g m)) [
    | inl q ↦
        guard-stops m (chain x c a ms r k) (chain x c changed ms r j) s
          (subst (λ n. refuses x c r n ≡ true) (is_same-eq g m q) b)
    | inr q ↦
        let both : (not (is_protected names m) && is_behind g names ms) ≡ true = rw q at i in
        let (free, rest) = and-eq-true (not (is_protected names m)) (is_behind g names ms) both in
        bind_swap (run x c a m r) (run x c changed m r) (go_on (chain x c a ms r k)) s
          (run_same m s h (ground arith))
        ∙ bind_same x c a r (run x c changed m r) (go_on (chain x c a ms r k))
            (go_on (chain x c changed ms r j)) s
            (λ reply t.
              go_on_same x c a r (chain x c a ms r k) (chain x c changed ms r j) reply t
                (λ u. chain_behind g ms k j u h b rest e))
  ]

  serve_behind :
      (g : Middleware) (ls : List Layer) (k : Action S (Reply String)) (s : S)
      → Agrees
      → refuses x c r g ≡ true
      → every (λ (l : Layer). is_behind g names l.middlewares) ls ≡ true
      → serve x c a ls r k s ≡ serve x c changed ls r k s
  unfolding serve
  serve_behind g [] k s h b i = refl
  serve_behind g (l ∷ ls) k s h b i =
      let (here, rest) =
        and-eq-true (is_behind g names l.middlewares)
          (every (λ (l : Layer). is_behind g names l.middlewares) ls) i in
      elim (Bool-cases (applies x l r)) [
        | inr q ↦ rw q (serve_behind g ls k s h b rest)
        | inl q ↦ rw q (
            chain_behind g l.middlewares (serve x c a ls r k) (serve x c changed ls r k) s h b here
              (λ t. serve_behind g ls k t h b rest))
      ]

each_behind :
    (gs : List Guarded) (p : Guarded) → Memᴰ p gs → every are_behind gs ≡ true → are_behind p ≡ true
each_behind [] p i h = elim i [ ]
each_behind (q ∷ gs) p (Memᴰ.head e) h =
    let (here, rest) = and-eq-true (are_behind q) (every are_behind gs) h in
    subst (λ z. are_behind z ≡ true) (sym e) here
each_behind (q ∷ gs) p (Memᴰ.tail i) h =
    let (here, rest) = and-eq-true (are_behind q) (every are_behind gs) h in each_behind gs p i rest

-- For a guard of `guarded` that refuses a request: whatever the path, the handlers that the guard
-- protects are not called. The answer and the state stay the same when these handlers, and only
-- they, are changed.
pub guarded_handlers :
    {S : Type 0} (x : Express) (c : Crypto) (a : App S) (r : Request)
    (other : String → Request → Action S (Reply String)) (g : Middleware) (names : List String)
    (k : Action S (Reply String)) (s : S)
    → Memᴰ (g, names) guarded
    → refuses x c r g ≡ true
    → ((name : String)
        → is_in name names ≡ false
        → (t : S) → a.middleware name r t ≡ other name r t)
    → serve x c a all_layers r k s ≡ serve x c (record a { middleware = other }) all_layers r k s
guarded_handlers x c a r other g names k s i b h =
    serve_behind x c a r other names g all_layers k s h b
      (each_behind guarded (g, names) i guarded-behind)
