-- ===== src/Routes/Blocking.antt =====
-- server.ts: a layer whose guard refuses a request keeps it from all that comes after.
use runc.Prelude.{
  String, ◌≡◌, refl, sym, ◌∙◌, inl, inr, Bool, true, false, not, ◌&&◌, List, [], ◌∷◌, Bool-cases,
  any,
}
use runc.Prelude.Http.{
  Outcome, ok, thrown, Action, ◌>>=◌, Reply, send, refuse, next, next_error, unanswered, bind_ok,
}
use runc.Auth.Roles.{Crypto}
use runc.Routes.{
  Request, Middleware, is_authorized, deny_all, append_user_id, is_accounting, step, Layer, Express,
  App, applies, express_jwt, go_on, run, chain, serve,
}

-- The guard refuses the request: its secret does not verify the token.
abbrev pub blocks : Express → Request → Middleware → Bool
blocks x r is_authorized = not (x.verifies x.public_key r.authorization)
blocks x r deny_all = not (x.verifies x.random r.authorization)
blocks x r append_user_id = false
blocks x r is_accounting = false
blocks x r (step name) = false

abbrev pub stops : Express → Request → Layer → Bool
stops x r l = applies x l r && any (blocks x r) l.middlewares

module _ {S : Type 0} (x : Express) (c : Crypto) (a : App S) (r : Request) where
  pub run_blocked :
      (m : Middleware) (s : S)
      → blocks x r m ≡ true
      → run x c a m r s ≡ (ok (next_error "UnauthorizedError"), s)
  unfolding run express_jwt
  run_blocked is_authorized s h = elim (Bool-cases (x.verifies x.public_key r.authorization)) [
    | inl k ↦ let g = rw k at h in cc
    | inr k ↦ rw k refl
  ]
  run_blocked deny_all s h = elim (Bool-cases (x.verifies x.random r.authorization)) [
    | inl k ↦ let g = rw k at h in cc
    | inr k ↦ rw k refl
  ]
  run_blocked append_user_id s h = cc
  run_blocked is_accounting s h = cc
  run_blocked (step name) s h = cc

  module _ (k j : Action S (Reply String)) where
    -- Going on with the same answers is the same.
    pub go_on_same :
        (reply : Reply String) (s : S) → ((t : S) → k t ≡ j t) → go_on k reply s ≡ go_on j reply s
    go_on_same next s h = h s
    go_on_same (send code b) s h = refl
    go_on_same (refuse code e) s h = refl
    go_on_same (next_error e) s h = refl
    go_on_same unanswered s h = refl

  pub bind_same :
      (m : Action S (Reply String)) (f g : Reply String → Action S (Reply String)) (s : S)
      → ((reply : Reply String) (t : S) → f reply t ≡ g reply t)
      → (m >>= f) s ≡ (m >>= g) s
  bind_same m f g s h = by_outcome (m s)
    where
      by_outcome :
          (p : Outcome (Reply String) × S)
          → (let q : Outcome (Reply String) × S = elim p.0 [
            | ok b ↦ f b p.1
            | thrown e ↦ (thrown e, p.1)
          ] in
              q)
            ≡ (let q : Outcome (Reply String) × S = elim p.0 [
              | ok b ↦ g b p.1
              | thrown e ↦ (thrown e, p.1)
            ] in
                q)
      by_outcome (ok b, t) = h b t
      by_outcome (thrown e, t) = refl

  chain_same :
      (ms : List Middleware) (k j : Action S (Reply String)) (s : S)
      → ((t : S) → k t ≡ j t)
      → chain x c a ms r k s ≡ chain x c a ms r j s
  unfolding chain
  chain_same [] k j s h = h s
  chain_same (m ∷ ms) k j s h =
      bind_same (run x c a m r) (go_on (chain x c a ms r k)) (go_on (chain x c a ms r j)) s
        (λ reply t.
          go_on_same (chain x c a ms r k) (chain x c a ms r j) reply t (λ u. chain_same ms k j u h))

  chain_stopped :
      (ms : List Middleware) (k j : Action S (Reply String)) (s : S)
      → any (blocks x r) ms ≡ true
      → chain x c a ms r k s ≡ chain x c a ms r j s
  unfolding chain
  chain_stopped [] k j s h = cc
  chain_stopped (m ∷ ms) k j s h = elim (Bool-cases (blocks x r m)) [
    | inl b ↦
        bind_ok (run x c a m r) (go_on (chain x c a ms r k)) s (run_blocked m s b)
        ∙ sym (bind_ok (run x c a m r) (go_on (chain x c a ms r j)) s (run_blocked m s b))
    | inr b ↦
        let rest : any (blocks x r) ms ≡ true = rw b at h in
        bind_same (run x c a m r) (go_on (chain x c a ms r k)) (go_on (chain x c a ms r j)) s
          (λ reply t.
            go_on_same (chain x c a ms r k) (chain x c a ms r j) reply t
              (λ u. chain_stopped ms k j u rest))
  ]

  pub serve_stopped :
      (ls : List Layer) (k j : Action S (Reply String)) (s : S)
      → any (stops x r) ls ≡ true
      → serve x c a ls r k s ≡ serve x c a ls r j s
  unfolding serve
  serve_stopped [] k j s h = cc
  serve_stopped (l ∷ ls) k j s h = elim (Bool-cases (applies x l r)) [
    | inr b ↦ let rest : any (stops x r) ls ≡ true = rw b at h in rw b (serve_stopped ls k j s rest)
    | inl b ↦ elim (Bool-cases (any (blocks x r) l.middlewares)) [
      | inl d ↦ rw b (chain_stopped l.middlewares (serve x c a ls r k) (serve x c a ls r j) s d)
      | inr d ↦
          let rest : any (stops x r) ls ≡ true = rw (b, d) at h in
          rw b (
            chain_same l.middlewares (serve x c a ls r k) (serve x c a ls r j) s
              (λ t. serve_stopped ls k j t rest))
    ]
  ]
