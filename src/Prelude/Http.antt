-- ===== src/Prelude/Http.antt =====
-- What a request handler does: it reads and writes a state, may throw, and answers. The names
-- follow Express: `send` is `res.status(code).json(body)` or `.send(body)`, `next` is `next()`,
-- `next_error` is `next(error)`.
use Prim.Native.Nat.{ℕ}
use Prim.Native.String.{String}
use mathlib.Core.Path.{◌≡◌, refl, sym, ap, ◌∙◌}
use native.Mathlib.Omega.{arith}

-- An awaited computation: it resolves to a value or rejects with an error's message.
pub data Outcome {ℓ} (A : Type ℓ) : Type ℓ where
  ok : A → Outcome A
  thrown : String → Outcome A

-- State survives a throw: what was written stays written.
abbrev pub Action : Type 0 → Type 0 → Type 0
Action S A = S → Outcome A × S

module _ {S A : Type 0} where
  abbrev pub pure : A → Action S A
  pure a s = (ok a, s)

  abbrev pub throw : String → Action S A
  throw e s = (thrown e, s)

  abbrev pub gets : (S → A) → Action S A
  gets f s = (ok (f s), s)

  -- An awaited call that reads the state.
  abbrev pub await : (S → Outcome A) → Action S A
  await f s = (f s, s)

  -- `try { m } catch (e) { h(e) }`
  abbrev pub catch : Action S A → (String → Action S A) → Action S A
  catch m h s = let (r, s') = m s in elim r [ ok a ↦ (ok a, s') | thrown e ↦ h e s' ]

module _ {S : Type 0} where
  abbrev pub modify : (S → S) → Action S (Unit {0})
  modify f s = (ok tt, f s)

  -- An awaited call that writes the state, if it does not reject.
  abbrev pub await_write : (S → Outcome S) → Action S (Unit {0})
  await_write f s = elim (f s) [ ok s' ↦ (ok tt, s') | thrown e ↦ (thrown e, s) ]

infixl 5 ◌>>=◌ ◌>>◌
abbrev pub ◌>>=◌ : {S A B : Type 0} → Action S A → (A → Action S B) → Action S B
◌>>=◌ m f s = let (r, s') = m s in elim r [ ok a ↦ f a s' | thrown e ↦ (thrown e, s') ]

abbrev pub ◌>>◌ : {S A B : Type 0} → Action S A → Action S B → Action S B
m >> k = m >>= λ _. k

-- The answer of a handler whose successful body is a `B`.
pub data Reply (B : Type 0) : Type 0 where
  send : ℕ → B → Reply B
  refuse : ℕ → String → Reply B
  next : Reply B
  next_error : String → Reply B
  unanswered : Reply B

-- A `catch` that only answers leaves the state of its body.
pub catch_state :
    {S A : Type 0} (m : Action S A) (f : String → A) (s : S)
    → (catch m (λ e. pure (f e)) s).1 ≡ (m s).1
catch_state {S} {A} m f s = by_outcome (m s)
  where
    by_outcome :
        (p : Outcome A × S)
        → (let (r, s') = p in
            let q : Outcome A × S = elim r [ ok a ↦ (ok a, s') | thrown e ↦ (ok (f e), s') ] in q.1)
          ≡ p.1
    by_outcome (ok a, t) = refl
    by_outcome (thrown e, t) = refl

-- The two ways in which a chained call goes on.
module _ {S A B : Type 0} (m : Action S A) (f : A → Action S B) (s : S) where
  pub bind_ok : {a : A} {s' : S} → m s ≡ (ok a, s') → (m >>= f) s ≡ f a s'
  bind_ok q =
      ap
        (λ (p : Outcome A × S).
          let r : Outcome B × S = elim p.0 [ ok a ↦ f a p.1 | thrown e ↦ (thrown e, p.1) ] in r)
        q

  pub bind_thrown : {e : String} {s' : S} → m s ≡ (thrown e, s') → (m >>= f) s ≡ (thrown e, s')
  bind_thrown q =
      ap
        (λ (p : Outcome A × S).
          let r : Outcome B × S = elim p.0 [ ok a ↦ f a p.1 | thrown e ↦ (thrown e, p.1) ] in r)
        q

-- The call keeps a property of the state, whether it resolves or throws.
abbrev pub Keeps : {S A : Type 0} → (S → Type 0) → Action S A → Type 0
Keeps {S} P m = (s : S) → P s → P (m s).1

module _ {S A B : Type 0} (P : S → Type 0) where
  pub bind-Keeps :
      (m : Action S A) (f : A → Action S B)
      → Keeps P m
      → ((a : A) → Keeps P (f a))
      → Keeps P (m >>= f)
  bind-Keeps m f h k s p = by_outcome (m s) (h s p)
    where
      by_outcome :
          (q : Outcome A × S)
          → P q.1
          → let r : Outcome B × S = elim q.0 [ ok a ↦ f a q.1 | thrown e ↦ (thrown e, q.1) ] in
            P r.1
      by_outcome (ok a, t) g = k a t g
      by_outcome (thrown e, t) g = g

module _ {S A : Type 0} (P : S → Type 0) where
  pub catch-Keeps :
      (m : Action S A) (h : String → Action S A)
      → Keeps P m
      → ((e : String) → Keeps P (h e))
      → Keeps P (catch m h)
  catch-Keeps m h k l s p = by_outcome (m s) (k s p)
    where
      by_outcome :
          (q : Outcome A × S)
          → P q.1
          → let r : Outcome A × S = elim q.0 [ ok a ↦ (ok a, q.1) | thrown e ↦ h e q.1 ] in P r.1
      by_outcome (ok a, t) g = g
      by_outcome (thrown e, t) g = l e t g

module _ {S : Type 0} (P : S → Type 0) where
  pub await_write-Keeps :
      (f : S → Outcome S) → ((s t : S) → P s → f s ≡ ok t → P t) → Keeps P (await_write f)
  await_write-Keeps f h s p = by_outcome (f s) refl
    where
      by_outcome :
          (o : Outcome S)
          → f s ≡ o
          → let r : Outcome (Unit {0}) × S = elim o [
            | ok s' ↦ (ok tt, s')
            | thrown e ↦ (thrown e, s)
          ] in
            P r.1
      by_outcome (ok t) e = h s t p e
      by_outcome (thrown x) e = p

-- A chained call that resolves has resolved in both of its parts.
pub bind_resolved :
    {S A B : Type 0} (m : Action S A) (f : A → Action S B) (s : S) (b : B)
    → ((m >>= f) s).0 ≡ ok b
    → (a : A) × (s' : S) × (m s ≡ (ok a, s')) × ((f a s').0 ≡ ok b)
bind_resolved {S} {A} {B} m f s b h = by_outcome (m s) refl h
  where
    by_outcome :
        (p : Outcome A × S)
        → m s ≡ p
        → (let r : Outcome B × S = elim p.0 [ ok a ↦ f a p.1 | thrown e ↦ (thrown e, p.1) ] in r.0)
          ≡ ok b
        → (a : A) × (s' : S) × (m s ≡ (ok a, s')) × ((f a s').0 ≡ ok b)
    by_outcome (ok a, t) q k = (a, t, q, k)
    by_outcome (thrown e, t) q k = absurd_thrown k
      where
        absurd_thrown : {C : Type 0} → ◌≡◌ {A = Outcome B} (thrown e) (ok b) → C
        absurd_thrown c = ground arith

-- A property of the state that is left, from what the parts of a call leave.
module _ {S A B : Type 0} (Q : S → Type 0) where
  pub bind_after :
      (m : Action S A) (f : A → Action S B) (s : S)
      → ((a : A) (t : S) → m s ≡ (ok a, t) → Q (f a t).1)
      → ((e : String) (t : S) → m s ≡ (thrown e, t) → Q t)
      → Q ((m >>= f) s).1
  bind_after m f s h k = by_outcome (m s) refl
    where
      by_outcome :
          (p : Outcome A × S)
          → m s ≡ p
          → let r : Outcome B × S = elim p.0 [ ok a ↦ f a p.1 | thrown e ↦ (thrown e, p.1) ] in
            Q r.1
      by_outcome (ok a, t) q = h a t q
      by_outcome (thrown e, t) q = k e t q

module _ {S A : Type 0} (Q : S → Type 0) where
  pub catch_after :
      (m : Action S A) (h : String → Action S A) (s : S)
      → ((a : A) (t : S) → m s ≡ (ok a, t) → Q t)
      → ((e : String) (t : S) → m s ≡ (thrown e, t) → Q (h e t).1)
      → Q (catch m h s).1
  catch_after m h s k l = by_outcome (m s) refl
    where
      by_outcome :
          (p : Outcome A × S)
          → m s ≡ p
          → let r : Outcome A × S = elim p.0 [ ok a ↦ (ok a, p.1) | thrown e ↦ h e p.1 ] in Q r.1
      by_outcome (ok a, t) q = k a t q
      by_outcome (thrown e, t) q = l e t q

module _ {S : Type 0} (f : S → Outcome S) (s : S) where
  -- What an awaited write that resolved has written, and that one that rejected wrote nothing.
  pub await_write_ok : (u : Unit {0}) (t : S) → await_write f s ≡ (ok u, t) → f s ≡ ok t
  await_write_ok u t q = by_outcome (f s) refl q
    where
      by_outcome :
          (o : Outcome S)
          → f s ≡ o
          → (let r : Outcome (Unit {0}) × S = elim o [
            | ok s' ↦ (ok tt, s')
            | thrown e ↦ (thrown e, s)
          ] in
              r)
            ≡ (ok u, t)
          → f s ≡ ok t
      by_outcome (ok s') e k = e ∙ ap (λ (p : Outcome (Unit {0}) × S). ok p.1) k
      by_outcome (thrown m) e k = ground arith

  pub await_write_thrown : (m : String) (t : S) → await_write f s ≡ (thrown m, t) → t ≡ s
  await_write_thrown m t q = by_outcome (f s) q
    where
      by_outcome :
          (o : Outcome S)
          → (let r : Outcome (Unit {0}) × S = elim o [
            | ok s' ↦ (ok tt, s')
            | thrown e ↦ (thrown e, s)
          ] in
              r)
            ≡ (thrown m, t)
          → t ≡ s
      by_outcome (ok s') k = ground arith
      by_outcome (thrown n) k = sym (ap (λ (p : Outcome (Unit {0}) × S). p.1) k)

-- A chained call that resolves with a state has resolved in both of its parts, one after the other.
pub bind_returned :
    {S A B : Type 0} (m : Action S A) (f : A → Action S B) (s : S) (b : B) (t : S)
    → (m >>= f) s ≡ (ok b, t)
    → (a : A) × (s' : S) × (m s ≡ (ok a, s')) × (f a s' ≡ (ok b, t))
bind_returned {S} {A} {B} m f s b t h = by_outcome (m s) refl h
  where
    by_outcome :
        (p : Outcome A × S)
        → m s ≡ p
        → (let r : Outcome B × S = elim p.0 [ ok a ↦ f a p.1 | thrown e ↦ (thrown e, p.1) ] in r)
          ≡ (ok b, t)
        → (a : A) × (s' : S) × (m s ≡ (ok a, s')) × (f a s' ≡ (ok b, t))
    by_outcome (ok a, s') q k = (a, s', q, k)
    by_outcome (thrown e, s') q k = absurd_thrown (ap (λ (p : Outcome B × S). p.0) k)
      where
        absurd_thrown : {C : Type 0} → ◌≡◌ {A = Outcome B} (thrown e) (ok b) → C
        absurd_thrown c = ground arith
