-- ===== src/Prelude/Members.antt =====
-- The array methods against membership.
use mathlib.Core.List.{Memᴰ}
use mathlib.Core.Path.{◌≡◌, refl, sym, subst}
use mathlib.Core.Logic.{◌↔◌, inl, inr}
use mathlib.Core.Bool.{Bool, true, false, ◌||◌}
use mathlib.Core.List.{List, [], ◌∷◌}
use Prim.Native.String.{String}
use native.Mathlib.Omega.{arith}
use runc.Prelude.Tests.{◌===◌, ===_iff, if◌then◌else◌, Bool-cases, and-eq-true}
use runc.Prelude.Lists.{filter, any, every}

-- `Array.includes` on texts
abbrev pub includes_text : List String → String → Bool
includes_text [] t = false
includes_text (x ∷ xs) t = x === t || includes_text xs t

module _ {A : Type 0} (p : A → Bool) where
  Mem→filter : (xs : List A) (x : A) → Memᴰ x xs → p x ≡ true → Memᴰ x (filter p xs)
  Mem→filter [] x m h = elim m [ ]
  Mem→filter (y ∷ ys) x (Memᴰ.head e) h = rw (← e) (rw h (Memᴰ.head refl))
  Mem→filter (y ∷ ys) x (Memᴰ.tail m) h = elim (Bool-cases (p y)) [
    | inl k ↦ rw k (Memᴰ.tail (Mem→filter ys x m h))
    | inr k ↦ rw k (Mem→filter ys x m h)
  ]

  filter→Mem : (xs : List A) (x : A) → Memᴰ x (filter p xs) → Memᴰ x xs × (p x ≡ true)
  filter→Mem [] x m = elim m [ ]
  filter→Mem (y ∷ ys) x m = elim (Bool-cases (p y)) [
    | inl k ↦
        kept k (λ n. filter→Mem ys x n)
          (subst (λ b. Memᴰ x (if b then y ∷ filter p ys else filter p ys)) k m)
    | inr k ↦
        let (n, h) =
          filter→Mem ys x (subst (λ b. Memᴰ x (if b then y ∷ filter p ys else filter p ys)) k m) in
        (Memᴰ.tail n, h)
  ]
    where
      kept :
          p y ≡ true
          → (Memᴰ x (filter p ys) → Memᴰ x ys × (p x ≡ true))
          → Memᴰ x (y ∷ filter p ys)
          → Memᴰ x (y ∷ ys) × (p x ≡ true)
      kept k rest (Memᴰ.head e) = (Memᴰ.head e, rw e k)
      kept k rest (Memᴰ.tail n) = let (o, h) = rest n in (Memᴰ.tail o, h)

  pub filter_iff : (xs : List A) (x : A) → Memᴰ x (filter p xs) ↔ (Memᴰ x xs × (p x ≡ true))
  filter_iff xs x = (filter→Mem xs x, λ h. Mem→filter xs x h.0 h.1)

  every→Mem : (xs : List A) → every p xs ≡ true → (x : A) → Memᴰ x xs → p x ≡ true
  every→Mem [] h x m = elim m [ ]
  every→Mem (y ∷ ys) h x (Memᴰ.head e) = rw e (and-eq-true (p y) (every p ys) h).0
  every→Mem (y ∷ ys) h x (Memᴰ.tail m) = every→Mem ys (and-eq-true (p y) (every p ys) h).1 x m

  Mem→every : (xs : List A) → ((x : A) → Memᴰ x xs → p x ≡ true) → every p xs ≡ true
  Mem→every [] h = refl
  Mem→every (y ∷ ys) h = rw (h y (Memᴰ.head refl), Mem→every ys (λ x m. h x (Memᴰ.tail m))) refl

  pub every_iff : (xs : List A) → (every p xs ≡ true) ↔ ((x : A) → Memᴰ x xs → p x ≡ true)
  every_iff xs = (every→Mem xs, Mem→every xs)

  any→Mem : (xs : List A) → any p xs ≡ true → (x : A) × Memᴰ x xs × (p x ≡ true)
  any→Mem [] h = absurd_any h
    where
      absurd_any : {C : Type 0} → false ≡ true → C
      absurd_any h = ground arith
  any→Mem (y ∷ ys) h = elim (Bool-cases (p y)) [
    | inl k ↦ (y, Memᴰ.head refl, k)
    | inr k ↦ let (x, m, q) = any→Mem ys (rw k at h) in (x, Memᴰ.tail m, q)
  ]

  Mem→any : (xs : List A) (x : A) → Memᴰ x xs → p x ≡ true → any p xs ≡ true
  Mem→any [] x m h = elim m [ ]
  Mem→any (y ∷ ys) x (Memᴰ.head e) h = let k : p y ≡ true = rw (← e) h in rw k refl
  Mem→any (y ∷ ys) x (Memᴰ.tail m) h = ground (arith, Mem→any ys x m h)

  pub any_iff : (xs : List A) → (any p xs ≡ true) ↔ ((x : A) × Memᴰ x xs × (p x ≡ true))
  any_iff xs = (any→Mem xs, λ (x, m, h). Mem→any xs x m h)

includes_text→Mem : (xs : List String) (t : String) → includes_text xs t ≡ true → Memᴰ t xs
includes_text→Mem [] t h = absurd_text h
  where
    absurd_text : {C : Type 0} → false ≡ true → C
    absurd_text h = ground arith
includes_text→Mem (x ∷ xs) t h = elim (Bool-cases (x === t)) [
  | inl k ↦ Memᴰ.head (sym ((===_iff x t).0 k))
  | inr k ↦ Memᴰ.tail (includes_text→Mem xs t (rw k at h))
]

Mem→includes_text : (xs : List String) (t : String) → Memᴰ t xs → includes_text xs t ≡ true
Mem→includes_text [] t m = elim m [ ]
Mem→includes_text (x ∷ xs) t (Memᴰ.head e) = let k = (===_iff x t).1 (sym e) in rw k refl
Mem→includes_text (x ∷ xs) t (Memᴰ.tail m) = ground (arith, Mem→includes_text xs t m)

pub includes_text_iff : (xs : List String) (t : String) → (includes_text xs t ≡ true) ↔ Memᴰ t xs
includes_text_iff xs t = (includes_text→Mem xs t, Mem→includes_text xs t)
