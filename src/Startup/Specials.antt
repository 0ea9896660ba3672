-- ===== src/Startup/Specials.antt =====
-- The checks of special products and memories, by what they find.
use mathlib.Core.List.{Memᴰ}
use mathlib.Core.Path.{subst}
use runc.Prelude.{
  ◌≡◌, refl, sym, ap, ◌∙◌, ◌≢◌, inl, inr, Bool, true, false, not, ◌&&◌, List, [], ◌∷◌, ◌++◌, arith,
  ltb, and-eq-true, absurd_test, Bool-cases, length, filter,
}
use runc.Prelude.Members.{filter_iff}
use runc.Startup.{
  SpecialProduct, christmas_special, product_tampering, retrieve_blueprint, leaked_unsafe_product,
  special_products, SpecialMemory, meta_geo_stalking, visual_geo_stalking, special_memories,
  check_one,
}

-- One element of the list passes the test, and only at one place.
abbrev pub HasOne : {A : Type 0} → (A → Bool) → List A → A → Type 0
HasOne {A} p xs x =
    (before : List A) × (after : List A) × (xs ≡ before ++ x ∷ after)
    × (p x ≡ true)
    × ((y : A) → Memᴰ y before → p y ≡ false)
    × ((y : A) → Memᴰ y after → p y ≡ false)

pub none_pass :
    {A : Type 0} (p : A → Bool) (xs : List A)
    → length (filter p xs) ≡ 0
    → (y : A) → Memᴰ y xs
    → p y ≡ false
none_pass p [] h y m = elim m [ ]
none_pass p (x ∷ xs) h y (Memᴰ.head e) = rw e (ground arith)
none_pass p (x ∷ xs) h y (Memᴰ.tail m) = none_pass p xs (ground arith) y m

pub find_one :
    {A : Type 0} (p : A → Bool) (xs : List A)
    → check_one (length (filter p xs)) ≡ true
    → (x : A) × HasOne p xs x
find_one p [] h = absurd_test h
find_one {A} p (x ∷ xs) h = elim (Bool-cases (p x)) [
  | inl k ↦ (x, ([], xs, refl, k, (λ y m. elim m [ ]), none_pass p xs (ground arith)))
  | inr k ↦
      let (z, (before, after, e, q, b, a)) = find_one p xs (rw k at h) in
      (z, (x ∷ before, after, ap (λ (ys : List A). x ∷ ys) e, q, later k before b, a))
]
  where
    later :
        p x ≡ false
        → (before : List A) → ((y : A) → Memᴰ y before → p y ≡ false)
        → (y : A) → Memᴰ y (x ∷ before)
        → p y ≡ false
    later k before b y (Memᴰ.head e) = rw e k
    later k before b y (Memᴰ.tail m) = b y m

all_fail :
    {A : Type 0} (p : A → Bool) (xs ys : List A)
    → ((y : A) → Memᴰ y xs → p y ≡ false)
    → filter p (xs ++ ys) ≡ filter p ys
all_fail p [] ys h = refl
all_fail p (x ∷ xs) ys h = rw (h x (Memᴰ.head refl)) (all_fail p xs ys (λ y m. h y (Memᴰ.tail m)))

pub none_left :
    {A : Type 0} (p : A → Bool) (xs : List A)
    → ((y : A) → Memᴰ y xs → p y ≡ false)
    → filter p xs ≡ []
none_left p [] h = refl
none_left p (x ∷ xs) h = rw (h x (Memᴰ.head refl)) (none_left p xs (λ y m. h y (Memᴰ.tail m)))

pub filter_one :
    {A : Type 0} (p : A → Bool) (xs : List A) (x : A) → HasOne p xs x → filter p xs ≡ x ∷ []
filter_one {A} p xs x (before, after, e, q, b, a) =
    let rest : filter p (x ∷ after) ≡ x ∷ [] = rw (q, none_left p after a) refl in
    ap (filter p) e ∙ all_fail p before (x ∷ after) b ∙ rest

-- At most one of the special products is one that the test accepts.
abbrev pub IsAtMostOne : {A : Type 0} → (A → Bool) → Type 0
IsAtMostOne {A} f = (j k : A) → f j ≡ true → f k ≡ true → j ≡ k

pub one_product :
    (f : SpecialProduct → Bool)
    → not (ltb 1 (length (filter f special_products))) ≡ true
    → IsAtMostOne f
one_product f h christmas_special christmas_special a b = refl
one_product f h christmas_special product_tampering a b = ground arith
one_product f h christmas_special retrieve_blueprint a b = ground arith
one_product f h christmas_special leaked_unsafe_product a b = ground arith
one_product f h product_tampering christmas_special a b = ground arith
one_product f h product_tampering product_tampering a b = refl
one_product f h product_tampering retrieve_blueprint a b = ground arith
one_product f h product_tampering leaked_unsafe_product a b = ground arith
one_product f h retrieve_blueprint christmas_special a b = ground arith
one_product f h retrieve_blueprint product_tampering a b = ground arith
one_product f h retrieve_blueprint retrieve_blueprint a b = refl
one_product f h retrieve_blueprint leaked_unsafe_product a b = ground arith
one_product f h leaked_unsafe_product christmas_special a b = ground arith
one_product f h leaked_unsafe_product product_tampering a b = ground arith
one_product f h leaked_unsafe_product retrieve_blueprint a b = ground arith
one_product f h leaked_unsafe_product leaked_unsafe_product a b = refl

apart :
    (f : SpecialProduct → Bool) (j k : SpecialProduct)
    → IsAtMostOne f
    → j ≢ k
    → (f j && f k) ≡ false
apart f j k h n = elim (Bool-cases (f j && f k)) [
  | inl e ↦ let (a, b) = and-eq-true (f j) (f k) e in absurd (n (h j k a b))
  | inr e ↦ e
]

pub product_one :
    (f : SpecialProduct → Bool)
    → IsAtMostOne f
    → not (ltb 1 (length (filter f special_products))) ≡ true
product_one f h = ground (
  arith,
  apart f christmas_special product_tampering h (cc),
  apart f christmas_special retrieve_blueprint h (cc),
  apart f christmas_special leaked_unsafe_product h (cc),
  apart f product_tampering retrieve_blueprint h (cc),
  apart f product_tampering leaked_unsafe_product h (cc),
  apart f retrieve_blueprint leaked_unsafe_product h (cc),
)

pub one_memory :
    (f : SpecialMemory → Bool)
    → not (ltb 1 (length (filter f special_memories))) ≡ true
    → IsAtMostOne f
one_memory f h meta_geo_stalking meta_geo_stalking a b = refl
one_memory f h meta_geo_stalking visual_geo_stalking a b = ground arith
one_memory f h visual_geo_stalking meta_geo_stalking a b = ground arith
one_memory f h visual_geo_stalking visual_geo_stalking a b = refl

pub memory_one :
    (f : SpecialMemory → Bool)
    → IsAtMostOne f
    → not (ltb 1 (length (filter f special_memories))) ≡ true
memory_one f h = elim (Bool-cases (f meta_geo_stalking)) [
  | inl a ↦ elim (Bool-cases (f visual_geo_stalking)) [
    | inl b ↦ let e = h meta_geo_stalking visual_geo_stalking a b in cc
    | inr b ↦ ground arith
  ]
  | inr a ↦ ground arith
]

only : {A : Type 0} (x y : A) → Memᴰ y (x ∷ []) → y ≡ x
only x y (Memᴰ.head e) = e
only x y (Memᴰ.tail m) = elim m [ ]

pub same_one :
    {A : Type 0} (p : A → Bool) (xs : List A) (x y : A)
    → HasOne p xs x
    → Memᴰ y xs
    → p y ≡ true
    → y ≡ x
same_one p xs x y o m h =
    only x y (subst (Memᴰ y) (filter_one p xs x o) ((filter_iff p xs y).1 (m, h)))

pub one-Mem : {A : Type 0} (p : A → Bool) (xs : List A) (x : A) → HasOne p xs x → Memᴰ x xs
one-Mem p xs x o =
    ((filter_iff p xs x).0 (subst (Memᴰ x) (sym (filter_one p xs x o)) (Memᴰ.head refl))).0
