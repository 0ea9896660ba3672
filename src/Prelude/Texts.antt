-- ===== src/Prelude/Texts.antt =====
-- The tests of lib/utils.ts on texts, by clauses on their characters.
use Prim.Native.Char.{Char, code}
use Prim.Native.String
use Prim.Native.String.append
use Prim.Native.String.{String}
use mathlib.Core.Path.{◌≡◌, refl}
use mathlib.Core.Bool.{Bool, true, false, ◌&&◌, ◌||◌}
use native.Mathlib.Omega.{arith}
use runc.Prelude.Tests.{◌==◌, ◌===◌, ===_iff, if◌then◌else◌, Bool-cases, and-eq-true}
use mathlib.Core.Logic.{inl, inr}

-- `str.startsWith(prefix)`, `str.indexOf(prefix) === 0`
unfoldable pub starts_with : String → String → Bool
starts_with s String.[] = true
starts_with String.[] (String.◌∷◌ d p) = false
starts_with (String.◌∷◌ c s) (String.◌∷◌ d p) =
    let rest = starts_with s p in code c == code d && rest

-- `str.includes(element)` of an element that is not empty
unfoldable pub contains : String → String → Bool
contains String.[] p = false
contains (String.◌∷◌ c s) p = let rest = contains s p in starts_with (String.◌∷◌ c s) p || rest

-- `endsWith`, of a suffix that is not empty
unfoldable pub ends_with : String → String → Bool
ends_with String.[] p = false
ends_with (String.◌∷◌ c s) p = let rest = ends_with s p in String.◌∷◌ c s === p || rest

-- `str.substring(0, str.indexOf(element))`, the whole text if the element is not there
unfoldable pub before : String → String → String
before String.[] p = String.[]
before (String.◌∷◌ c s) p =
    let rest = before s p in if starts_with (String.◌∷◌ c s) p then String.[] else String.◌∷◌ c rest

starts-before : (s p q : String) → starts_with (before s q) p ≡ true → starts_with s p ≡ true
unfolding before starts_with
starts-before s String.[] q h = refl
starts-before String.[] (String.◌∷◌ d p) q h = cc
starts-before (String.◌∷◌ c s) (String.◌∷◌ d p) q h =
    elim (Bool-cases (starts_with (String.◌∷◌ c s) q)) [
      | inl k ↦ let g = rw k at h in cc
      | inr k ↦
          let g : (code c == code d && starts_with (before s q) p) ≡ true = rw k at h in
          let (m, n) = and-eq-true (code c == code d) (starts_with (before s q) p) g in
          rw (m, starts-before s p q n) refl
    ]

-- The part before an element does not contain it.
pub contains-before : (s p : String) → contains (before s p) p ≡ false
unfolding contains before
contains-before String.[] p = refl
contains-before (String.◌∷◌ c s) p = elim (Bool-cases (starts_with (String.◌∷◌ c s) p)) [
  | inl k ↦ rw k refl
  | inr k ↦ elim (Bool-cases (starts_with (String.◌∷◌ c (before s p)) p)) [
    | inl m ↦
        let back : starts_with (before (String.◌∷◌ c s) p) p ≡ true = rw (k, before) m in
        let n = starts-before (String.◌∷◌ c s) p p back in ground arith
    | inr m ↦ rw k (rw m (contains-before s p))
  ]
]

pub starts-contains :
    (c : Char) (s p : String)
    → starts_with (String.◌∷◌ c s) p ≡ true
    → contains (String.◌∷◌ c s) p ≡ true
unfolding contains
starts-contains c s p h = ground arith

-- A text that ends with an element.
pub ends_with-append :
    (s : String) (c : Char) (t p : String)
    → ends_with (String.◌∷◌ c t) p ≡ true
    → ends_with (String.◌++◌ s (String.◌∷◌ c t)) p ≡ true
unfolding ends_with
ends_with-append String.[] c t p h = rw (append.nil (String.◌∷◌ c t)) h
ends_with-append (String.◌∷◌ d s) c t p h =
    rw (append.cons d s (String.◌∷◌ c t)) (ground (arith, ends_with-append s c t p h))

pub cons-ne-empty : (c : Char) (s : String) → (String.◌∷◌ c s === "") ≡ false
cons-ne-empty c s = elim (Bool-cases (String.◌∷◌ c s === "")) [
  | inl h ↦ let e : String.◌∷◌ c s ≡ String.[] = (===_iff (String.◌∷◌ c s) "").0 h in cc
  | inr h ↦ h
]
