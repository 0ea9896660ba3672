-- ===== src/Coding/Snippets/Selection.antt =====
-- routes/vulnCodeSnippet.ts: when a selection of lines is right.
use mathlib.Core.List.{Memᴰ}
use runc.Prelude.{
  ℕ, suc, ◌≤◌, ◌≡◌, refl, sym, ◌↔◌, inl, inr, true, false, not, some, List, [], ◌∷◌, ◌++◌, arith,
  ◌==◌, ==_iff, if◌then◌else◌, and-eq-true, Bool-cases, length, filter, every, All, includes,
}
use runc.Coding.Snippets.{get_verdict}

includes→Mem : (xs : List ℕ) (n : ℕ) → includes xs n ≡ true → Memᴰ n xs
includes→Mem [] n h = cc
includes→Mem (x ∷ xs) n h = elim (Bool-cases (x == n)) [
  | inl same ↦ Memᴰ.head (sym ((==_iff x n).0 same))
  | inr other ↦ Memᴰ.tail (includes→Mem xs n (rw other at h))
]

Mem→includes : (xs : List ℕ) (n : ℕ) → Memᴰ n xs → includes xs n ≡ true
Mem→includes [] n h = elim h [ ]
Mem→includes (x ∷ xs) n (Memᴰ.head e) = ground (arith, e)
Mem→includes (x ∷ xs) n (Memᴰ.tail m) = ground (arith, Mem→includes xs n m)

-- Every line of the first list is in the second.
abbrev pub Covers : List ℕ → List ℕ → Type 0
Covers s v = All (λ e. Memᴰ e s) v

every→Covers : (s v : List ℕ) → every (λ e. includes s e) v ≡ true → Covers s v
every→Covers s [] h = tt
every→Covers s (e ∷ v) h =
    let (here, later) = and-eq-true (includes s e) (every (λ x. includes s x) v) h in
    (includes→Mem s e here, every→Covers s v later)

Covers→every : (s v : List ℕ) → Covers s v → every (λ e. includes s e) v ≡ true
Covers→every s [] h = refl
Covers→every s (e ∷ v) (here, later) = rw (Mem→includes s e here) (Covers→every s v later)

none_left→Covers :
    (okay s : List ℕ) → (length (filter (λ x. not (includes okay x)) s) == 0) ≡ true → Covers okay s
none_left→Covers okay [] h = tt
none_left→Covers okay (x ∷ s) h = elim (Bool-cases (includes okay x)) [
  | inl yes_ok ↦ (includes→Mem okay x yes_ok, none_left→Covers okay s (rw yes_ok at h))
  | inr not_ok ↦ absurd (more (rw not_ok at h))
]
  where
    more : (suc (length (filter (λ x. not (includes okay x)) s)) == 0) ≡ true → ⊥
    more e = ground arith

Covers→none_left :
    (okay s : List ℕ) → Covers okay s → (length (filter (λ x. not (includes okay x)) s) == 0) ≡ true
Covers→none_left okay [] h = refl
Covers→none_left okay (x ∷ s) (here, later) =
    rw (Mem→includes okay x here) (Covers→none_left okay s later)

-- The list without the first occurrence of a number.
drop_one : ℕ → List ℕ → List ℕ
drop_one n [] = []
drop_one n (x ∷ xs) = if x == n then xs else x ∷ drop_one n xs

length-drop_one :
    (n : ℕ) (xs : List ℕ) → includes xs n ≡ true → suc (length (drop_one n xs)) ≡ length xs
unfolding drop_one
length-drop_one n [] h = cc
length-drop_one n (x ∷ xs) h = ground (arith, length-drop_one n xs)

includes-drop_one :
    (n m : ℕ) (xs : List ℕ)
    → (n == m) ≡ false
    → includes xs m ≡ true
    → includes (drop_one n xs) m ≡ true
unfolding drop_one
includes-drop_one n m [] ne h = h
includes-drop_one n m (x ∷ xs) ne h = ground (arith, includes-drop_one n m xs ne)

every-drop_one :
    (n : ℕ) (s v : List ℕ)
    → includes v n ≡ false
    → every (λ e. includes s e) v ≡ true
    → every (λ e. includes (drop_one n s) e) v ≡ true
every-drop_one n s [] h k = refl
every-drop_one n s (m ∷ v) h k =
    let (here, later) = and-eq-true (includes s m) (every (λ x. includes s x) v) k in
    let apart : (n == m) ≡ false = ground arith in
    rw (includes-drop_one n m s apart here) (every-drop_one n s v (ground arith) later)

-- No line is listed twice.
abbrev pub IsDistinct : List ℕ → Type 0
IsDistinct [] = Unit
IsDistinct (x ∷ xs) = (includes xs x ≡ false) × IsDistinct xs

-- The pigeonhole: a list that holds all of some distinct numbers is as long as they are many.
length-le_of_every :
    (s v : List ℕ) → IsDistinct v → every (λ e. includes s e) v ≡ true → length v ≤ length s
length-le_of_every s [] d h = omega arith
length-le_of_every s (e ∷ v) (new, d) h =
    let (here, later) = and-eq-true (includes s e) (every (λ x. includes s x) v) h in
    let ih : length v ≤ length (drop_one e s) =
      length-le_of_every (drop_one e s) v d (every-drop_one e s v new later) in
    omega (arith, length-drop_one e s here)

-- For distinct vulnerable lines, a selection is right exactly when it holds all of them and, beside
-- them, only neutral lines. The early return on the lengths excludes no right selection.
pub get_verdict_iff :
    (vuln neutral selected : List ℕ)
    → IsDistinct vuln
    → (get_verdict vuln neutral (some selected) ≡ true)
      ↔ (Covers selected vuln × Covers (vuln ++ neutral) selected)
unfolding get_verdict
get_verdict_iff vuln neutral selected d = (
  λ h.
      let (a, b) = split h in
      (every→Covers selected vuln a, none_left→Covers (vuln ++ neutral) selected b),
  λ (a, b). join (Covers→every selected vuln a) (Covers→none_left (vuln ++ neutral) selected b),
)
  where
    split :
        get_verdict vuln neutral (some selected) ≡ true
        → (every (λ e. includes selected e) vuln ≡ true)
          × ((length (filter (λ x. not (includes (vuln ++ neutral) x)) selected) == 0) ≡ true)
    split h = ground arith

    join :
        every (λ e. includes selected e) vuln ≡ true
        → (length (filter (λ x. not (includes (vuln ++ neutral) x)) selected) == 0) ≡ true
        → get_verdict vuln neutral (some selected) ≡ true
    join a b = ground (arith, length-le_of_every selected vuln d a)
