-- ===== src/ScoreBoard/Cards/Groups.antt =====
-- The groups of neighbouring difficulties, `breakDifficultiesIntoNeighboringGroups`.
use mathlib.Core.List.{append_assoc}
use mathlib.Core.Path.{subst}
use runc.Prelude.{
  ℕ, zero, suc, ◌+◌, ◌-◌, ◌≤◌, ◌≡◌, refl, sym, ap, ◌∙◌, ◌≢◌, inl, inr, List, [], ◌∷◌, ◌++◌, arith,
  ◌==◌, ==_iff, absurd_test, Bool-cases, count,
}
use runc.ScoreBoard.Cards.{DifficultyGroup, break_from, break_difficulties_into_neighboring_groups}

-- `count` numbers from `first` on.
abbrev pub numbers_from : ℕ → ℕ → List ℕ
numbers_from first zero = []
numbers_from first (suc count) = first ∷ numbers_from (suc first) count

-- What a group stands for: its first number, its last and all between them.
abbrev pub numbers_of : DifficultyGroup → List ℕ
numbers_of g = numbers_from g.start (g.end + 1 - g.start)

abbrev pub spell_out : List DifficultyGroup → List ℕ
spell_out [] = []
spell_out (g ∷ gs) = numbers_of g ++ spell_out gs

-- No two groups in a row could be one.
abbrev pub AreApart : List DifficultyGroup → Type 0
AreApart [] = Unit
AreApart (g ∷ []) = Unit
AreApart (g ∷ h ∷ gs) = (h.start ≢ g.end + 1) × AreApart (h ∷ gs)

numbers_from_last :
    (first n : ℕ) → numbers_from first (suc n) ≡ numbers_from first n ++ (first + n) ∷ []
numbers_from_last first zero = ground arith
numbers_from_last first (suc n) =
    let e : suc first + n ≡ first + suc n = omega arith in
    ap (λ (xs : List ℕ). first ∷ xs)
      (numbers_from_last (suc first) n ∙ ap (λ m. numbers_from (suc first) n ++ m ∷ []) e)

extend :
    (g : DifficultyGroup) (d : ℕ)
    → g.start ≤ g.end
    → d ≡ g.end + 1
    → numbers_of (record g { end = d }) ≡ numbers_of g ++ d ∷ []
extend g d h q =
    let e : d + 1 - g.start ≡ suc (g.end + 1 - g.start) = omega arith in
    let k : g.start + (g.end + 1 - g.start) ≡ d = omega arith in
    ap (numbers_from g.start) e
    ∙ numbers_from_last g.start (g.end + 1 - g.start)
    ∙ ap (λ m. numbers_of g ++ m ∷ []) k

single : (d : ℕ) → numbers_of record { start = d; end = d } ≡ d ∷ []
single d = let e : d + 1 - d ≡ 1 = omega arith in ap (numbers_from d) e

spell_out_from :
    (g : DifficultyGroup) (ds : List ℕ)
    → g.start ≤ g.end
    → spell_out (break_from g ds) ≡ numbers_of g ++ ds
unfolding break_from
spell_out_from g [] h = refl
spell_out_from g (d ∷ ds) h = elim (Bool-cases (d == g.end + 1)) [
  | inl k ↦
      let e : d ≡ g.end + 1 = (==_iff d (g.end + 1)).0 k in
      let ih = spell_out_from (record g { end = d }) ds (omega arith) in
      rw k (
        ih
        ∙ ap (λ (ns : List ℕ). ns ++ ds) (extend g d h e)
        ∙ append_assoc (numbers_of g) (d ∷ []) ds)
  | inr k ↦
      let ih = spell_out_from record { start = d; end = d } ds (omega arith) in
      let one = ih ∙ ap (λ (ns : List ℕ). ns ++ ds) (single d) in
      rw k (ap (λ (ns : List ℕ). numbers_of g ++ ns) one)
]

-- The first group of what is left begins where the group so far does.
begins :
    (g : DifficultyGroup) (ds : List ℕ)
    → (h : DifficultyGroup) × (hs : List DifficultyGroup) × (break_from g ds ≡ h ∷ hs)
      × (h.start ≡ g.start)
unfolding break_from
begins g [] = (g, [], refl, refl)
begins g (d ∷ ds) = elim (Bool-cases (d == g.end + 1)) [
  | inl k ↦ let (h, hs, e, s) = begins (record g { end = d }) ds in (h, hs, rw k e, s)
  | inr k ↦ (g, break_from record { start = d; end = d } ds, rw k refl, refl)
]

apart_from : (g : DifficultyGroup) (ds : List ℕ) → AreApart (break_from g ds)
unfolding break_from
apart_from g [] = tt
apart_from g (d ∷ ds) = elim (Bool-cases (d == g.end + 1)) [
  | inl k ↦ rw k (apart_from (record g { end = d }) ds)
  | inr k ↦
      let (h, hs, e, s) = begins record { start = d; end = d } ds in
      let rest : AreApart (h ∷ hs) =
        subst AreApart e (apart_from record { start = d; end = d } ds) in
      let gap : h.start ≢ g.end + 1 =
        λ q. absurd_test (sym k ∙ (==_iff d (g.end + 1)).1 (sym s ∙ q)) in
      let both : AreApart (g ∷ h ∷ hs) = (gap, rest) in
      rw k (subst (λ (gs : List DifficultyGroup). AreApart (g ∷ gs)) (sym e) both)
]

-- The groups spell out the difficulties that they were made of, in their order, and no two
-- groups in a row could be one.
pub break_difficulties_lem :
    (d : ℕ) (ds : List ℕ)
    → (spell_out (break_difficulties_into_neighboring_groups d ds) ≡ d ∷ ds)
      × AreApart (break_difficulties_into_neighboring_groups d ds)
unfolding break_difficulties_into_neighboring_groups
break_difficulties_lem d ds =
    let g : DifficultyGroup = record { start = d; end = d } in
    (spell_out_from g ds (omega arith) ∙ ap (λ (ns : List ℕ). ns ++ ds) (single d), apart_from g ds)
