-- ===== src/ScoreBoard/Filters.antt =====
-- Each filter of `filterChallenges` against the part of the description that it decides.
use mathlib.Core.List.{Memᴰ}
use mathlib.Core.Path.{subst}
use runc.Prelude.{
  ℕ, ◌≤◌, String, ◌≡◌, refl, sym, ap, ◌∙◌, ◌↔◌, ◌⊎◌, inl, inr, Bool, true, false, not, ◌&&◌, ◌||◌,
  Option, none, some, List, [], ◌∷◌, map, arith, leb, ◌==◌, ◌===◌, ===_iff, ==_iff, if◌then◌else◌,
  and-eq-true, absurd_test, Bool-cases, Option-cases, filter, every, any,
}
use runc.Prelude.Int.{ℤ, pos, negsuc}
use runc.Prelude.Members.{includes_text, includes_text_iff, filter_iff, every_iff, any_iff}
use runc.ScoreBoard.{
  EnrichedChallenge, FilterSetting, get_complete_challenge_status, includes_ℤ, is_empty, is_null,
  of_tags, of_tutorial, is_tutorial, unsolved_tutorials, min_of, at_most,
}
use runc.ScoreBoard.Shown.{IsTutorial, HasStatus, IsNext}

pub includes_ℤ→Mem : (xs : List ℤ) (n : ℕ) → includes_ℤ xs n ≡ true → Memᴰ (pos n) xs
includes_ℤ→Mem [] n h = absurd_test h
includes_ℤ→Mem (pos m ∷ xs) n h = elim (Bool-cases (m == n)) [
  | inl k ↦ let e = (==_iff m n).0 k in Memᴰ.head (ap pos (sym e))
  | inr k ↦ Memᴰ.tail (includes_ℤ→Mem xs n (rw k at h))
]
includes_ℤ→Mem (negsuc m ∷ xs) n h = Memᴰ.tail (includes_ℤ→Mem xs n h)

pub Mem→includes_ℤ : (xs : List ℤ) (n : ℕ) → Memᴰ (pos n) xs → includes_ℤ xs n ≡ true
Mem→includes_ℤ [] n m = elim m [ ]
Mem→includes_ℤ (pos k ∷ xs) n (Memᴰ.head e) = let g : k ≡ n = cc in rw ((==_iff k n).1 g) refl
Mem→includes_ℤ (negsuc k ∷ xs) n (Memᴰ.head e) = ground arith
Mem→includes_ℤ (pos k ∷ xs) n (Memᴰ.tail m) = ground (arith, Mem→includes_ℤ xs n m)
Mem→includes_ℤ (negsuc k ∷ xs) n (Memᴰ.tail m) = Mem→includes_ℤ xs n m

-- A filter that an empty setting switches off.
pub when_set :
    {A B : Type 0} (xs : List A) (b : Bool)
    → ((b ≡ true) ↔ B)
    → ((if is_empty xs then true else b) ≡ true) ↔ ((xs ≡ []) ⊎ B)
when_set [] b q = (λ h. inl refl, λ h. refl)
when_set (x ∷ xs) b q = (λ h. inr (q.0 h), λ h. elim h [ inl e ↦ cc | inr r ↦ q.1 r ])

status-HasStatus : (c : EnrichedChallenge) → HasStatus c (get_complete_challenge_status c)
status-HasStatus c = elim (Bool-cases c.solved) [
  | inr open_one ↦ inl (open_one, rw open_one refl)
  | inl done ↦ elim (Bool-cases c.has_coding_challenge) [
    | inr none_here ↦ inr (done, inr (inl none_here, rw (none_here, done) refl))
    | inl coded ↦ elim (Bool-cases (c.coding_challenge_status == 2)) [
      | inl both ↦ inr (
        done,
        inr (inr ((==_iff c.coding_challenge_status 2).0 both), rw (done, coded, both) refl),
      )
      | inr part ↦ inr (done, inl (coded, ground arith, rw (done, coded, part) refl))
    ]
  ]
]

HasStatus→status :
    (c : EnrichedChallenge) (s : String) → HasStatus c s → s ≡ get_complete_challenge_status c
HasStatus→status c s h = ground arith

pub status_iff :
    (c : EnrichedChallenge) (s : String)
    → ((s === get_complete_challenge_status c) ≡ true) ↔ HasStatus c s
status_iff c s =
    let r = ===_iff s (get_complete_challenge_status c) in
    (λ h. subst (HasStatus c) (sym (r.0 h)) (status-HasStatus c), λ h. r.1 (HasStatus→status c s h))

pub is_tutorial_iff : (c : EnrichedChallenge) → (is_tutorial c ≡ true) ↔ IsTutorial c
is_tutorial_iff c = elim (Option-cases c.tutorial_order) [
  | inl e ↦ (λ h. absurd_tutorial e h, λ (n, g). ground arith)
  | inr (n, e) ↦ (λ h. (n, e), λ g. rw e refl)
]
  where
    absurd_tutorial : {C : Type 0} → c.tutorial_order ≡ none → is_tutorial c ≡ true → C
    absurd_tutorial e h = ground arith

-- The minimum, by what it bounds.
at_most_min :
    (n k : ℕ) (o : Option ℕ)
    → (let p : Option ℕ = elim o [ none ↦ some k | some m ↦ some (if leb k m then k else m) ] in
        at_most n p)
      ≡ (leb n k && at_most n o)
at_most_min n k none = ground arith
at_most_min n k (some m) = ground arith

pub min_of→le :
    (n : ℕ) (cs : List EnrichedChallenge)
    → at_most n (min_of (map (λ d. d.difficulty) cs)) ≡ true
    → (d : EnrichedChallenge) → Memᴰ d cs
    → n ≤ d.difficulty
min_of→le n [] h d m = elim m [ ]
min_of→le n (c ∷ cs) h d m =
    let o = min_of (map (λ d. d.difficulty) cs) in
    let (k, r) =
      and-eq-true (leb n c.difficulty) (at_most n o) (sym (at_most_min n c.difficulty o) ∙ h) in
    here k (min_of→le n cs r d) m
  where
    here :
        leb n c.difficulty ≡ true
        → (Memᴰ d cs → n ≤ d.difficulty)
        → Memᴰ d (c ∷ cs)
        → n ≤ d.difficulty
    here k r (Memᴰ.head e) = rw e (ground arith)
    here k r (Memᴰ.tail m) = r m

le→min_of :
    (n : ℕ) (cs : List EnrichedChallenge)
    → ((d : EnrichedChallenge) → Memᴰ d cs → n ≤ d.difficulty)
    → at_most n (min_of (map (λ d. d.difficulty) cs)) ≡ true
le→min_of n [] h = refl
le→min_of n (c ∷ cs) h =
    let o = min_of (map (λ d. d.difficulty) cs) in
    let here : leb n c.difficulty ≡ true = ground (arith, h c (Memᴰ.head refl)) in
    let rest = le→min_of n cs (λ d m. h d (Memᴰ.tail m)) in
    at_most_min n c.difficulty o ∙ rw (here, rest) refl

pub unsolved_iff :
    (cs : List EnrichedChallenge) (d : EnrichedChallenge)
    → Memᴰ d (unsolved_tutorials cs) ↔ (Memᴰ d cs × IsTutorial d × (d.solved ≡ false))
unsolved_iff cs d =
    let p = filter_iff (λ (c : EnrichedChallenge). not c.solved) (filter is_tutorial cs) d in
    let q = filter_iff is_tutorial cs d in
    (
      λ m. let (a, h) = p.0 m in let (b, k) = q.0 a in (b, (is_tutorial_iff d).0 k, ground arith),
      λ (m, k, h). p.1 (q.1 (m, (is_tutorial_iff d).1 k), ground arith),
    )

pub all_solved_iff :
    (cs : List EnrichedChallenge)
    → (every (λ d. d.solved) (filter is_tutorial cs) ≡ true)
      ↔ ((d : EnrichedChallenge) → Memᴰ d cs → IsTutorial d → d.solved ≡ true)
all_solved_iff cs =
    let e = every_iff (λ (d : EnrichedChallenge). d.solved) (filter is_tutorial cs) in
    (
      λ h d m k. e.0 h d ((filter_iff is_tutorial cs d).1 (m, (is_tutorial_iff d).1 k)),
      λ h.
          e.1 λ d m.
            let (a, k) = (filter_iff is_tutorial cs d).0 m in h d a ((is_tutorial_iff d).0 k),
    )

-- The last filter, of two tests and a bound.
next_iff :
    (restricted solved other easy : Bool) {P Q R : Type 0}
    → ((solved ≡ true) ↔ P)
    → ((not other ≡ true) ↔ Q)
    → ((easy ≡ true) ↔ R)
    → ((if not restricted then true else if solved then true else if other then false else easy)
        ≡ true)
      ↔ (restricted ≡ true → P ⊎ (Q × R))
next_iff false solved other easy p q r = (λ h k. absurd_test k, λ h. refl)
next_iff true true other easy p q r = (λ h k. inl (p.0 refl), λ h. refl)
next_iff true false true easy p q r =
    (λ h k. absurd_test h, λ h. elim (h refl) [ inl x ↦ p.1 x | inr y ↦ q.1 y.0 ])
next_iff true false false easy p q r = (
  λ h k. inr (q.0 refl, r.0 h),
  λ h. elim (h refl) [ inl x ↦ absurd_test (p.1 x) | inr y ↦ r.1 y.1 ],
)

pub tutorial_iff :
    (cs : List EnrichedChallenge) (f : FilterSetting) (c : EnrichedChallenge)
    → (of_tutorial cs f c ≡ true) ↔ (f.restrict_to_tutorial_challenges_first ≡ true → IsNext cs c)
tutorial_iff cs f c =
    next_iff f.restrict_to_tutorial_challenges_first
      (every (λ (d : EnrichedChallenge). d.solved) (filter is_tutorial cs))
      (is_null c.tutorial_order)
      (at_most c.difficulty
        (min_of (map (λ (d : EnrichedChallenge). d.difficulty) (unsolved_tutorials cs))))
      (all_solved_iff cs) (is_tutorial_iff c)
      (
        λ h d m k o.
            min_of→le c.difficulty (unsolved_tutorials cs) h d ((unsolved_iff cs d).1 (m, k, o)),
        λ h.
            le→min_of c.difficulty (unsolved_tutorials cs)
              λ d m. let (a, k, o) = (unsolved_iff cs d).0 m in h d a k o,
      )

-- A filter that `null` switches off.
pub when_some :
    (o : Option String) (p : String → Bool) {P : String → Type 0}
    → ((s : String) → (p s ≡ true) ↔ P s)
    → ((let b : Bool = elim o [ none ↦ true | some s ↦ p s ] in b) ≡ true)
      ↔ ((s : String) → o ≡ some s → P s)
when_some none p q = (λ h s e. absurd (cc), λ h. refl)
when_some (some s) p q =
    (λ h t e. let g : s ≡ t = cc in (q t).0 (rw (← g) h), λ h. (q s).1 (h s refl))

pub or_iff : (a b : Bool) → ((a || b) ≡ true) ↔ ((a ≡ true) ⊎ (b ≡ true))
or_iff true b = (λ h. inl refl, λ h. refl)
or_iff false b = (λ h. inr h, λ h. elim h [ inl k ↦ absurd_test k | inr k ↦ k ])

pub enabled_iff :
    (o : Option String) (b : Bool)
    → ((if is_null o then true else b) ≡ true) ↔ ((o ≡ none) ⊎ (b ≡ true))
enabled_iff none b = (λ h. inl refl, λ h. refl)
enabled_iff (some s) b = (λ h. inr h, λ h. elim h [ inl e ↦ absurd (cc) | inr k ↦ k ])

pub tag_iff :
    (f : FilterSetting) (c : EnrichedChallenge)
    → (of_tags f c ≡ true) ↔ ((f.tags ≡ []) ⊎ ((t : String) × Memᴰ t c.tag_list × Memᴰ t f.tags))
tag_iff f c =
    let a = any_iff (λ tag. includes_text f.tags tag) c.tag_list in
    when_set f.tags (any (λ tag. includes_text f.tags tag) c.tag_list) (
      λ h. let (t, m, k) = a.0 h in (t, m, (includes_text_iff f.tags t).0 k),
      λ (t, m, k). a.1 (t, m, (includes_text_iff f.tags t).1 k),
    )
