-- ===== src/ScoreBoard/Cards/Sums.antt =====
-- The overview by difficulty adds up to the totals shown beside it.
use runc.Prelude.{
  ℕ, ◌+◌, ◌≤◌, ◌≡◌, refl, ap, ◌∙◌, inl, inr, true, some, List, [], ◌∷◌, map, arith, ◌==◌,
  if◌then◌else◌, absurd_test, Bool-cases, All, includes,
}
use runc.ScoreBoard.{EnrichedChallenge}
use runc.ScoreBoard.Cards.{
  sum, DifficultySummary, initial_summaries, update_summary, add_challenge, add_challenges,
  calculate_difficulty_summaries, total_challenges, solved_challenges, solved_coding_challenges,
}

abbrev pub available_in : List DifficultySummary → ℕ
available_in ss = sum (map (λ s. s.available_challenges) ss)

abbrev pub solved_in : List DifficultySummary → ℕ
solved_in ss = sum (map (λ s. s.solved_challenges) ss)

abbrev difficulties : List DifficultySummary → List ℕ
difficulties ss = map (λ s. s.difficulty) ss

abbrev weight : EnrichedChallenge → ℕ
weight c = if c.has_coding_challenge then 3 else 1

abbrev gain : EnrichedChallenge → ℕ
gain c =
    if c.solved then 1 + (if c.has_coding_challenge then c.coding_challenge_status else 0) else 0

abbrev pub sum_of : (EnrichedChallenge → ℕ) → List EnrichedChallenge → ℕ
sum_of f [] = 0
sum_of f (c ∷ cs) = f c + sum_of f cs

-- Points of coding challenges whose own challenge is not solved.
abbrev pub early_points : List EnrichedChallenge → ℕ
early_points =
    sum_of
      λ c. if c.solved then 0 else if c.has_coding_challenge then c.coding_challenge_status else 0

abbrev Adds : EnrichedChallenge → List DifficultySummary → List DifficultySummary → Type 0
Adds c ss ts =
    (difficulties ts ≡ difficulties ss)
    × (available_in ts ≡ available_in ss + weight c)
    × (solved_in ts ≡ solved_in ss + gain c)

update_summary-Adds :
    (c : EnrichedChallenge) (ss : List DifficultySummary)
    → includes (difficulties ss) c.difficulty ≡ true
    → (ts : List DifficultySummary) × (update_summary c.difficulty (add_challenge c) ss ≡ some ts)
      × Adds c ss ts
update_summary-Adds c [] h = absurd_test h
update_summary-Adds c (s ∷ ss) h = elim (Bool-cases (s.difficulty == c.difficulty)) [
  | inl k ↦ (add_challenge c s ∷ ss, rw k refl, (refl, ground arith, ground arith))
  | inr k ↦
      let (ts, e, a) = update_summary-Adds c ss (rw k at h) in
      (
        s ∷ ts,
        rw (k, e) refl,
        (ap (λ (ns : List ℕ). s.difficulty ∷ ns) a.0, omega (arith, a.1), omega (arith, a.2)),
      )
]

-- Every difficulty is one of the six.
abbrev pub AreRated : List EnrichedChallenge → Type 0
AreRated = All λ c. (1 ≤ c.difficulty) × (c.difficulty ≤ 6)

add_all :
    (cs : List EnrichedChallenge) (ss : List DifficultySummary)
    → difficulties ss ≡ difficulties initial_summaries
    → AreRated cs
    → (ts : List DifficultySummary) × (add_challenges cs (some ss) ≡ some ts)
      × (available_in ts ≡ available_in ss + sum_of weight cs)
      × (solved_in ts ≡ solved_in ss + sum_of gain cs)
add_all [] ss d h = (ss, refl, omega arith, omega arith)
add_all (c ∷ cs) ss d ((a, b), hs) =
    let listed : includes (difficulties ss) c.difficulty ≡ true = rw d (ground arith) in
    let (ts, e, (td, ta, tsol)) = update_summary-Adds c ss listed in
    let (us, eu, ua, usol) = add_all cs ts (td ∙ d) hs in
    (us, ap (add_challenges cs) e ∙ eu, omega (arith, ua, ta), omega (arith, usol, tsol))

total_of_weights : (cs : List EnrichedChallenge) → sum_of weight cs ≡ total_challenges cs
unfolding total_challenges
total_of_weights [] = refl
total_of_weights (c ∷ cs) = ground (arith, total_of_weights cs)

solved_of_gains :
    (cs : List EnrichedChallenge) → sum_of gain cs + early_points cs ≡ solved_challenges cs
unfolding solved_challenges solved_coding_challenges
solved_of_gains [] = refl
solved_of_gains (c ∷ cs) = ground (arith, solved_of_gains cs)

-- Of challenges with difficulties from 1 to 6 there is an overview; what its rows have available
-- adds up to the total shown beside it, and what they have solved to the solved total, but for
-- the points of coding challenges whose own challenge is unsolved, which no row counts.
pub summaries_add_up :
    (cs : List EnrichedChallenge)
    → AreRated cs
    → (ss : List DifficultySummary) × (calculate_difficulty_summaries cs ≡ some ss)
      × (available_in ss ≡ total_challenges cs)
      × (solved_in ss + early_points cs ≡ solved_challenges cs)
unfolding calculate_difficulty_summaries
summaries_add_up cs h =
    let (ss, e, a, s) = add_all cs initial_summaries refl h in
    (ss, e, omega (arith, a, total_of_weights cs), omega (arith, s, solved_of_gains cs))
