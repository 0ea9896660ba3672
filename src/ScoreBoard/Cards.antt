-- ===== src/ScoreBoard/Cards.antt =====
-- The cards above the score board (frontend/src/app/score-board/components): the counts of hacking
-- and coding challenges, the overview by difficulty, the warnings, and the text that sums up the
-- chosen difficulties.
pub mod Sums
pub mod Groups
pub mod Warning
use Prim.Native.String
use runc.Prelude.{
  ℕ, ◌+◌, ◌-◌, ◌*◌, String, Bool, true, false, not, Option, none, some, List, [], ◌∷◌, ◌++◌, map,
  ltb, ◌==◌, ◌===◌, if◌then◌else◌, length, filter, every, concat_texts,
}
use runc.Prelude.Int.{pos}
use runc.ScoreBoard.{EnrichedChallenge, FilterSetting, is_tutorial, is_null}
use runc.ScoreBoard.Page.{Config}
use runc.Prelude.Numerals.{to_string}

-- `ns.reduce((a, b) => a + b, 0)`
abbrev pub sum : List ℕ → ℕ
sum [] = 0
sum (n ∷ ns) = n + sum ns

-- HackingChallengeProgressScoreCardComponent
unfoldable pub solved_hacking_challenges : List EnrichedChallenge → ℕ
solved_hacking_challenges cs = length (filter (λ c. c.solved) cs)

-- CodingChallengeProgressScoreCardComponent
unfoldable pub solved_coding_challenges : List EnrichedChallenge → ℕ
solved_coding_challenges cs =
    sum (map (λ c. c.coding_challenge_status) (filter (λ c. c.has_coding_challenge) cs))

unfoldable pub available_coding_challenges : List EnrichedChallenge → ℕ
available_coding_challenges cs = length (filter (λ c. c.has_coding_challenge) cs) * 2

pub record DifficultySummary : Type 0 where
  pub difficulty : ℕ
  pub available_challenges : ℕ
  pub solved_challenges : ℕ

abbrev empty_summary : ℕ → DifficultySummary
empty_summary d = record { difficulty = d; available_challenges = 0; solved_challenges = 0 }

abbrev pub initial_summaries : List DifficultySummary
initial_summaries = map empty_summary (1 ∷ 2 ∷ 3 ∷ 4 ∷ 5 ∷ 6 ∷ [])

-- `summariesLookup[challenge.difficulty]`: of another difficulty there is none, and the loop throws.
abbrev pub update_summary :
    ℕ
    → (DifficultySummary → DifficultySummary)
    → List DifficultySummary
    → Option (List DifficultySummary)
update_summary d f [] = none
update_summary d f (s ∷ ss) =
    let rest = update_summary d f ss in
    if s.difficulty == d
    then some (f s ∷ ss)
    else elim rest [ none ↦ none | some ts ↦ some (s ∷ ts) ]

abbrev pub add_challenge : EnrichedChallenge → DifficultySummary → DifficultySummary
add_challenge c s = record s {
  available_challenges = s.available_challenges + (if c.has_coding_challenge then 3 else 1);
  solved_challenges =
      if c.solved
      then s.solved_challenges
        + 1
        + (if c.has_coding_challenge then c.coding_challenge_status else 0)
      else s.solved_challenges;
}

abbrev pub add_challenges :
    List EnrichedChallenge → Option (List DifficultySummary) → Option (List DifficultySummary)
add_challenges [] o = o
add_challenges (c ∷ cs) none = none
add_challenges (c ∷ cs) (some ss) =
    add_challenges cs (update_summary c.difficulty (add_challenge c) ss)

-- The lookup's values come in the order of their keys, which is the one that they are sorted by.
unfoldable pub calculate_difficulty_summaries :
    List EnrichedChallenge → Option (List DifficultySummary)
calculate_difficulty_summaries cs = add_challenges cs (some initial_summaries)

-- `totalChallenges` and `solvedChallenges` of DifficultyOverviewScoreCardComponent
unfoldable pub total_challenges : List EnrichedChallenge → ℕ
total_challenges cs = length cs + length (filter (λ c. c.has_coding_challenge) cs) * 2

unfoldable pub solved_challenges : List EnrichedChallenge → ℕ
unfolding solved_coding_challenges
solved_challenges cs = length (filter (λ c. c.solved) cs) + solved_coding_challenges cs

abbrev is_true : Option Bool → Bool
is_true none = false
is_true (some b) = b

abbrev restricted : Option Config → Bool
restricted none = false
restricted (some c) = is_true c.restrict_to_tutorials_first

-- `tutorialModeActive` of TutorialModeWarningComponent
unfoldable pub tutorial_mode_active : Option Config → List EnrichedChallenge → Bool
tutorial_mode_active config cs =
    if not (restricted config) then false else not (every (λ c. c.solved) (filter is_tutorial cs))

pub record UnavailableWarning : Type 0 where
  pub number_of_disabled_challenges : ℕ
  pub disabled_because_of_env : Option String
  pub disabled_on_windows : Bool
  pub number_of_disabled_challenges_on_windows : ℕ

abbrev is_windows : Option String → Bool
is_windows none = false
is_windows (some env) = env === "Windows"

abbrev first_env : List EnrichedChallenge → Option String → Option String
first_env [] before = before
first_env (c ∷ cs) before = c.disabled_env

-- `ngOnChanges` of ChallengesUnavailableWarningComponent: what is not set anew stays.
unfoldable pub unavailable_warning :
    List EnrichedChallenge → UnavailableWarning → UnavailableWarning
unavailable_warning cs w =
    let disabled = filter (λ (c : EnrichedChallenge). not (is_null c.disabled_env)) cs in
    let windows = filter (λ (c : EnrichedChallenge). is_windows c.disabled_env) disabled in
    record {
      number_of_disabled_challenges = length disabled;
      disabled_because_of_env = first_env disabled w.disabled_because_of_env;
      disabled_on_windows = if ltb 0 (length windows) then true else w.disabled_on_windows;
      number_of_disabled_challenges_on_windows =
          if ltb 0 (length windows)
          then length windows
          else w.number_of_disabled_challenges_on_windows;
    }

-- `toggleShowDisabledChallenges`: the setting kept and emitted
unfoldable pub toggle_show_disabled_challenges : FilterSetting → FilterSetting
toggle_show_disabled_challenges f = record f {
  show_disabled_challenges = not f.show_disabled_challenges;
}

pub record DifficultyGroup : Type 0 where
  pub start : ℕ
  pub end : ℕ

-- The loop of `breakDifficultiesIntoNeighboringGroups` from the second round on, and the last push.
unfoldable pub break_from : DifficultyGroup → List ℕ → List DifficultyGroup
break_from g [] = g ∷ []
break_from g (d ∷ ds) =
    let extended = break_from (record g { end = d }) ds in
    let pushed = g ∷ break_from record { start = d; end = d } ds in
    if d == g.end + 1 then extended else pushed

-- `transform` leaves early when no difficulty is chosen, so a first round is made.
unfoldable pub break_difficulties_into_neighboring_groups : ℕ → List ℕ → List DifficultyGroup
break_difficulties_into_neighboring_groups d ds = break_from record { start = d; end = d } ds

abbrev group_text : DifficultyGroup → String
group_text g =
    if g.start == g.end
    then to_string (pos g.start)
    else concat_texts (to_string (pos g.start) ∷ " - " ∷ to_string (pos g.end) ∷ [])

abbrev join_groups : List String → String
join_groups [] = ""
join_groups (x ∷ []) = x
join_groups (x ∷ y ∷ ys) = String.◌++◌ x (String.◌++◌ ", " (join_groups (y ∷ ys)))

unfoldable pub convert_difficulty_groups_to_string : List DifficultyGroup → String
unfolding to_string
convert_difficulty_groups_to_string gs = join_groups (map group_text gs)
