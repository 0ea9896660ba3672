-- ===== src/ScoreBoard.antt =====
-- The score board of the frontend (frontend/src/app/score-board): `EnrichedChallenge`, the settings
-- of the filter (filter-settings/FilterSetting.ts) and `filterChallenges` with
-- `getCompleteChallengeStatus` (helpers/challenge-filtering.ts). The fields that only the page's
-- markup shows are left out. `toLowerCase` is read on ASCII letters.
pub mod Shown
pub mod Filters
pub mod Matching
pub mod Queries
pub mod Page
pub mod Cards
pub mod Categories
use Prim.Native.Char.{code}
use runc.Prelude.{
  ℕ, String, Bool, true, false, not, ◌&&◌, ◌||◌, Option, none, some, List, [], ◌∷◌, map, leb, ◌==◌,
  ◌===◌, if◌then◌else◌, filter, every, any,
}
use runc.Prelude.Int.{ℤ, pos, negsuc}
use runc.Prelude.Members.{includes_text}
use runc.Auth.Text.{lower}

pub record EnrichedChallenge : Type 0 where
  pub key : String
  pub name : String
  pub category : String
  pub tag_list : List String
  pub original_description : String
  pub difficulty : ℕ
  pub disabled_env : Option String
  pub solved : Bool
  pub tutorial_order : Option ℕ
  pub has_coding_challenge : Bool
  pub coding_challenge_status : ℕ

-- What the address bar holds is not checked against the declared types: a status is any text, a
-- difficulty any number.
pub record FilterSetting : Type 0 where
  pub categories : List String
  pub difficulties : List ℤ
  pub tags : List String
  pub status : Option String
  pub search_query : Option String
  pub show_disabled_challenges : Bool
  pub restrict_to_tutorial_challenges_first : Bool

abbrev pub default_filter_setting : FilterSetting
default_filter_setting = record {
  categories = [];
  difficulties = [];
  tags = [];
  status = none;
  search_query = none;
  show_disabled_challenges = true;
  restrict_to_tutorial_challenges_first = false;
}

abbrev pub get_complete_challenge_status : EnrichedChallenge → String
get_complete_challenge_status c =
    if not c.solved
    then "unsolved"
    else if not c.has_coding_challenge
    then (if c.solved then "solved" else "unsolved")
    else if c.coding_challenge_status == 2
    then "solved"
    else "partially-solved"

-- `Array.includes` on the difficulties, of which one may be negative
abbrev pub includes_ℤ : List ℤ → ℕ → Bool
includes_ℤ [] n = false
includes_ℤ (pos m ∷ xs) n = m == n || includes_ℤ xs n
includes_ℤ (negsuc m ∷ xs) n = includes_ℤ xs n

abbrev starts_ignoring_case : String → String → Bool
starts_ignoring_case s String.[] = true
starts_ignoring_case String.[] (String.◌∷◌ d p) = false
starts_ignoring_case (String.◌∷◌ c s) (String.◌∷◌ d p) =
    let rest = starts_ignoring_case s p in lower (code c) == lower (code d) && rest

-- `text.toLowerCase().includes(query.toLowerCase())`
abbrev pub includes_ignoring_case : String → String → Bool
includes_ignoring_case String.[] p = p === ""
includes_ignoring_case (String.◌∷◌ c s) p =
    let rest = includes_ignoring_case s p in starts_ignoring_case (String.◌∷◌ c s) p || rest

abbrev pub is_null : {A : Type 0} → Option A → Bool
is_null none = true
is_null (some a) = false

abbrev pub is_empty : {A : Type 0} → List A → Bool
is_empty [] = true
is_empty (x ∷ xs) = false

-- The seven filters, in the order of the chain.
abbrev pub of_category : FilterSetting → EnrichedChallenge → Bool
of_category f c = if is_empty f.categories then true else includes_text f.categories c.category

abbrev pub of_difficulty : FilterSetting → EnrichedChallenge → Bool
of_difficulty f c = if is_empty f.difficulties then true else includes_ℤ f.difficulties c.difficulty

abbrev pub of_tags : FilterSetting → EnrichedChallenge → Bool
of_tags f c = if is_empty f.tags then true else any (λ tag. includes_text f.tags tag) c.tag_list

abbrev pub of_status : FilterSetting → EnrichedChallenge → Bool
of_status f c = elim f.status [
  | none ↦ true
  | some status ↦ status === get_complete_challenge_status c
]

abbrev pub available : FilterSetting → EnrichedChallenge → Bool
available f c = if is_null c.disabled_env then true else f.show_disabled_challenges

abbrev pub searched : FilterSetting → EnrichedChallenge → Bool
searched f c = elim f.search_query [
  | none ↦ true
  | some query ↦
      includes_ignoring_case c.name query || includes_ignoring_case c.original_description query
]

-- `challenge.tutorialOrder !== null`
abbrev pub is_tutorial : EnrichedChallenge → Bool
is_tutorial c = not (is_null c.tutorial_order)

-- `Math.min(...ns)`; `none` is `Infinity`, the minimum of no number
abbrev pub min_of : List ℕ → Option ℕ
min_of [] = none
min_of (n ∷ ns) = elim (min_of ns) [ none ↦ some n | some m ↦ some (if leb n m then n else m) ]

abbrev pub at_most : ℕ → Option ℕ → Bool
at_most n none = true
at_most n (some m) = leb n m

abbrev pub unsolved_tutorials : List EnrichedChallenge → List EnrichedChallenge
unsolved_tutorials cs = filter (λ c. not c.solved) (filter is_tutorial cs)

abbrev pub of_tutorial : List EnrichedChallenge → FilterSetting → EnrichedChallenge → Bool
of_tutorial cs f c =
    if not f.restrict_to_tutorial_challenges_first
    then true
    else if every (λ d. d.solved) (filter is_tutorial cs)
    then true
    else if is_null c.tutorial_order
    then false
    else at_most c.difficulty (min_of (map (λ d. d.difficulty) (unsolved_tutorials cs)))

unfoldable pub filter_challenges : List EnrichedChallenge → FilterSetting → List EnrichedChallenge
filter_challenges cs f = filter (of_tutorial cs f) (
    filter (searched f) (
      filter (available f) (
        filter (of_status f)
          (filter (of_tags f) (filter (of_difficulty f) (filter (of_category f) cs))))))
