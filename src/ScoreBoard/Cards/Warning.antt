-- ===== src/ScoreBoard/Cards/Warning.antt =====
-- The warning of the tutorial mode against the filter that it warns of.
use mathlib.Core.List.{Memᴰ}
use runc.Prelude.{◌≡◌, refl, ◌↔◌, inl, inr, Bool, true, false, some, List, arith, absurd_test}
use runc.ScoreBoard.{EnrichedChallenge, FilterSetting, filter_challenges}
use runc.ScoreBoard.Shown.{IsShown, IsTutorial}
use runc.ScoreBoard.Filters.{all_solved_iff}
use runc.ScoreBoard.Matching.{filter_challenges_iff}
use runc.ScoreBoard.Page.{Config}
use runc.ScoreBoard.Cards.{tutorial_mode_active}

-- The page's setting under a configuration that says whether tutorials come first.
abbrev pub under : Bool → FilterSetting → FilterSetting
under first f = record f { restrict_to_tutorial_challenges_first = first }

abbrev pub config_of : Bool → Config
config_of first = record { restrict_to_tutorials_first = some first }

-- Where the configuration says whether tutorials come first: under the warning every challenge
-- shown is a tutorial challenge, and without it the same challenges are shown as if tutorials did
-- not come first.
pub tutorial_mode_active_iff :
    (cs : List EnrichedChallenge) (f : FilterSetting) (first : Bool) (c : EnrichedChallenge)
    → (tutorial_mode_active (some (config_of first)) cs ≡ true
        → Memᴰ c (filter_challenges cs (under first f))
        → IsTutorial c)
      × (tutorial_mode_active (some (config_of first)) cs ≡ false
          → Memᴰ c (filter_challenges cs (under first f))
            ↔ Memᴰ c (filter_challenges cs (under false f)))
unfolding tutorial_mode_active
tutorial_mode_active_iff cs f false c = (λ w. absurd_test w, λ w. (λ m. m, λ m. m))
tutorial_mode_active_iff cs f true c =
    let left = all_solved_iff cs in
    let shown = filter_challenges_iff cs (under true f) c in
    let free = filter_challenges_iff cs (under false f) c in
    (
      λ w m. elim ((shown.0 m).tutorial refl) [
        | inl all ↦ absurd_test (rw (left.1 all) at w)
        | inr next ↦ next.0
      ],
      λ w. (
        λ m. free.1 (unrestricted (shown.0 m)),
        λ m. shown.1 (solved_ones (left.0 (ground arith)) (free.0 m)),
      ),
    )
  where
    unrestricted : IsShown cs (under true f) c → IsShown cs (under false f) c
    unrestricted s = record {
      listed = s.listed;
      category = s.category;
      difficulty = s.difficulty;
      tag = s.tag;
      status = s.status;
      enabled = s.enabled;
      query = s.query;
      tutorial = λ r. absurd_test r;
    }

    solved_ones :
        ((d : EnrichedChallenge) → Memᴰ d cs → IsTutorial d → d.solved ≡ true)
        → IsShown cs (under false f) c
        → IsShown cs (under true f) c
    solved_ones all s = record {
      listed = s.listed;
      category = s.category;
      difficulty = s.difficulty;
      tag = s.tag;
      status = s.status;
      enabled = s.enabled;
      query = s.query;
      tutorial = λ r. inl all;
    }
