-- ===== src/ScoreBoard/Shown.antt =====
-- Which challenges the score board shows under a filter, described without the code's tests.
use mathlib.Core.List.{Memᴰ}
use runc.Prelude.{ℕ, ◌≤◌, String, ◌≡◌, ◌≢◌, ◌⊎◌, true, false, none, some, List, []}
use runc.Prelude.Int.{pos}
use runc.ScoreBoard.{EnrichedChallenge, FilterSetting, includes_ignoring_case}

abbrev pub IsTutorial : EnrichedChallenge → Type 0
IsTutorial c = (n : ℕ) × (c.tutorial_order ≡ some n)

-- Solved to the end: the coding challenge too, if there is one.
abbrev pub HasStatus : EnrichedChallenge → String → Type 0
HasStatus c s =
    ((c.solved ≡ false) × (s ≡ "unsolved"))
    ⊎ ((c.solved ≡ true)
        × (((c.has_coding_challenge ≡ true)
              × (c.coding_challenge_status ≢ 2)
              × (s ≡ "partially-solved"))
            ⊎ (((c.has_coding_challenge ≡ false) ⊎ (c.coding_challenge_status ≡ 2))
                × (s ≡ "solved"))))

abbrev pub Mentions : EnrichedChallenge → String → Type 0
Mentions c q =
    (includes_ignoring_case c.name q ≡ true)
    ⊎ (includes_ignoring_case c.original_description q ≡ true)

-- While a tutorial challenge is unsolved: a tutorial challenge no harder than any unsolved one.
abbrev pub IsNext : List EnrichedChallenge → EnrichedChallenge → Type 0
IsNext cs c =
    ((d : EnrichedChallenge) → Memᴰ d cs → IsTutorial d → d.solved ≡ true)
    ⊎ (IsTutorial c
        × ((d : EnrichedChallenge)
            → Memᴰ d cs
            → IsTutorial d
            → d.solved ≡ false
            → c.difficulty ≤ d.difficulty))

pub record IsShown (cs : List EnrichedChallenge) (f : FilterSetting) (c : EnrichedChallenge)
    : Type 0 where
  pub listed : Memᴰ c cs
  pub category : (f.categories ≡ []) ⊎ Memᴰ c.category f.categories
  pub difficulty : (f.difficulties ≡ []) ⊎ Memᴰ (pos c.difficulty) f.difficulties
  pub tag : (f.tags ≡ []) ⊎ ((t : String) × Memᴰ t c.tag_list × Memᴰ t f.tags)
  pub status : (s : String) → f.status ≡ some s → HasStatus c s
  pub enabled : (c.disabled_env ≡ none) ⊎ (f.show_disabled_challenges ≡ true)
  pub query : (q : String) → f.search_query ≡ some q → Mentions c q
  pub tutorial : f.restrict_to_tutorial_challenges_first ≡ true → IsNext cs c
