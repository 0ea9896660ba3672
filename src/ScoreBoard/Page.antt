-- ===== src/ScoreBoard/Page.antt =====
-- The state of the score board's page and what changes it
-- (frontend/src/app/score-board/score-board.component.ts): the loaded data, the address bar and the
-- two messages of the socket. `sortBy` of lodash (helpers/challenge-sorting.ts) is a parameter. The
-- hints' texts, the scrolling to a highlighted challenge and the dialogs are left out.
pub mod UpToDate
pub mod Solved
use runc.Prelude.{
  ℕ, String, Bool, true, false, Option, none, some, List, [], ◌∷◌, map, ◌===◌, if◌then◌else◌,
}
use runc.ScoreBoard.{EnrichedChallenge, FilterSetting, default_filter_setting, filter_challenges}
use runc.ScoreBoard.Queries.{Params, from_query_params}

pub record Config : Type 0 where
  -- `challenges?.restrictToTutorialsFirst`
  pub restrict_to_tutorials_first : Option Bool

pub record ScoreBoardComponent : Type 0 where
  pub all_challenges : List EnrichedChallenge
  pub filtered_challenges : List EnrichedChallenge
  pub filter_setting : FilterSetting
  pub application_configuration : Option Config
  pub is_initialized : Bool

abbrev pub new_page : ScoreBoardComponent
new_page = record {
  all_challenges = [];
  filtered_challenges = [];
  filter_setting = default_filter_setting;
  application_configuration = none;
  is_initialized = false;
}

abbrev or_true : Option Bool → Bool
or_true none = true
or_true (some b) = b

-- `applicationConfiguration?.challenges?.restrictToTutorialsFirst ?? true`
abbrev restricts : Option Config → Bool
restricts none = true
restricts (some c) = or_true c.restrict_to_tutorials_first

-- The setting that the page filters by.
abbrev pub setting_of : ScoreBoardComponent → FilterSetting
setting_of p = record p.filter_setting {
  restrict_to_tutorial_challenges_first = restricts p.application_configuration;
}

abbrev pub with_solved : String → EnrichedChallenge → EnrichedChallenge
with_solved key c = if c.key === key then record c { solved = true } else c

abbrev pub with_status : String → ℕ → EnrichedChallenge → EnrichedChallenge
with_status key status c =
    if c.key === key then record c { coding_challenge_status = status } else c

-- What reaches the page: the answers to the requests of `ngOnInit`, with the challenges enriched;
-- the parameters of the address bar; and the messages of the socket, which may be empty.
pub data Event : Type 0 where
  loaded : List EnrichedChallenge → Config → Event
  query_params : Params → Event
  challenge_solved : Option String → Event
  code_challenge_solved : Option (String × ℕ) → Event

module _ (sort_by : List EnrichedChallenge → List EnrichedChallenge) where
  unfoldable pub filter_and_update_challenges : ScoreBoardComponent → ScoreBoardComponent
  filter_and_update_challenges p = record p {
    filtered_challenges = sort_by (filter_challenges p.all_challenges (setting_of p));
  }

  unfoldable pub on_challenge_solved_websocket :
      Option String → ScoreBoardComponent → ScoreBoardComponent
  on_challenge_solved_websocket none p = p
  on_challenge_solved_websocket (some key) p =
      filter_and_update_challenges
        (record p { all_challenges = map (with_solved key) p.all_challenges })

  unfoldable pub on_code_challenge_solved_websocket :
      Option (String × ℕ) → ScoreBoardComponent → ScoreBoardComponent
  on_code_challenge_solved_websocket none p = p
  on_code_challenge_solved_websocket (some (key, status)) p =
      filter_and_update_challenges
        (record p { all_challenges = map (with_status key status) p.all_challenges })

  unfoldable pub on_event : Event → ScoreBoardComponent → ScoreBoardComponent
  on_event (loaded challenges config) p =
      record (filter_and_update_challenges
        (record p { application_configuration = some config; all_challenges = challenges })) {
          is_initialized = true;
        }
  on_event (query_params q) p =
      filter_and_update_challenges (record p { filter_setting = from_query_params q })
  on_event (challenge_solved message) p = on_challenge_solved_websocket message p
  on_event (code_challenge_solved message) p = on_code_challenge_solved_websocket message p

  -- The page after some events.
  unfoldable pub after_events : List Event → ScoreBoardComponent → ScoreBoardComponent
  after_events [] p = p
  after_events (e ∷ es) p = after_events es (on_event e p)
