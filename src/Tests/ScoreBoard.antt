-- ===== src/Tests/ScoreBoard.antt =====
-- The score board on concrete challenges and settings.
use mathlib.Core.List.{Memᴰ}
use runc.Prelude.{◌+◌, ◌≤◌, ◌≡◌, refl, ◌↔◌, true, false, none, some, List, [], ◌∷◌, arith}
use runc.Prelude.Int.{pos, negsuc}
use runc.Prelude.Numerals.{to_string}
use runc.Auth.Text.{lower}
use runc.ScoreBoard.{EnrichedChallenge, FilterSetting, default_filter_setting, filter_challenges}
use runc.ScoreBoard.Shown.{IsTutorial, IsShown}
use runc.ScoreBoard.Matching.{filter_challenges_iff, tutorials_go_on}
use runc.Prelude.Commas.{split_comma, join_comma}
use runc.ScoreBoard.Queries.{from_query_params, to_query_params, parse_int, numbers}
use runc.ScoreBoard.Queries.RoundTrip.{IsCarried, from_query_params-to_query_params}
use runc.ScoreBoard.Page.{
  Event, loaded, challenge_solved, code_challenge_solved, new_page, filter_and_update_challenges,
  on_challenge_solved_websocket, on_code_challenge_solved_websocket, on_event, after_events,
}
use runc.ScoreBoard.Page.UpToDate.{IsUpToDate, after_events-IsUpToDate}
use runc.ScoreBoard.Page.Solved.{challenge_solved_stays}
use runc.ScoreBoard.Cards.{
  DifficultySummary, calculate_difficulty_summaries, total_challenges, solved_challenges,
  solved_coding_challenges, break_from, break_difficulties_into_neighboring_groups,
  convert_difficulty_groups_to_string,
}
use runc.ScoreBoard.Cards.Sums.{available_in, solved_in, early_points, summaries_add_up}

abbrev score_board : EnrichedChallenge
score_board = record {
  key = "scoreBoardChallenge";
  name = "Score Board";
  category = "Miscellaneous";
  tag_list = "Tutorial" ∷ "Code Analysis" ∷ [];
  original_description = "Find the carefully hidden page.";
  difficulty = 1;
  disabled_env = none;
  solved = false;
  tutorial_order = some 1;
  has_coding_challenge = true;
  coding_challenge_status = 1;
}

abbrev login_admin : EnrichedChallenge
login_admin = record {
  key = "loginAdminChallenge";
  name = "Login Admin";
  category = "Injection";
  tag_list = [];
  original_description = "Log in with the administrator's user account.";
  difficulty = 2;
  disabled_env = none;
  solved = true;
  tutorial_order = none;
  has_coding_challenge = true;
  coding_challenge_status = 2;
}

abbrev two_challenges : List EnrichedChallenge
two_challenges = login_admin ∷ score_board ∷ []

abbrev injections : FilterSetting
injections = record default_filter_setting {
  categories = "Injection" ∷ "XSS" ∷ [];
  difficulties = pos 1 ∷ pos 2 ∷ [];
  status = some "solved";
  search_query = some "log";
  show_disabled_challenges = false;
}

shown_injections : filter_challenges two_challenges injections ≡ login_admin ∷ []
unfolding filter_challenges lower
shown_injections = refl

filter_challenges_iff_example :
    Memᴰ login_admin (filter_challenges two_challenges injections)
    ↔ IsShown two_challenges injections login_admin
filter_challenges_iff_example = filter_challenges_iff two_challenges injections login_admin

tutorials_go_on_example :
    (d : EnrichedChallenge) × Memᴰ d (
      filter_challenges two_challenges
        (record default_filter_setting { restrict_to_tutorial_challenges_first = true }))
    × IsTutorial d
    × (d.solved ≡ false)
    × ((e : EnrichedChallenge)
        → Memᴰ e two_challenges
        → IsTutorial e
        → e.solved ≡ false
        → d.difficulty ≤ e.difficulty)
tutorials_go_on_example =
    tutorials_go_on two_challenges score_board (Memᴰ.tail (Memᴰ.head refl)) (1, refl) refl

query_of_injections : (to_query_params injections).categories ≡ some "Injection,XSS"
unfolding to_query_params join_comma
query_of_injections = refl

injections-IsCarried : IsCarried injections
injections-IsCarried = record {
  categories = ((cc, omega arith), ((cc, omega arith), tt));
  difficulties = ((1, omega arith, omega arith, refl), ((2, omega arith, omega arith, refl), tt));
  tags = tt;
  status = cc;
  search_query = cc;
  unrestricted = refl;
}

from_query_params-to_query_params_example :
    from_query_params (to_query_params injections) ≡ injections
from_query_params-to_query_params_example =
    from_query_params-to_query_params injections injections-IsCarried

odd_difficulties : numbers (split_comma "3,x,-2, 07b") ≡ pos 3 ∷ negsuc 1 ∷ pos 7 ∷ []
unfolding numbers split_comma parse_int
odd_difficulties = refl

abbrev by_name : List EnrichedChallenge → List EnrichedChallenge
by_name cs = cs

same_members :
    (cs : List EnrichedChallenge) (c : EnrichedChallenge) → Memᴰ c (by_name cs) ↔ Memᴰ c cs
same_members cs c = (λ m. m, λ m. m)

abbrev some_events : List Event
some_events =
    loaded two_challenges record { restrict_to_tutorials_first = some false }
    ∷ code_challenge_solved (some ("scoreBoardChallenge", 2))
    ∷ []

after_events-IsUpToDate_example : IsUpToDate (after_events by_name some_events new_page)
after_events-IsUpToDate_example = after_events-IsUpToDate by_name same_members some_events

abbrev solved_board : EnrichedChallenge
solved_board = record score_board { solved = true; coding_challenge_status = 2 }

abbrev messages : List Event
messages = challenge_solved none ∷ code_challenge_solved (some ("scoreBoardChallenge", 2)) ∷ []

abbrev shown_page : List EnrichedChallenge
shown_page =
    (after_events by_name (challenge_solved (some "scoreBoardChallenge") ∷ messages)
      (after_events by_name some_events new_page)).filtered_challenges

on_the_page : Memᴰ solved_board shown_page
unfolding after_events on_event on_challenge_solved_websocket on_code_challenge_solved_websocket
    filter_and_update_challenges filter_challenges
on_the_page = Memᴰ.tail (Memᴰ.head refl)

challenge_solved_stays_example : solved_board.solved ≡ true
challenge_solved_stays_example =
    challenge_solved_stays by_name same_members "scoreBoardChallenge" messages
      (after_events by_name some_events new_page) (tt, (tt, tt)) solved_board on_the_page refl

summaries_add_up_example :
    (ss : List DifficultySummary) × (calculate_difficulty_summaries two_challenges ≡ some ss)
    × (available_in ss ≡ total_challenges two_challenges)
    × (solved_in ss + early_points two_challenges ≡ solved_challenges two_challenges)
summaries_add_up_example =
    summaries_add_up two_challenges ((omega arith, omega arith), ((omega arith, omega arith), tt))

totals : (total_challenges two_challenges ≡ 6) × (solved_challenges two_challenges ≡ 4)
unfolding total_challenges solved_challenges solved_coding_challenges
totals = (refl, refl)

groups_text :
    convert_difficulty_groups_to_string
      (break_difficulties_into_neighboring_groups 1 (2 ∷ 3 ∷ 5 ∷ []))
    ≡ "1 - 3, 5"
unfolding convert_difficulty_groups_to_string break_difficulties_into_neighboring_groups break_from
    to_string
groups_text = refl
