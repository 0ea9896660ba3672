-- ===== src/ScoreBoard/Page/UpToDate.antt =====
-- The score board's page under every sequence of events.
use mathlib.Core.List.{Memᴰ}
use runc.Prelude.{◌↔◌, none, some, List, [], ◌∷◌, map}
use runc.ScoreBoard.{EnrichedChallenge, filter_challenges}
use runc.ScoreBoard.Shown.{IsShown}
use runc.ScoreBoard.Matching.{filter_challenges_iff}
use runc.ScoreBoard.Queries.{from_query_params}
use runc.ScoreBoard.Page.{
  ScoreBoardComponent, Event, loaded, query_params, challenge_solved, code_challenge_solved,
  new_page, setting_of, with_solved, with_status, filter_and_update_challenges,
  on_challenge_solved_websocket, on_code_challenge_solved_websocket, on_event, after_events,
}

-- The page shows what its description says, under the setting in force.
abbrev pub IsUpToDate : ScoreBoardComponent → Type 0
IsUpToDate p =
    (c : EnrichedChallenge)
    → Memᴰ c p.filtered_challenges ↔ IsShown p.all_challenges (setting_of p) c

module _ (sort_by : List EnrichedChallenge → List EnrichedChallenge)
    (sorted : (cs : List EnrichedChallenge) (c : EnrichedChallenge)
      → Memᴰ c (sort_by cs) ↔ Memᴰ c cs) where
  pub update-IsUpToDate :
      (p : ScoreBoardComponent) → IsUpToDate (filter_and_update_challenges sort_by p)
  unfolding filter_and_update_challenges
  update-IsUpToDate p c =
      let s = sorted (filter_challenges p.all_challenges (setting_of p)) c in
      let f = filter_challenges_iff p.all_challenges (setting_of p) c in
      (λ m. f.0 (s.0 m), λ h. s.1 (f.1 h))

  pub on_event-IsUpToDate :
      (e : Event) (p : ScoreBoardComponent) → IsUpToDate p → IsUpToDate (on_event sort_by e p)
  unfolding on_event filter_and_update_challenges on_challenge_solved_websocket
      on_code_challenge_solved_websocket
  on_event-IsUpToDate (loaded challenges config) p h =
      update-IsUpToDate
        (record p { application_configuration = some config; all_challenges = challenges })
  on_event-IsUpToDate (query_params q) p h =
      update-IsUpToDate (record p { filter_setting = from_query_params q })
  on_event-IsUpToDate (challenge_solved none) p h = h
  on_event-IsUpToDate (challenge_solved (some key)) p h =
      update-IsUpToDate (record p { all_challenges = map (with_solved key) p.all_challenges })
  on_event-IsUpToDate (code_challenge_solved none) p h = h
  on_event-IsUpToDate (code_challenge_solved (some (key, status))) p h =
      update-IsUpToDate
        (record p { all_challenges = map (with_status key status) p.all_challenges })

  pub after_events_from :
      (es : List Event) (p : ScoreBoardComponent)
      → IsUpToDate p
      → IsUpToDate (after_events sort_by es p)
  unfolding after_events
  after_events_from [] p h = h
  after_events_from (e ∷ es) p h =
      after_events_from es (on_event sort_by e p) (on_event-IsUpToDate e p h)

  -- However messages of the socket, changes of the address bar and loaded data follow one another
  -- from the empty page, the page shows exactly the challenges that its description names under
  -- the setting in force.
  pub after_events-IsUpToDate : (es : List Event) → IsUpToDate (after_events sort_by es new_page)
  after_events-IsUpToDate es = after_events_from es new_page empty_page
    where
      empty_page : IsUpToDate new_page
      empty_page c = (λ m. elim m [ ], λ h. elim h.listed [ ])
