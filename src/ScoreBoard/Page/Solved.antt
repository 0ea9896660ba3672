-- ===== src/ScoreBoard/Page/Solved.antt =====
-- What the message of a solved challenge does to the score board's page, and what stays of it.
use mathlib.Core.List.{Memᴰ}
use runc.Prelude.{
  ℕ, String, ◌≡◌, refl, sym, ◌∙◌, ◌↔◌, inl, inr, true, none, some, List, [], ◌∷◌, map, arith, ◌===◌,
  ===_iff, absurd_test, Bool-cases, All,
}
use runc.ScoreBoard.{EnrichedChallenge}
use runc.ScoreBoard.Page.{
  ScoreBoardComponent, Event, loaded, query_params, challenge_solved, code_challenge_solved,
  with_solved, with_status, filter_and_update_challenges, on_challenge_solved_websocket,
  on_code_challenge_solved_websocket, on_event, after_events,
}
use runc.ScoreBoard.Page.UpToDate.{update-IsUpToDate, after_events_from, IsUpToDate}

-- Every challenge of the key is solved.
abbrev pub IsSolved : String → List EnrichedChallenge → Type 0
IsSolved key = All (λ c. c.key ≡ key → c.solved ≡ true)

-- The challenges were not loaded anew.
abbrev pub IsMessage : Event → Type 0
IsMessage (loaded cs config) = ⊥
IsMessage (query_params q) = Unit
IsMessage (challenge_solved message) = Unit
IsMessage (code_challenge_solved message) = Unit

with_solved_key :
    (key k : String) (c : EnrichedChallenge)
    → (c.key ≡ key → c.solved ≡ true)
    → (with_solved k c).key ≡ key
    → (with_solved k c).solved ≡ true
with_solved_key key k c h e = ground arith

with_status_key :
    (key k : String) (n : ℕ) (c : EnrichedChallenge)
    → (c.key ≡ key → c.solved ≡ true)
    → (with_status k n c).key ≡ key
    → (with_status k n c).solved ≡ true
with_status_key key k n c h e = ground arith

solved_here :
    (key : String) (c : EnrichedChallenge)
    → (with_solved key c).key ≡ key
    → (with_solved key c).solved ≡ true
solved_here key c e = elim (Bool-cases (c.key === key)) [
  | inl k ↦ rw k refl
  | inr k ↦ let g : c.key ≡ key = rw k at e in absurd_test (sym k ∙ (===_iff c.key key).1 g)
]

solves : (key : String) (cs : List EnrichedChallenge) → IsSolved key (map (with_solved key) cs)
solves key [] = tt
solves key (c ∷ cs) = (solved_here key c, solves key cs)

map_keeps :
    (key : String) (f : EnrichedChallenge → EnrichedChallenge)
    → ((c : EnrichedChallenge)
        → (c.key ≡ key → c.solved ≡ true)
        → (f c).key ≡ key
        → (f c).solved ≡ true)
    → (cs : List EnrichedChallenge) → IsSolved key cs
    → IsSolved key (map f cs)
map_keeps key f h [] s = tt
map_keeps key f h (c ∷ cs) (s, ss) = (h c s, map_keeps key f h cs ss)

listed :
    (key : String) (cs : List EnrichedChallenge) (c : EnrichedChallenge)
    → IsSolved key cs
    → Memᴰ c cs
    → c.key ≡ key
    → c.solved ≡ true
listed key [] c s m e = elim m [ ]
listed key (d ∷ cs) c (s, ss) (Memᴰ.head q) e = rw q (s (rw (← q) e))
listed key (d ∷ cs) c (s, ss) (Memᴰ.tail m) e = listed key cs c ss m e

module _ (sort_by : List EnrichedChallenge → List EnrichedChallenge) where
  message_keeps :
      (key : String) (e : Event) (p : ScoreBoardComponent)
      → IsMessage e
      → IsSolved key p.all_challenges
      → IsSolved key (on_event sort_by e p).all_challenges
  unfolding on_event on_challenge_solved_websocket on_code_challenge_solved_websocket
      filter_and_update_challenges
  message_keeps key (loaded cs config) p m h = absurd m
  message_keeps key (query_params q) p m h = h
  message_keeps key (challenge_solved none) p m h = h
  message_keeps key (challenge_solved (some k)) p m h =
      map_keeps key (with_solved k) (with_solved_key key k) p.all_challenges h
  message_keeps key (code_challenge_solved none) p m h = h
  message_keeps key (code_challenge_solved (some (k, n))) p m h =
      map_keeps key (with_status k n) (with_status_key key k n) p.all_challenges h

  messages_keep :
      (key : String) (es : List Event) (p : ScoreBoardComponent)
      → All IsMessage es
      → IsSolved key p.all_challenges
      → IsSolved key (after_events sort_by es p).all_challenges
  unfolding after_events
  messages_keep key [] p m h = h
  messages_keep key (e ∷ es) p (m, ms) h =
      messages_keep key es (on_event sort_by e p) ms (message_keeps key e p m h)

-- Once the message that a challenge was solved has come, the page shows it as solved, whatever
-- other messages and filters follow, until the challenges are loaded anew.
pub challenge_solved_stays :
    (sort_by : List EnrichedChallenge → List EnrichedChallenge)
    → ((cs : List EnrichedChallenge) (c : EnrichedChallenge) → Memᴰ c (sort_by cs) ↔ Memᴰ c cs)
    → (key : String) (es : List Event) (p : ScoreBoardComponent) → All IsMessage es
    → (c : EnrichedChallenge)
    → Memᴰ c (after_events sort_by (challenge_solved (some key) ∷ es) p).filtered_challenges
    → c.key ≡ key
    → c.solved ≡ true
unfolding after_events on_event on_challenge_solved_websocket filter_and_update_challenges
challenge_solved_stays sort_by sorted key es p ms c m e =
    let q = record p { all_challenges = map (with_solved key) p.all_challenges } in
    let r = filter_and_update_challenges sort_by q in
    let fresh : IsUpToDate r = update-IsUpToDate sort_by sorted q in
    let shown = (after_events_from sort_by sorted es r fresh c).0 m in
    listed key (after_events sort_by es r).all_challenges c
      (messages_keep sort_by key es r ms (solves key p.all_challenges)) shown.listed e
