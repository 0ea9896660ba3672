-- ===== src/ScoreBoard/Matching.antt =====
-- `filterChallenges` (frontend/src/app/score-board/helpers/challenge-filtering.ts) shows exactly the
-- challenges of its description, and in tutorial mode always a tutorial challenge left to solve.
use mathlib.Core.List.{Memᴰ}
use mathlib.Core.Path.{subst}
use runc.Prelude.{
  ◌≤◌, String, ◌≡◌, refl, sym, ◌↔◌, ◌⊎◌, inl, inr, true, false, ◌||◌, some, List, [], ◌∷◌, arith,
  leb, ◌===◌, Bool-cases, filter,
}
use runc.Prelude.Int.{pos}
use runc.Prelude.Members.{includes_text, includes_text_iff, filter_iff}
use runc.ScoreBoard.{
  default_filter_setting, EnrichedChallenge, FilterSetting, filter_challenges,
  get_complete_challenge_status, includes_ℤ, includes_ignoring_case, of_category, of_difficulty,
  of_tags, of_status, available, searched, of_tutorial, unsolved_tutorials,
}
use runc.ScoreBoard.Shown.{IsTutorial, HasStatus, IsShown, Mentions}
use runc.ScoreBoard.Filters.{
  includes_ℤ→Mem, Mem→includes_ℤ, when_set, status_iff, unsolved_iff, tutorial_iff, when_some,
  or_iff, enabled_iff, tag_iff,
}

difficulty_iff :
    (f : FilterSetting) (c : EnrichedChallenge)
    → (of_difficulty f c ≡ true) ↔ ((f.difficulties ≡ []) ⊎ Memᴰ (pos c.difficulty) f.difficulties)
difficulty_iff f c =
    when_set f.difficulties (includes_ℤ f.difficulties c.difficulty)
      (includes_ℤ→Mem f.difficulties c.difficulty, Mem→includes_ℤ f.difficulties c.difficulty)

category_iff :
    (f : FilterSetting) (c : EnrichedChallenge)
    → (of_category f c ≡ true) ↔ ((f.categories ≡ []) ⊎ Memᴰ c.category f.categories)
category_iff f c =
    when_set f.categories (includes_text f.categories c.category)
      (includes_text_iff f.categories c.category)

query_iff :
    (f : FilterSetting) (c : EnrichedChallenge)
    → (searched f c ≡ true) ↔ ((q : String) → f.search_query ≡ some q → Mentions c q)
query_iff f c =
    when_some f.search_query
      (λ q. includes_ignoring_case c.name q || includes_ignoring_case c.original_description q)
      (λ q.
        or_iff (includes_ignoring_case c.name q) (includes_ignoring_case c.original_description q))

stated_iff :
    (f : FilterSetting) (c : EnrichedChallenge)
    → (of_status f c ≡ true) ↔ ((s : String) → f.status ≡ some s → HasStatus c s)
stated_iff f c =
    when_some f.status (λ s. s === get_complete_challenge_status c) (λ s. status_iff c s)

tests→IsShown :
    (cs : List EnrichedChallenge) (f : FilterSetting) (c : EnrichedChallenge)
    → Memᴰ c (filter_challenges cs f)
    → IsShown cs f c
unfolding filter_challenges
tests→IsShown cs f c m =
    let in_category = filter (of_category f) cs in
    let in_difficulty = filter (of_difficulty f) in_category in
    let in_tags = filter (of_tags f) in_difficulty in
    let in_status = filter (of_status f) in_tags in
    let on = filter (available f) in_status in
    let found = filter (searched f) on in
    let (m7, h7) = (filter_iff (of_tutorial cs f) found c).0 m in
    let (m6, h6) = (filter_iff (searched f) on c).0 m7 in
    let (m5, h5) = (filter_iff (available f) in_status c).0 m6 in
    let (m4, h4) = (filter_iff (of_status f) in_tags c).0 m5 in
    let (m3, h3) = (filter_iff (of_tags f) in_difficulty c).0 m4 in
    let (m2, h2) = (filter_iff (of_difficulty f) in_category c).0 m3 in
    let (m1, h1) = (filter_iff (of_category f) cs c).0 m2 in
    record {
      listed = m1;
      category = (category_iff f c).0 h1;
      difficulty = (difficulty_iff f c).0 h2;
      tag = (tag_iff f c).0 h3;
      status = (stated_iff f c).0 h4;
      enabled = (enabled_iff c.disabled_env f.show_disabled_challenges).0 h5;
      query = (query_iff f c).0 h6;
      tutorial = (tutorial_iff cs f c).0 h7;
    }

IsShown→tests :
    (cs : List EnrichedChallenge) (f : FilterSetting) (c : EnrichedChallenge)
    → IsShown cs f c
    → Memᴰ c (filter_challenges cs f)
unfolding filter_challenges
IsShown→tests cs f c s =
    let in_category = filter (of_category f) cs in
    let in_difficulty = filter (of_difficulty f) in_category in
    let in_tags = filter (of_tags f) in_difficulty in
    let in_status = filter (of_status f) in_tags in
    let on = filter (available f) in_status in
    let found = filter (searched f) on in
    let m1 = (filter_iff (of_category f) cs c).1 (s.listed, (category_iff f c).1 s.category) in
    let m2 =
      (filter_iff (of_difficulty f) in_category c).1 (m1, (difficulty_iff f c).1 s.difficulty) in
    let m3 = (filter_iff (of_tags f) in_difficulty c).1 (m2, (tag_iff f c).1 s.tag) in
    let m4 = (filter_iff (of_status f) in_tags c).1 (m3, (stated_iff f c).1 s.status) in
    let m5 =
      (filter_iff (available f) in_status c).1
        (m4, (enabled_iff c.disabled_env f.show_disabled_challenges).1 s.enabled) in
    let m6 = (filter_iff (searched f) on c).1 (m5, (query_iff f c).1 s.query) in
    (filter_iff (of_tutorial cs f) found c).1 (m6, (tutorial_iff cs f c).1 s.tutorial)

-- A challenge is among the filtered ones exactly when it is on the board, and its category, its
-- difficulty and one of its tags are among the chosen ones where some are chosen, its status is the
-- chosen one, it is enabled or disabled ones are shown, its name or description has the query,
-- and, if tutorials are to come first, all of them are solved or it is one of them and no harder
-- than any that is unsolved.
pub filter_challenges_iff :
    (cs : List EnrichedChallenge) (f : FilterSetting) (c : EnrichedChallenge)
    → Memᴰ c (filter_challenges cs f) ↔ IsShown cs f c
filter_challenges_iff cs f c = (tests→IsShown cs f c, IsShown→tests cs f c)

easiest :
    (x : EnrichedChallenge) (xs : List EnrichedChallenge)
    → (c : EnrichedChallenge) × Memᴰ c (x ∷ xs)
      × ((d : EnrichedChallenge) → Memᴰ d (x ∷ xs) → c.difficulty ≤ d.difficulty)
easiest x [] = (x, Memᴰ.head refl, λ d m. alone d m)
  where
    alone : (d : EnrichedChallenge) → Memᴰ d (x ∷ []) → x.difficulty ≤ d.difficulty
    alone d (Memᴰ.head e) = rw e (omega arith)
    alone d (Memᴰ.tail m) = elim m [ ]
easiest x (y ∷ ys) =
    let (c, m, h) = easiest y ys in
    elim (Bool-cases (leb x.difficulty c.difficulty)) [
      | inl k ↦ (x, Memᴰ.head refl, λ d n. first c h k d n)
      | inr k ↦ (c, Memᴰ.tail m, λ d n. later c h k d n)
    ]
  where
    first :
        (c : EnrichedChallenge)
        → ((d : EnrichedChallenge) → Memᴰ d (y ∷ ys) → c.difficulty ≤ d.difficulty)
        → leb x.difficulty c.difficulty ≡ true
        → (d : EnrichedChallenge) → Memᴰ d (x ∷ y ∷ ys)
        → x.difficulty ≤ d.difficulty
    first c h k d (Memᴰ.head e) = rw e (omega arith)
    first c h k d (Memᴰ.tail m) = ground (arith, h d m)

    later :
        (c : EnrichedChallenge)
        → ((d : EnrichedChallenge) → Memᴰ d (y ∷ ys) → c.difficulty ≤ d.difficulty)
        → leb x.difficulty c.difficulty ≡ false
        → (d : EnrichedChallenge) → Memᴰ d (x ∷ y ∷ ys)
        → c.difficulty ≤ d.difficulty
    later c h k d (Memᴰ.head e) = rw e (ground arith)
    later c h k d (Memᴰ.tail m) = h d m

nonempty : {A : Type 0} (xs : List A) (x : A) → Memᴰ x xs → (y : A) × (ys : List A) × (xs ≡ y ∷ ys)
nonempty [] x m = elim m [ ]
nonempty (y ∷ ys) x m = (y, ys, refl)

-- In tutorial mode, with nothing else filtered, there is always a next step: if any tutorial
-- challenge is unsolved, then an unsolved tutorial challenge is shown, one that no unsolved one is
-- easier than.
pub tutorials_go_on :
    (cs : List EnrichedChallenge) (c : EnrichedChallenge)
    → Memᴰ c cs
    → IsTutorial c
    → c.solved ≡ false
    → (d : EnrichedChallenge) × Memᴰ d (
        filter_challenges cs
          (record default_filter_setting { restrict_to_tutorial_challenges_first = true }))
      × IsTutorial d
      × (d.solved ≡ false)
      × ((e : EnrichedChallenge)
          → Memᴰ e cs
          → IsTutorial e
          → e.solved ≡ false
          → d.difficulty ≤ e.difficulty)
tutorials_go_on cs c m k o =
    let (y, ys, e) = nonempty (unsolved_tutorials cs) c ((unsolved_iff cs c).1 (m, k, o)) in
    let (d, n, h) = easiest y ys in
    let (a, b, z) = (unsolved_iff cs d).0 (subst (Memᴰ d) (sym e) n) in
    let least : (e : EnrichedChallenge)
        → Memᴰ e cs
        → IsTutorial e
        → e.solved ≡ false
        → d.difficulty ≤ e.difficulty =
      λ w wm wk wo. h w (subst (Memᴰ w) e ((unsolved_iff cs w).1 (wm, wk, wo))) in
    (d, IsShown→tests cs _ d (unfiltered d a b least), b, z, least)
  where
    unfiltered :
        (d : EnrichedChallenge)
        → Memᴰ d cs
        → IsTutorial d
        → ((e : EnrichedChallenge)
            → Memᴰ e cs
            → IsTutorial e
            → e.solved ≡ false
            → d.difficulty ≤ e.difficulty)
        → IsShown cs
            (record default_filter_setting { restrict_to_tutorial_challenges_first = true })
            d
    unfiltered d a b least = record {
      listed = a;
      category = inl refl;
      difficulty = inl refl;
      tag = inl refl;
      status = λ s e. absurd (cc);
      enabled = inr refl;
      query = λ q e. absurd (cc);
      tutorial = λ r. inr (b, least);
    }
