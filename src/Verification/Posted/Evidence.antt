-- ===== src/Verification/Posted/Evidence.antt =====
-- routes/verify.ts: a challenge that is solved by what is stored has its evidence there.
use runc.Prelude.{
  ℕ, String, ◌≡◌, refl, sym, ap, ◌∙◌, ◌⊎◌, inl, inr, Bool, true, false, not, ◌||◌, Option, none,
  some, List, [], ◌∷◌, arith, ltb, ◌==◌, ◌===◌, ===_iff, if◌then◌else◌, Bool-cases, length, filter,
  any, count, length-filter,
}
use runc.Prelude.Http.{Outcome, ok, thrown}
use mathlib.Core.Path.{subst}
use mathlib.Core.List.{Memᴰ}
use runc.Database.{Orm}
use runc.Challenges.{challenge_of, solve}
use runc.Challenges.Solving.{challenge_of-solve}
use runc.Verification.Posted.{
  Feedback, State, Config, Job, change_product, feedback_challenge, pattern, jobs, is_open, solved,
  is_changed, judged, reloaded, meets, solve_if_count, check_pattern_in_feedback_and_complaints,
  run_job, run_open, database_related_challenges,
}

module _ (like : String → String → Bool) (f : Config) where
  -- What each check looks for in the feedback and the complaints.
  abbrev pub HasEvidence : List Feedback → List String → Job → Type 0
  HasEvidence feedbacks complaints change_product =
      (text : String) × (f.osaft ≡ some (ok text)) × (is_changed f text ≡ true)
  HasEvidence feedbacks complaints feedback_challenge =
      any (λ (b : Feedback). b.rating == 5) feedbacks ≡ false
  HasEvidence feedbacks complaints (pattern criteria) =
      (any (λ (b : Feedback). meets like criteria b.comment) feedbacks
        || any (meets like criteria) complaints)
      ≡ true

solved_other :
    (j k : String) (s : State) → is_open j s ≡ true → is_open j (solved k s) ≡ false → k ≡ j
solved_other j k s h i = elim (Bool-cases (k === j)) [
  | inl e ↦ (===_iff k j).0 e
  | inr e ↦
      let same : challenge_of j (solve k false s.board) ≡ challenge_of j s.board =
        rw (challenge_of-solve j k false s.board, e) refl in
      let g : is_open j s ≡ false = rw same at i in ground arith
]

count-zero : {A : Type 0} (p : A → Bool) (xs : List A) → (count p xs == 0) ≡ not (any p xs)
count-zero p [] = refl
count-zero p (x ∷ xs) = ground (arith, count-zero p xs)

count-positive : {A : Type 0} (p : A → Bool) (xs : List A) → ltb 0 (count p xs) ≡ any p xs
count-positive p [] = refl
count-positive p (x ∷ xs) = ground (arith, count-positive p xs)

-- What is stored is the same.
abbrev Stores : List Feedback → List String → State → Type 0
Stores feedbacks complaints s = (s.feedbacks ≡ feedbacks) × (s.complaints ≡ complaints)

module _ (o : Orm) where
  -- A count leaves the state, or solves its challenge, and then the test holds of the matching rows.
  solve_if_count-cases :
      {Row : Type 0} (key : String) (p : Row → Bool) (rows : List Row) (test : ℕ → Bool) (s : State)
      → (solve_if_count o key p rows test s ≡ s)
        ⊎ ((solve_if_count o key p rows test s ≡ solved key s) × (test (count p rows) ≡ true))
  solve_if_count-cases {Row} key p rows test s = by_found (o.find_all p rows) refl
    where
      by_found :
          (r : Outcome (List Row))
          → o.find_all p rows ≡ r
          → (judged key test r s ≡ s)
            ⊎ ((judged key test r s ≡ solved key s) × (test (count p rows) ≡ true))
      by_found (thrown e) q = inl refl
      by_found (ok found) q =
          let l : found ≡ filter p rows = o.find_all_lem _ _ _ q in
          let n : length found ≡ count p rows = ap length l ∙ length-filter p rows in
          elim (Bool-cases (test (length found))) [
            | inl h ↦ inr (rw h refl, subst (λ z. test z ≡ true) n h)
            | inr h ↦ inl (rw h refl)
          ]

  solve_if_count-Stores :
      {Row : Type 0} (key : String) (p : Row → Bool) (rows : List Row) (test : ℕ → Bool) (s : State)
      → Stores s.feedbacks s.complaints (solve_if_count o key p rows test s)
  solve_if_count-Stores key p rows test s = elim (solve_if_count-cases key p rows test s) [
    | inl e ↦ rw e (refl, refl)
    | inr (e, h) ↦ rw e (refl, refl)
  ]

  -- A count that solves an open challenge solves its own, and the test holds.
  solve_if_count-solves :
      {Row : Type 0} (j key : String) (p : Row → Bool) (rows : List Row) (test : ℕ → Bool)
      (s : State)
      → is_open j s ≡ true
      → is_open j (solve_if_count o key p rows test s) ≡ false
      → (key ≡ j) × (test (count p rows) ≡ true)
  solve_if_count-solves j key p rows test s h i = elim (solve_if_count-cases key p rows test s) [
    | inl e ↦ let g : is_open j s ≡ false = subst (λ z. is_open j z ≡ false) e i in ground arith
    | inr (e, t) ↦ (solved_other j key s h (subst (λ z. is_open j z ≡ false) e i), t)
  ]

-- The reloaded product leaves the state, or solves the challenge, and then it is changed.
reloaded-cases :
    (f : Config) (key : String) (m : Option (Outcome String)) (s : State)
    → (reloaded f key m s ≡ s)
      ⊎ ((reloaded f key m s ≡ solved key s)
          × (text : String) × (m ≡ some (ok text))
          × (is_changed f text ≡ true))
reloaded-cases f key none s = inl refl
reloaded-cases f key (some (thrown e)) s = inl refl
reloaded-cases f key (some (ok text)) s = elim (Bool-cases (is_changed f text)) [
  | inl h ↦ inr (rw h refl, text, refl, h)
  | inr h ↦ inl (rw h refl)
]

module _ (o : Orm) (like : String → String → Bool) (f : Config) where
  run_job-Stores :
      (key : String) (job : Job) (s : State)
      → Stores s.feedbacks s.complaints (run_job o like f key job s)
  unfolding run_job check_pattern_in_feedback_and_complaints
  run_job-Stores key feedback_challenge s =
      solve_if_count-Stores o key (λ (b : Feedback). b.rating == 5) s.feedbacks (λ n. n == 0) s
  run_job-Stores key (pattern criteria) s =
      let t =
        solve_if_count o key (λ (b : Feedback). meets like criteria b.comment) s.feedbacks (ltb 0)
          s in
      let (a, b) =
        solve_if_count-Stores o key (λ (b : Feedback). meets like criteria b.comment) s.feedbacks
          (ltb 0) s in
      let (c, d) = solve_if_count-Stores o key (meets like criteria) s.complaints (ltb 0) t in
      (c ∙ a, d ∙ b)
  run_job-Stores key change_product s = elim (reloaded-cases f key f.osaft s) [
    | inl e ↦ rw e (refl, refl)
    | inr (e, _, _, _) ↦ rw e (refl, refl)
  ]

  run_job-HasEvidence :
      (j key : String) (job : Job) (s : State)
      → is_open j s ≡ true
      → is_open j (run_job o like f key job s) ≡ false
      → (key ≡ j) × HasEvidence like f s.feedbacks s.complaints job
  unfolding run_job check_pattern_in_feedback_and_complaints
  run_job-HasEvidence j key feedback_challenge s h i =
      let (e, t) =
        solve_if_count-solves o j key (λ (b : Feedback). b.rating == 5) s.feedbacks (λ n. n == 0) s
          h i in
      let z = count-zero (λ (b : Feedback). b.rating == 5) s.feedbacks in (e, ground arith)
  run_job-HasEvidence j key (pattern criteria) s h i =
      let t =
        solve_if_count o key (λ (b : Feedback). meets like criteria b.comment) s.feedbacks (ltb 0)
          s in
      elim (Bool-cases (is_open j t)) [
        | inr first ↦
            let (e, n) =
              solve_if_count-solves o j key (λ (b : Feedback). meets like criteria b.comment)
                s.feedbacks (ltb 0) s h first in
            let m =
              sym (count-positive (λ (b : Feedback). meets like criteria b.comment) s.feedbacks)
              ∙ n in
            (e, rw m refl)
        | inl still ↦
            let (e, n) =
              solve_if_count-solves o j key (meets like criteria) s.complaints (ltb 0) t still i in
            let m = sym (count-positive (meets like criteria) s.complaints) ∙ n in (e, ground arith)
      ]
  run_job-HasEvidence j key change_product s h i = elim (reloaded-cases f key f.osaft s) [
    | inl e ↦ let g : is_open j s ≡ false = subst (λ z. is_open j z ≡ false) e i in ground arith
    | inr (e, text, q, c) ↦
        (solved_other j key s h (subst (λ z. is_open j z ≡ false) e i), (text, q, c))
  ]

  run_open-HasEvidence :
      (j : String) (start : State) (js : List (String × Job)) (s : State)
      → is_open j s ≡ true
      → is_open j (run_open o like f start js s) ≡ false
      → (job : Job) × Memᴰ (j, job) js × HasEvidence like f s.feedbacks s.complaints job
  run_open-HasEvidence j start [] s h i = absurd_open h i
    where
      absurd_open : {C : Type 0} → is_open j s ≡ true → is_open j s ≡ false → C
      absurd_open a b = ground arith
  run_open-HasEvidence j start ((key, job) ∷ js) s h i = elim (Bool-cases (is_open key start)) [
    | inr off ↦
        let g : is_open j (run_open o like f start js s) ≡ false =
          subst
            (λ b.
              is_open j (run_open o like f start js (if b then run_job o like f key job s else s))
              ≡ false)
            off i in
        let (found, m, e) = run_open-HasEvidence j start js s h g in (found, Memᴰ.tail m, e)
    | inl on ↦
        let g : is_open j (run_open o like f start js (run_job o like f key job s)) ≡ false =
          subst
            (λ b.
              is_open j (run_open o like f start js (if b then run_job o like f key job s else s))
              ≡ false)
            on i in
        elim (Bool-cases (is_open j (run_job o like f key job s))) [
          | inr here ↦
              let (q, e) = run_job-HasEvidence j key job s h here in
              (job, Memᴰ.head (ap (λ (k : String). (k, job)) (sym q)), e)
          | inl still ↦
              let (found, m, e) =
                run_open-HasEvidence j start js (run_job o like f key job s) still g in
              let (a, b) = run_job-Stores key job s in
              (
                found,
                Memᴰ.tail m,
                subst (λ z. HasEvidence like f z s.complaints found) a
                    (subst (λ z. HasEvidence like f (run_job o like f key job s).feedbacks z found)
                      b e),
              )
        ]
  ]

  -- A challenge that the checks solve has its evidence in what is stored: it is one of theirs, and
  -- the feedback, a complaint or the product is what its check looks for, whatever else is solved
  -- and whichever queries reject.
  pub database_related_challenges-HasEvidence :
      (j : String) (s : State)
      → is_open j s ≡ true
      → is_open j (database_related_challenges o like f s) ≡ false
      → (job : Job) × Memᴰ (j, job) (jobs f) × HasEvidence like f s.feedbacks s.complaints job
  unfolding database_related_challenges
  database_related_challenges-HasEvidence j s h i = run_open-HasEvidence j s (jobs f) s h i
