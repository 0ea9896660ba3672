-- ===== src/Verification/Posted.antt =====
-- The challenges of routes/verify.ts that are judged by what is stored: feedback, complaints and
-- one product. `like` is the LIKE of the database. The middleware starts the checks of all
-- challenges that are open and calls `next`; each check judges one challenge, so their order among
-- each other is kept as it is written. A check that rejects solves nothing.
pub mod Evidence
use runc.Prelude.{
  ℕ, String, Bool, false, not, ◌&&◌, Option, none, some, List, [], ◌∷◌, map, ltb, ◌==◌, ◌===◌,
  if◌then◌else◌, length, every, any, concat_texts,
}
use runc.Prelude.Http.{Outcome, ok, thrown}
use runc.Database.{Orm}
use runc.Prelude.Texts.{contains}
use runc.Challenges.{Board, challenge_of, not_solved, solve}

pub record Feedback : Type 0 where
  pub comment : String
  pub rating : ℕ

pub record State : Type 0 where
  pub feedbacks : List Feedback
  pub complaints : List String
  pub board : Board

-- `Op.or` of alternatives, each the `Op.and` of some patterns.
abbrev pub Criteria : Type 0
Criteria = List (List String)

-- The configuration, and what reloading the product gives: none if it is not there.
pub record Config : Type 0 where
  pub url_for_product_tampering : Option String
  pub overwrite_url : String
  pub csaf_hash_value : String
  pub keywords : List String
  pub osaft : Option (Outcome String)

pub data Job : Type 0 where
  change_product feedback_challenge : Job
  pattern : Criteria → Job

abbrev pub single : String → Criteria
single p = (p ∷ []) ∷ []

abbrev quoted : String → String
quoted keyword = concat_texts ("%" ∷ keyword ∷ "%" ∷ [])

-- The challenges in the order of `databaseRelatedChallenges`.
abbrev pub jobs : Config → List (String × Job)
jobs f =
    ("changeProductChallenge", change_product)
    ∷ ("feedbackChallenge", feedback_challenge)
    ∷ (
      "knownVulnerableComponentChallenge",
      pattern (("%sanitize-html%" ∷ "%1.4.2%" ∷ []) ∷ ("%express-jwt%" ∷ "%0.1.3%" ∷ []) ∷ []),
    )
    ∷ (
      "weirdCryptoChallenge",
      pattern (
          ("%z85%" ∷ [])
          ∷ ("%base85%" ∷ [])
          ∷ ("%hashids%" ∷ [])
          ∷ ("%md5%" ∷ [])
          ∷ ("%base64%" ∷ [])
          ∷ []),
    )
    ∷ ("typosquattingNpmChallenge", pattern (single "%epilogue-js%"))
    ∷ ("typosquattingAngularChallenge", pattern (single "%ngy-cookie%"))
    ∷ ("hiddenImageChallenge", pattern (single "%pickle rick%"))
    ∷ (
      "supplyChainAttackChallenge",
      pattern (("%eslint-scope/issues/39%" ∷ []) ∷ ("%npm:eslint-scope:20180712%" ∷ []) ∷ []),
    )
    ∷ ("dlpPastebinDataLeakChallenge", pattern (map quoted f.keywords ∷ []))
    ∷ ("csafChallenge", pattern (single (quoted f.csaf_hash_value)))
    ∷ ("leakedApiKeyChallenge", pattern (single "%6PPi37DBxP4lDwlriuaxP15HaDJpsUXY5TspVmie%"))
    ∷ []

abbrev pub is_open : String → State → Bool
is_open key s = not_solved (challenge_of key s.board)

abbrev pub solved : String → State → State
solved key s = record s { board = solve key false s.board }

abbrev pub link_to : String → String
link_to url = concat_texts ("<a href=\"" ∷ url ∷ "\" target=\"_blank\">" ∷ [])

-- The tests of `changeProductChallenge` on the description.
abbrev pub is_changed : Config → String → Bool
is_changed f description = elim f.url_for_product_tampering [
  | none ↦ false
  | some url ↦
      not (url === "")
      && (not (contains description url) && contains description (link_to f.overwrite_url))
]

abbrev pub meets : (String → String → Bool) → Criteria → String → Bool
meets like criteria text = any (λ ps. every (λ p. like p text) ps) criteria

-- What follows a count, and solves if the test on the number holds.
abbrev pub judged : {Row : Type 0} → String → (ℕ → Bool) → Outcome (List Row) → State → State
judged key test (thrown e) s = s
judged key test (ok found) s = if test (length found) then solved key s else s

-- What follows the reloading of the product.
abbrev pub reloaded : Config → String → Option (Outcome String) → State → State
reloaded f key none s = s
reloaded f key (some (thrown e)) s = s
reloaded f key (some (ok description)) s = if is_changed f description then solved key s else s

-- `findAndCountAll({ where })`
abbrev pub solve_if_count :
    {Row : Type 0} → Orm → String → (Row → Bool) → List Row → (ℕ → Bool) → State → State
solve_if_count o key p rows test s = judged key test (o.find_all p rows) s

module _ (o : Orm) (like : String → String → Bool) (f : Config) where
  unfoldable pub check_pattern_in_feedback_and_complaints : String → Criteria → State → State
  check_pattern_in_feedback_and_complaints key criteria s =
      let t =
        solve_if_count o key (λ (b : Feedback). meets like criteria b.comment) s.feedbacks (ltb 0)
          s in
      solve_if_count o key (meets like criteria) s.complaints (ltb 0) t

  abbrev pub change_product_challenge : String → State → State
  change_product_challenge key s = reloaded f key f.osaft s

  unfoldable pub run_job : String → Job → State → State
  unfolding check_pattern_in_feedback_and_complaints
  run_job key change_product s = change_product_challenge key s
  run_job key feedback_challenge s =
      solve_if_count o key (λ (b : Feedback). b.rating == 5) s.feedbacks (λ n. n == 0) s
  run_job key (pattern criteria) s = check_pattern_in_feedback_and_complaints key criteria s

  -- The jobs whose challenge was open at the start, one after the other.
  abbrev pub run_open : State → List (String × Job) → State → State
  run_open start [] s = s
  run_open start ((key, job) ∷ js) s =
      run_open start js (if is_open key start then run_job key job s else s)

  unfoldable pub database_related_challenges : State → State
  unfolding run_job
  database_related_challenges s = run_open s (jobs f) s
