-- ===== src/Coding/Snippets.antt =====
-- routes/vulnCodeSnippet.ts of test-container/rootfs/juice-shop: the "Find it" phase of a coding
-- challenge. `codes` is what `getCodeChallenges` resolves to, an error being its name; `hints` is
-- the list in the challenge's .info.yml file, if there is one. Texts are not translated.
pub mod Selection
pub mod Hints
use runc.Prelude.{
  ℕ, zero, suc, String, Bool, true, false, not, Option, none, some, List, [], ◌∷◌, ◌++◌, map, ltb,
  ◌==◌, ◌===◌, if◌then◌else◌, length, get_elem?, filter, every, includes,
}
use runc.Prelude.Http.{Outcome, ok, thrown, Action, pure, modify, ◌>>=◌, ◌>>◌, Reply, send, refuse}
use runc.Database.{Orm}
use runc.Coding.Accuracy.{get_find_it_attempts, store_find_it_verdict}
use runc.Coding.AntiCheat.{Snippet, Snippets, get}
use runc.Challenges.{Board, Environment, solve_find_it}

unfoldable pub set_status_code : String → ℕ
set_status_code name = if name === "BrokenBoundary" then 422 else 200

unfoldable pub retrieve_code_snippet : Outcome Snippets → String → Outcome (Option Snippet)
retrieve_code_snippet (thrown e) key = thrown e
retrieve_code_snippet (ok codes) key = ok (get key codes)

unfoldable pub serve_code_snippet : Outcome Snippets → String → Reply String
unfolding retrieve_code_snippet set_status_code
serve_code_snippet codes key = elim (retrieve_code_snippet codes key) [
  | thrown e ↦ refuse (set_status_code e) e
  | ok none ↦ refuse 404 "No code challenge for challenge key"
  | ok (some s) ↦ send 200 s.text
]

unfoldable pub retrieve_challenges_with_code_snippet : Outcome Snippets → Outcome (List String)
retrieve_challenges_with_code_snippet (thrown e) = thrown e
retrieve_challenges_with_code_snippet (ok codes) = ok (map (λ (p : String × Snippet). p.0) codes)

-- `none` is an undefined `selectedLines`.
unfoldable pub get_verdict : List ℕ → List ℕ → Option (List ℕ) → Bool
get_verdict vuln_lines neutral_lines none = false
get_verdict vuln_lines neutral_lines (some selected_lines) =
    if ltb (length selected_lines) (length vuln_lines)
    then false
    else if not (every (λ e. includes selected_lines e) vuln_lines)
    then false
    else let ok_lines = vuln_lines ++ neutral_lines in
      let not_ok_lines = filter (λ x. not (includes ok_lines x)) selected_lines in
      length not_ok_lines == 0

pub data Hint : Type 0 where
  line : ℕ → Hint
  lines : List ℕ → Hint
  text : String → Hint

pub record Verdict : Type 0 where
  pub verdict : Bool
  pub hint : Option Hint

-- `if (nextHint) hint = nextHint`; the empty text and a missing hint are both falsy.
abbrev pub next_hint : Option String → Option Hint
next_hint none = none
next_hint (some t) = if t === "" then none else some (text t)

abbrev pub reveal : List ℕ → Hint
reveal (n ∷ []) = line n
reveal ns = lines ns

-- `attempts` is `accuracy.getFindItAttempts(key)`.
unfoldable pub hint_for : Option (List String) → List ℕ → ℕ → Option Hint
hint_for none vuln_lines attempts = none
hint_for (some hints) vuln_lines zero = none
hint_for (some hints) vuln_lines (suc n) =
    if ltb (length hints) (suc n) then some (reveal vuln_lines) else next_hint (get_elem? hints n)

module _ (o : Orm) (env : Environment) where
  unfoldable pub check_vuln_lines :
      ℕ
      → Outcome Snippets
      → Option (List String)
      → String
      → Option (List ℕ)
      → Action Board (Reply Verdict)
  unfolding retrieve_code_snippet set_status_code
  check_vuln_lines now codes hints key selected b = elim (retrieve_code_snippet codes key) [
    | thrown e ↦ (ok (refuse (set_status_code e) e), b)
    | ok none ↦ (ok (refuse 404 "No code challenge for challenge key"), b)
    | ok (some s) ↦
        let hint = hint_for hints s.vuln_lines (get_find_it_attempts key b.accuracy) in
        if get_verdict s.vuln_lines s.neutral_lines selected
        then (do
          solve_find_it o env now codes key false
          pure (send 200 (record { verdict = true; hint = none })))
            b
        else (do
          modify (λ b. record b { accuracy = store_find_it_verdict key false b.accuracy })
          pure (send 200 (record { verdict = false; hint = hint })))
            b
  ]
