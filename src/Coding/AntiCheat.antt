-- ===== src/Coding/AntiCheat.antt =====
-- lib/antiCheat.ts of test-container/rootfs/juice-shop: how likely a challenge was solved by
-- cheating. Times are milliseconds. A score is a fraction; the source's floating-point products of
-- small constants are computed exactly, and its NaN and Infinity are values of their own.
pub mod Bounds
use runc.Prelude.{
  ℕ, zero, suc, ◌+◌, ◌-◌, ◌*◌, ◌/◌, String, Bool, true, false, not, ◌&&◌, ◌||◌, Option, none, some,
  List, [], ◌∷◌, ◌++◌, map, ltb, ◌==◌, ◌===◌, if◌then◌else◌, length, any, find, count,
}
use runc.Prelude.Http.{Outcome, ok, thrown}

-- The fields of a challenge that the scores read.
pub record Challenge : Type 0 where
  pub key : String
  pub difficulty : ℕ
  pub tutorial_order : Option ℕ

-- A cached coding challenge: its lines, and the line numbers that count.
pub record Snippet : Type 0 where
  pub text : String
  pub chars : ℕ
  pub vuln_lines : List ℕ
  pub neutral_lines : List ℕ

abbrev pub Snippets : Type 0
Snippets = List (String × Snippet)

pub record Settings : Type 0 where
  pub show_hints : Bool
  pub hacking_instructor : Bool

pub data Step : Type 0 where
  server_start hack_it find_it fix_it : Step

pub data Score : Type 0 where
  frac : ℕ → ℕ → Score
  nan : Score
  infinity : Score

-- An element of `solves`; the seed of the list has no challenge key.
pub record Solve : Type 0 where
  pub key : Option String
  pub step : Step
  pub timestamp : ℕ
  pub score : Score

pub record Interaction : Type 0 where
  pub challenge_key : String
  pub url_fragments : List String
  pub seen : List Bool

pub record State : Type 0 where
  pub solves : List Solve
  pub interactions : List Interaction

-- `coupledChallenges[key]`
unfoldable pub coupled_with : String → List String
coupled_with key =
    if key === "loginAdminChallenge"
    then "weakPasswordChallenge" ∷ []
    else if key === "nullByteChallenge"
    then "easterEggLevelOneChallenge" ∷ "forgottenDevBackupChallenge" ∷ "forgottenBackupChallenge"
      ∷ "misplacedSignatureFileChallenge" ∷ []
    else if key === "deprecatedInterfaceChallenge" || key === "uploadSizeChallenge"
    then "uploadTypeChallenge" ∷ "xxeFileDisclosureChallenge" ∷ "xxeDosChallenge"
      ∷ "yamlBombChallenge" ∷ []
    else if key === "uploadTypeChallenge"
    then "uploadSizeChallenge" ∷ "xxeFileDisclosureChallenge" ∷ "xxeDosChallenge"
      ∷ "yamlBombChallenge" ∷ []
    else []

abbrev lists : List String → String → Bool
lists names key = any (λ n. n === key) names

unfoldable pub are_coupled : String → Option String → Bool
unfolding coupled_with
are_coupled key none = false
are_coupled key (some before) = lists (coupled_with key) before || lists (coupled_with before) key

unfoldable pub is_trivial : String → Bool
is_trivial key =
    lists ("errorHandlingChallenge" ∷ "privacyPolicyChallenge" ∷ "closeNotificationsChallenge" ∷ [])
      key

-- `solves[solves.length - 1]` of a list that is never empty: the seed and the solves after it.
abbrev pub previous : Solve → List Solve → Solve
previous seed [] = seed
previous seed (s ∷ ss) = previous s ss

-- The element that `previous()` reads; `solves` is seeded when the module is loaded.
abbrev pub latest : List Solve → Solve
latest [] = record { key = none; step = server_start; timestamp = 0; score = frac 0 1 }
latest (s ∷ ss) = previous s ss

-- `Math.max(0, 1 - elapsed / expected)`
abbrev pub remaining : ℕ → ℕ → ℕ → Score
remaining before now expected =
    if ltb now before
    then (if expected == 0 then infinity else frac (expected + (before - now)) expected)
    else if expected == 0
    then (if now == before then nan else frac 0 1)
    else if ltb (now - before) expected
    then frac (expected - (now - before)) expected
    else frac 0 1

-- `Math.min(1, cheatScore * (1 + Math.max(0, 1 - seen / total) / 2))`
abbrev pub penalise : ℕ → ℕ → Score → Score
penalise seen total nan = nan
penalise seen total infinity = if total == 0 then nan else frac 1 1
penalise seen total (frac n d) =
    if total == 0
    then nan
    else let m = n * (3 * total - (if ltb total seen then total else seen)) in
      if ltb (d * (2 * total)) m then frac 1 1 else frac m (d * (2 * total))

abbrev is_truthy : Option ℕ → Bool
is_truthy none = false
is_truthy (some zero) = false
is_truthy (some (suc n)) = true

-- Twice `timeFactor`, which is a multiple of one half.
unfoldable pub time_factor : Settings → Challenge → Option String → ℕ
time_factor cfg c before =
    if are_coupled c.key before || is_trivial c.key
    then 0
    else if is_truthy c.tutorial_order && cfg.hacking_instructor
    then (if cfg.show_hints then 2 else 3)
    else (if cfg.show_hints then 4 else 6)

unfoldable pub weigh : Option Interaction → Score → Score
weigh none score = score
weigh (some i) score = penalise (count (λ b. b) i.seen) (length i.seen) score

unfoldable pub calculate_cheat_score : Settings → ℕ → Challenge → State → Score × State
unfolding time_factor weigh
calculate_cheat_score cfg now c s =
    let before = latest s.solves in
    let expected = c.difficulty * time_factor cfg c before.key * 30000 in
    let score =
      weigh (find (λ (i : Interaction). i.challenge_key === c.key) s.interactions)
        (remaining before.timestamp now expected) in
    (
      score,
      record s {
        solves =
            s.solves
            ++ record { key = some c.key; step = hack_it; timestamp = now; score = score } ∷ [];
      },
    )

abbrev pub get : String → Snippets → Option Snippet
get k [] = none
get k ((j, x) ∷ m) = if j === k then some x else get k m

abbrev pub is_find_it : Solve → Bool
is_find_it s = elim s.step [ find_it ↦ true | _ ↦ false ]

unfoldable pub check_for_identical_solved_challenge : String → Snippets → List Solve → Bool
check_for_identical_solved_challenge key codes solves = elim (get key codes) [
  | none ↦ false
  | some mine ↦
      if mine.text === ""
      then false
      else any (λ (p : String × Snippet). not (p.0 === key) && p.1.text === mine.text) codes
        && any is_find_it solves
]

-- `Math.ceil(x / 10000)`
abbrev pub ceil_10000 : ℕ → ℕ
ceil_10000 x = (x + 9999) / 10000

-- Ten thousand times `timeFactor`, before it is multiplied by the number of vulnerable lines.
abbrev pub find_factor : Bool → Bool → ℕ
find_factor tutorial identical =
    if tutorial then (if identical then 4 else 5) else (if identical then 8 else 10)

-- `null` from `retrieveCodeSnippet` scores 0 and is not recorded; a rejection passes through.
unfoldable pub calculate_find_it_cheat_score :
    Settings → ℕ → Challenge → Outcome Snippets → State → Outcome Score × State
calculate_find_it_cheat_score cfg now c (thrown e) s = (thrown e, s)
calculate_find_it_cheat_score cfg now c (ok codes) s = elim (get c.key codes) [
  | none ↦ (ok (frac 0 1), s)
  | some snip ↦
      let identical = check_for_identical_solved_challenge c.key codes s.solves in
      let factor =
        find_factor (c.key === "scoreBoardChallenge" && cfg.hacking_instructor) identical in
      let expected = ceil_10000 (snip.chars * (factor * length snip.vuln_lines)) * 60000 in
      let score = remaining (latest s.solves).timestamp now expected in
      (
        ok score,
        record s {
          solves =
              s.solves
              ++ record { key = some c.key; step = find_it; timestamp = now; score = score } ∷ [];
        },
      )
]

unfoldable pub calculate_fix_it_cheat_score : ℕ → Challenge → ℕ → State → Score × State
calculate_fix_it_cheat_score now c fixes s =
    let score = remaining (latest s.solves).timestamp now (fixes / 2 * 60000) in
    (
      score,
      record s {
        solves =
            s.solves
            ++ record { key = some c.key; step = fix_it; timestamp = now; score = score } ∷ [];
      },
    )

-- `median` is the package's.
unfoldable pub total_cheat_score : (List Score → Score) → State → Score
total_cheat_score median s =
    if ltb 1 (length s.solves) then median (map (λ (x : Solve). x.score) s.solves) else frac 0 1

-- One round of the inner loop of `checkForPreSolveInteractions`, for a URL that ends with the
-- fragment or not.
unfoldable pub mark_seen : (String → Bool) → List String → List Bool → List Bool
mark_seen ends (f ∷ fs) (b ∷ bs) = (if ends f then true else b) ∷ mark_seen ends fs bs
mark_seen ends (f ∷ fs) [] = []
mark_seen ends [] bs = bs

unfoldable pub check_for_pre_solve_interactions : (String → Bool) → State → State
unfolding mark_seen
check_for_pre_solve_interactions ends s = record s {
  interactions =
      map (λ (i : Interaction). record i { seen = mark_seen ends i.url_fragments i.seen })
        s.interactions;
}
