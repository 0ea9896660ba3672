-- ===== src/Coding/Fixes.antt =====
-- routes/vulnCodeFixes.ts of test-container/rootfs/juice-shop: the "Fix it" phase of a coding
-- challenge. `files` is what reading the directory of fixes gives, the names with their contents;
-- `infos` is the list in the challenge's .info.yml file, if there is one. Texts are not translated.
pub mod Verdicts
use runc.Prelude.{
  ℕ, ◌+◌, ◌-◌, ◌*◌, String, Bool, true, false, ◌&&◌, Option, none, some, List, [], ◌∷◌, ◌++◌, leb,
  ◌==◌, ◌===◌, if◌then◌else◌, length, find, concat_texts,
}
use runc.Prelude.Int.{ℤ, pos, negsuc, ◌+ℤ◌, ◌-ℤ◌, leb_ℤ}
use runc.Prelude.Http.{Outcome, ok, thrown, Action, pure, modify, ◌>>=◌, ◌>>◌, Reply, send, refuse}
use Prim.Native.Char.{code}
use Prim.Native.String
use runc.Prelude.Texts.{starts_with}
use runc.Database.{Orm}
use runc.Coding.Accuracy.{store_fix_it_verdict}
use runc.Challenges.{Board, Environment, solve_fix_it}

-- `none` is NaN.
pub record CodeFix : Type 0 where
  pub fixes : List String
  pub correct : Option ℤ

abbrev pub Cache : Type 0
Cache = List (String × CodeFix)

pub record State : Type 0 where
  pub code_fixes : Cache
  pub board : Board

abbrev pub cached : String → Cache → Option CodeFix
cached key [] = none
cached key ((k, d) ∷ c) = if k === key then some d else cached key c

-- `s.split('_')`: the first part, and the others.
abbrev pub split : String → String × List String
split String.[] = (String.[], [])
split (String.◌∷◌ c s) =
    let (part, parts) = split s in
    if code c == 95 then (String.[], part ∷ parts) else (String.◌∷◌ c part, parts)

abbrev is_digit : ℕ → Bool
is_digit c = leb 48 c && leb c 57

abbrev digits : String → ℕ → ℕ
digits String.[] acc = acc
digits (String.◌∷◌ c s) acc =
    let rest = digits s (10 * acc + (code c - 48)) in if is_digit (code c) then rest else acc

-- `parseInt(s, 10)` of a text that begins with a digit or not; blanks and signs are not read.
abbrev pub parse_int : String → Option ℤ
parse_int String.[] = none
parse_int (String.◌∷◌ c s) = if is_digit (code c) then some (pos (digits s (code c - 48))) else none

-- `metadata[1]`, when there are three parts.
abbrev pub correct_part : String → Option String
correct_part file = elim (split file).1 [ number ∷ kind ∷ [] ↦ some number | _ ↦ none ]

-- `parseInt(number, 10)`, less one
abbrev pub index_of : String → Option ℤ
index_of number = elim (parse_int number) [ none ↦ none | some n ↦ some (n -ℤ pos 1) ]

-- One round of the loop of `readFixes`.
abbrev pub read_file : String → String × String → CodeFix → CodeFix
read_file key (file, text) d =
    if starts_with file (concat_texts (key ∷ "_" ∷ []))
    then record {
      fixes = d.fixes ++ text ∷ [];
      correct = elim (correct_part file) [ none ↦ d.correct | some number ↦ index_of number ];
    }
    else d

abbrev pub read_each : String → List (String × String) → CodeFix → CodeFix
read_each key [] d = d
read_each key (file ∷ files) d = read_each key files (read_file key file d)

abbrev pub no_fixes : CodeFix
no_fixes = record { fixes = []; correct = some (negsuc 0) }

unfoldable pub read_fixes : Outcome (List (String × String)) → String → Action Cache CodeFix
read_fixes files key c = elim (cached key c) [
  | some d ↦ (ok d, c)
  | none ↦ elim files [
    | thrown e ↦ (thrown e, c)
    | ok names ↦ let d = read_each key names no_fixes in (ok d, (key, d) ∷ c)
  ]
]

abbrev pub on_cache : {A : Type 0} → Action Cache A → Action State A
on_cache m s = let (r, c) = m s.code_fixes in (r, record s { code_fixes = c })

abbrev pub on_board : {A : Type 0} → Action Board A → Action State A
on_board m s = let (r, b) = m s.board in (r, record s { board = b })

unfoldable pub serve_code_fixes :
    Outcome (List (String × String)) → String → Action State (Reply (List String))
unfolding read_fixes
serve_code_fixes files key = do
  d ← on_cache (read_fixes files key)
  if length d.fixes == 0
      then pure (refuse 404 "No fixes found for the snippet!")
      else pure (send 200 d.fixes)

pub record Verdict : Type 0 where
  pub verdict : Bool
  pub explanation : Option String

abbrev pub has_id : ℤ → ℤ × String → Bool
has_id n info = leb_ℤ info.0 n && leb_ℤ n info.0

-- The explanation of the fix with the next number, if it is not empty.
abbrev pub explanation_of : Option (List (ℤ × String)) → ℤ → Option String
explanation_of none selected_fix = none
explanation_of (some infos) selected_fix = elim (find (has_id (selected_fix +ℤ pos 1)) infos) [
  | none ↦ none
  | some (id, text) ↦ if text === "" then none else some text
]

abbrev pub is_correct : ℤ → CodeFix → Bool
is_correct selected_fix d = elim d.correct [
  | none ↦ false
  | some n ↦ leb_ℤ n selected_fix && leb_ℤ selected_fix n
]

module _ (o : Orm) (env : Environment) where
  -- What `checkCorrectFix` does with the fixes that were read.
  abbrev pub answer_found :
      ℕ → Option (List (ℤ × String)) → String → ℤ → CodeFix → Action State (Reply Verdict)
  answer_found now infos key selected_fix d =
      let explanation = explanation_of infos selected_fix in
      if length d.fixes == 0
      then pure (refuse 404 "No fixes found for the snippet!")
      else if is_correct selected_fix d
      then (do
        on_board (solve_fix_it o env now (length d.fixes) key false)
        pure (send 200 (record { verdict = true; explanation = explanation })))
      else (do
        on_board (
            modify
              (λ (b : Board). record b { accuracy = store_fix_it_verdict key false b.accuracy }))
        pure (send 200 (record { verdict = false; explanation = explanation })))

  unfoldable pub check_correct_fix :
      ℕ
      → Outcome (List (String × String))
      → Option (List (ℤ × String))
      → String
      → ℤ
      → Action State (Reply Verdict)
  unfolding read_fixes
  check_correct_fix now files infos key selected_fix =
      on_cache (read_fixes files key) >>= answer_found now infos key selected_fix
