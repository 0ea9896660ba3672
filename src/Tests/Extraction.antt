-- ===== src/Tests/Extraction.antt =====
-- lib/codingChallenges.ts on concrete files.
use runc.Prelude.{ℕ, String, ◌≡◌, refl, false, ◌&&◌, none, some, List, [], ◌∷◌, length, includes}
use runc.Prelude.Texts.{starts_with, contains}
use runc.Prelude.Http.{Outcome, ok, thrown}
use runc.Coding.Extraction.{
  FileMatch, file, directory, nothing, also, find_in, find_files_with_code_challenges, marked_lines,
  CachedCodeChallenge, CodeChallenges, call, resume, fill,
}
use runc.Coding.Extraction.Lines.{IsAscending, marked_lines_bounds}
use runc.Coding.Extraction.Loading.{called_again, get_code_challenges_lem}

abbrev three_lines : List String
three_lines =
    "a // vuln-code-snippet neutral-line xChallenge" ∷ "b"
    ∷ "c // vuln-code-snippet vuln-line xChallenge" ∷ []

third_is_vulnerable : marked_lines "xChallenge" 0 three_lines ≡ (3 ∷ [], 1 ∷ [])
unfolding marked_lines starts_with contains
third_is_vulnerable = refl

marked_lines_bounds_example :
    IsAscending 0 (marked_lines "xChallenge" 0 three_lines).0 (length three_lines)
    × IsAscending 0 (marked_lines "xChallenge" 0 three_lines).1 (length three_lines)
    × ((n : ℕ)
        → (includes (marked_lines "xChallenge" 0 three_lines).0 n
            && includes (marked_lines "xChallenge" 0 three_lines).1 n)
          ≡ false)
marked_lines_bounds_example = marked_lines_bounds "xChallenge" three_lines

abbrev marked_file : FileMatch
marked_file = record { path = "routes/x.ts"; content = "// vuln-code-snippet start xChallenge" }

found_in_folder :
    find_files_with_code_challenges (
      also
        (directory (
          also
            (file "routes/x.ts" (some "// vuln-code-snippet start xChallenge"))
            (also (file "routes/y.ts" none) nothing)))
        nothing)
    ≡ ok (marked_file ∷ [])
unfolding find_files_with_code_challenges find_in contains starts_with
found_in_folder = refl

abbrev a_challenge : CachedCodeChallenge
a_challenge = record { snippet = "a"; vuln_lines = 1 ∷ []; neutral_lines = [] }

abbrev extract_one : FileMatch → Outcome CodeChallenges
extract_one f = ok (("xChallenge", a_challenge) ∷ [])

get_code_challenges_lem_example :
    ((call none).0 ≡ none)
    × ((call (called_again 2 (call none).1)).0 ≡ some [])
    × ((files : List FileMatch)
        → ◌≡◌ {A = Outcome (List FileMatch)} (ok (marked_file ∷ [])) (ok files)
        → (call (
            called_again 1
              (resume extract_one (ok (marked_file ∷ [])) (called_again 2 (call none).1)).1)).0
          ≡ some (fill extract_one files []).1)
    × ((e : String)
        → ◌≡◌ {A = Outcome (List FileMatch)} (ok (marked_file ∷ [])) (thrown e)
        → (call (
            called_again 1
              (resume extract_one (ok (marked_file ∷ [])) (called_again 2 (call none).1)).1)).0
          ≡ some [])
get_code_challenges_lem_example = get_code_challenges_lem extract_one 2 1 (ok (marked_file ∷ []))
