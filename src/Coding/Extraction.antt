-- ===== src/Coding/Extraction.antt =====
-- lib/codingChallenges.ts: the files with snippets, the marked lines, and the cache of
-- `getCodeChallenges`. The regular expressions that cut a snippet out of a file are an argument,
-- `extract`, which throws where the boundaries of a snippet are broken; those that find marked lines
-- are modelled.
pub mod Lines
pub mod Loading
use Prim.Native.String
use runc.Prelude.{
  ℕ, ◌+◌, String, Bool, false, ◌||◌, Option, none, some, List, [], ◌∷◌, ◌++◌, ◌===◌, if◌then◌else◌,
}
use runc.Prelude.Texts.{starts_with, contains}
use runc.Prelude.Http.{Outcome, ok, thrown}

pub record FileMatch : Type 0 where
  pub path : String
  pub content : String

-- What the file system has at a path; `lstat` rejects for a path that is gone, and a file that
-- cannot be read has no content.
mutual
  pub data Entry : Type 0 where
    file : String → Option String → Entry
    directory : Entries → Entry
    gone : String → Entry

  pub data Entries : Type 0 where
    nothing : Entries
    also : Entry → Entries → Entries

-- The marks are split in the source, so that it does not find itself.
abbrev has_mark : String → Bool
has_mark s = contains s "// vuln-code-snippet start" || contains s "# vuln-code-snippet start"

abbrev pub match_of : String → Option String → List FileMatch
match_of path none = []
match_of path (some content) =
    if has_mark content then record { path = path; content = content } ∷ [] else []

-- `matches.push(...moreMatches)`
abbrev pub followed_by :
    Outcome (List FileMatch) → Outcome (List FileMatch) → Outcome (List FileMatch)
followed_by (thrown e) rest = thrown e
followed_by (ok ms) (thrown e) = thrown e
followed_by (ok ms) (ok ns) = ok (ms ++ ns)

unfoldable mutual
  pub find_in : Entry → Outcome (List FileMatch)
  find_in (file path content) = ok (match_of path content)
  find_in (directory es) = find_files_with_code_challenges es
  find_in (gone e) = thrown e

  pub find_files_with_code_challenges : Entries → Outcome (List FileMatch)
  find_files_with_code_challenges nothing = ok []
  find_files_with_code_challenges (also e es) =
      followed_by (find_in e) (find_files_with_code_challenges es)

-- The text behind the first place where a text stands.
abbrev pub behind : String → String → Option String
behind String.[] p = none
behind (String.◌∷◌ c s) p =
    let rest = behind s p in if starts_with (String.◌∷◌ c s) p then some s else rest

abbrev found_behind : Option String → String → Bool
found_behind none key = false
found_behind (some rest) key = contains rest key

-- `new RegExp(`vuln-code-snippet vuln-line.*${challengeKey}`).exec(line) != null`, and of neutral
-- lines. No challenge's key stands inside the mark itself.
abbrev pub is_vuln_line : String → String → Bool
is_vuln_line key line = found_behind (behind line "vuln-code-snippet vuln-line") key

abbrev pub is_neutral_line : String → String → Bool
is_neutral_line key line = found_behind (behind line "vuln-code-snippet neutral-line") key

-- The loop over the lines, from line `i + 1` on.
unfoldable pub marked_lines : String → ℕ → List String → List ℕ × List ℕ
marked_lines key i [] = ([], [])
marked_lines key i (line ∷ lines) =
    let (vuln, neutral) = marked_lines key (i + 1) lines in
    if is_vuln_line key line
    then ((i + 1) ∷ vuln, neutral)
    else if is_neutral_line key line
    then (vuln, (i + 1) ∷ neutral)
    else (vuln, neutral)

pub record CachedCodeChallenge : Type 0 where
  pub snippet : String
  pub vuln_lines : List ℕ
  pub neutral_lines : List ℕ

abbrev pub CodeChallenges : Type 0
CodeChallenges = List (String × CachedCodeChallenge)

-- `Map.set`
abbrev pub set : CodeChallenges → String → CachedCodeChallenge → CodeChallenges
set [] k v = (k, v) ∷ []
set ((j, w) ∷ m) k v = if j === k then (j, v) ∷ m else (j, w) ∷ set m k v

abbrev pub set_all : CodeChallenges → CodeChallenges → CodeChallenges
set_all [] m = m
set_all ((k, v) ∷ cs) m = set_all cs (set m k v)

-- `_internalCodeChallenges`
abbrev pub Cache : Type 0
Cache = Option CodeChallenges

-- A call up to its first wait: with a map it returns at once, and without one it sets an empty
-- map and waits for the files, which is `none` here.
unfoldable pub call : Cache → Option CodeChallenges × Cache
call none = (none, some [])
call (some m) = (some m, some m)

abbrev pub or_empty : Cache → CodeChallenges
or_empty none = []
or_empty (some m) = m

abbrev pub result_of : Outcome (Unit {0}) × CodeChallenges → Outcome CodeChallenges × Cache
result_of (ok u, m) = (ok m, some m)
result_of (thrown e, m) = (thrown e, some m)

module _ (extract : FileMatch → Outcome CodeChallenges) where
  -- The loops over the files and over the challenges of each; what was set before a throw stays.
  unfoldable pub fill : List FileMatch → CodeChallenges → Outcome (Unit {0}) × CodeChallenges
  fill [] m = (ok tt, m)
  fill (f ∷ fs) m = elim (extract f) [ thrown e ↦ (thrown e, m) | ok cs ↦ fill fs (set_all cs m) ]

  -- The rest of the waiting call, when the search for files has ended.
  unfoldable pub resume : Outcome (List FileMatch) → Cache → Outcome CodeChallenges × Cache
  unfolding fill
  resume (thrown e) cache = (thrown e, cache)
  resume (ok files) cache = result_of (fill files (or_empty cache))
