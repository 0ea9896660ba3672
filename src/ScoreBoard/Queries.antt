-- ===== src/ScoreBoard/Queries.antt =====
-- The filter's settings in the address bar: `fromQueryParams` and `toQueryParams`
-- (frontend/src/app/score-board/filter-settings/query-params-converters.ts), with the methods of
-- arrays, texts and numbers that they call. A parameter that the router leaves out is `none`.
pub mod RoundTrip
use Prim.Native.Char.{code}
use Prim.Native.String
use runc.Prelude.{
  ℕ, zero, suc, ◌+◌, ◌-◌, ◌*◌, String, Bool, true, not, ◌&&◌, ◌||◌, Option, none, some, List, [],
  ◌∷◌, map, leb, ◌==◌, ◌===◌, if◌then◌else◌,
}
use runc.Prelude.Int.{ℤ, pos, negsuc}
use runc.Prelude.Commas.{split_comma, join_comma}
use runc.Prelude.Numerals.{to_string}
use runc.ScoreBoard.{FilterSetting, default_filter_setting}

pub record Params : Type 0 where
  pub search_query : Option String
  pub difficulties : Option String
  pub tags : Option String
  pub status : Option String
  pub categories : Option String
  pub show_disabled_challenges : Option String

abbrev is_digit : ℕ → Bool
is_digit c = leb b'0' c && leb c b'9'

abbrev is_space : ℕ → Bool
is_space c = (leb 9 c && leb c 13) || c == 32 || c == 160

-- The digits that a text starts with, behind those read so far.
abbrev read_digits : String → Option ℕ → Option ℕ
read_digits String.[] acc = acc
read_digits (String.◌∷◌ c s) acc =
    let d = code c - b'0' in
    let rest = read_digits s (some (elim acc [ none ↦ d | some n ↦ n * 10 + d ])) in
    if is_digit (code c) then rest else acc

abbrev negated : ℕ → ℤ
negated zero = pos 0
negated (suc n) = negsuc n

abbrev signed : String → Option ℤ
signed String.[] = none
signed (String.◌∷◌ c s) =
    if code c == b'-'
    then elim (read_digits s none) [ none ↦ none | some n ↦ some (negated n) ]
    else elim (read_digits (if code c == b'+' then s else String.◌∷◌ c s) none) [
      | none ↦ none
      | some n ↦ some (pos n)
    ]

abbrev trim_start : String → String
trim_start String.[] = String.[]
trim_start (String.◌∷◌ c s) =
    let rest = trim_start s in if is_space (code c) then rest else String.◌∷◌ c s

-- `parseInt(s, 10)`; `none` is `NaN`
unfoldable pub parse_int : String → Option ℤ
parse_int s = signed (trim_start s)

abbrev prepend_number : Option ℤ → List ℤ → List ℤ
prepend_number none ns = ns
prepend_number (some n) ns = n ∷ ns

-- `.map((difficulty) => parseInt(difficulty, 10)).filter((difficulty) => !isNaN(difficulty))`
unfoldable pub numbers : List String → List ℤ
numbers [] = []
numbers (s ∷ ss) = prepend_number (parse_int s) (numbers ss)

-- A text that is missing or empty is falsy.
abbrev truthy : Option String → Option String
truthy none = none
truthy (some s) = if s === "" then none else some s

abbrev split_all : Option String → List String
split_all none = []
split_all (some s) = split_comma s

abbrev parts : Option String → List String
parts o = split_all (truthy o)

abbrev shows_disabled : Option String → Bool
shows_disabled none = true
shows_disabled (some s) = s === "true"

unfoldable pub from_query_params : Params → FilterSetting
from_query_params q = record default_filter_setting {
  search_query = truthy q.search_query;
  difficulties = numbers (parts q.difficulties);
  tags = parts q.tags;
  status = truthy q.status;
  categories = parts q.categories;
  show_disabled_challenges = shows_disabled q.show_disabled_challenges;
}

-- `s || undefined`
abbrev or_undefined : String → Option String
or_undefined s = if s === "" then none else some s

unfoldable pub to_query_params : FilterSetting → Params
to_query_params f = record {
  search_query = f.search_query;
  difficulties = or_undefined (join_comma (map to_string f.difficulties));
  status = f.status;
  tags = or_undefined (join_comma f.tags);
  categories = or_undefined (join_comma f.categories);
  show_disabled_challenges = if not f.show_disabled_challenges then some "false" else none;
}
