-- ===== src/ScoreBoard/Queries/RoundTrip.antt =====
-- What `toQueryParams` writes into the address bar, `fromQueryParams` reads back.
use Prim.Native.Char.{Char, code}
use Prim.Native.String
use Prim.Native.String.append
use runc.Prelude.{
  ℕ, zero, suc, ◌≤◌, String, ◌≡◌, refl, sym, ap, ◌∙◌, ◌≢◌, inl, inr, Bool, true, false, not, Option,
  none, some, List, [], ◌∷◌, map, arith, ◌==◌, ◌===◌, ===_iff, if◌then◌else◌, Bool-cases, All,
}
use runc.Prelude.Int.{ℤ, pos}
use runc.Prelude.Numerals.{to_string}
use runc.ScoreBoard.{FilterSetting}
use runc.Prelude.Commas.{split_at_comma, split_comma, join_comma}
use runc.ScoreBoard.Queries.{
  parse_int, numbers, from_query_params, to_query_params, truthy, parts, split_all, prepend_number,
  shows_disabled, or_undefined,
}

-- A text with no comma in it.
abbrev pub HasNoComma : String → Type 0
HasNoComma String.[] = Unit
HasNoComma (String.◌∷◌ c s) = (code c ≢ b',') × HasNoComma s

split_last : (s : String) → HasNoComma s → split_at_comma s ≡ (s, [])
split_last String.[] h = refl
split_last (String.◌∷◌ c s) (h, hs) =
    let other : (code c == b',') ≡ false = ground arith in rw (other, split_last s hs) refl

split_part :
    (s r : String)
    → HasNoComma s
    → split_at_comma (String.◌++◌ s (String.◌∷◌ "," r)) ≡ (s, split_comma r)
unfolding split_comma
split_part String.[] r h = rw (append.nil (String.◌∷◌ "," r)) refl
split_part (String.◌∷◌ c s) r (h, hs) =
    let other : (code c == b',') ≡ false = ground arith in
    rw (append.cons c s (String.◌∷◌ "," r)) (rw (other, split_part s r hs) refl)

-- Parts without a comma, of which there is one at least, are split as they were joined.
split-join :
    (x : String) (xs : List String)
    → All HasNoComma (x ∷ xs)
    → split_comma (join_comma (x ∷ xs)) ≡ x ∷ xs
unfolding split_comma join_comma
split-join x [] (h, hs) = rw (split_last x h) refl
split-join x (y ∷ ys) (h, hs) =
    rw (split_part x (join_comma (y ∷ ys)) h)
      (ap (λ (zs : List String). x ∷ zs) (split-join y ys hs))

append_ne_empty : (s t : String) (c : Char) → String.◌++◌ s (String.◌∷◌ c t) ≢ String.[]
append_ne_empty String.[] t c e = let g = rw (append.nil (String.◌∷◌ c t)) at e in cc
append_ne_empty (String.◌∷◌ d s) t c e = let g = rw (append.cons d s (String.◌∷◌ c t)) at e in cc

join_ne_empty : (x : String) (xs : List String) → x ≢ String.[] → join_comma (x ∷ xs) ≢ String.[]
unfolding join_comma
join_ne_empty x [] h = h
join_ne_empty x (y ∷ ys) h = append_ne_empty x (join_comma (y ∷ ys)) ","

truthy-some : (s : String) → s ≢ String.[] → truthy (some s) ≡ some s
truthy-some s h = elim (Bool-cases (s === "")) [
  | inl k ↦ absurd (h ((===_iff s "").0 k))
  | inr k ↦ rw k refl
]

or_undefined-some : (s : String) → s ≢ String.[] → or_undefined s ≡ some s
or_undefined-some s h = elim (Bool-cases (s === "")) [
  | inl k ↦ absurd (h ((===_iff s "").0 k))
  | inr k ↦ rw k refl
]

-- A part that the address bar can carry: a text with something in it, and no comma.
abbrev pub IsPart : String → Type 0
IsPart s = (s ≢ String.[]) × HasNoComma s

no_commas : (xs : List String) → All IsPart xs → All HasNoComma xs
no_commas [] h = tt
no_commas (x ∷ xs) ((_, h), hs) = (h, no_commas xs hs)

parts-join : (xs : List String) → All IsPart xs → parts (or_undefined (join_comma xs)) ≡ xs
unfolding join_comma
parts-join [] h = refl
parts-join (x ∷ xs) ((n, h), hs) =
    let ne = join_ne_empty x xs n in
    ap parts (or_undefined-some (join_comma (x ∷ xs)) ne)
    ∙ ap split_all (truthy-some (join_comma (x ∷ xs)) ne)
    ∙ split-join x xs (h, no_commas xs hs)

-- One of the six difficulties.
abbrev pub IsDifficulty : ℤ → Type 0
IsDifficulty d = (n : ℕ) × (1 ≤ n) × (n ≤ 6) × (d ≡ pos n)

difficulty_text :
    (n : ℕ)
    → 1 ≤ n
    → n ≤ 6
    → IsPart (to_string (pos n)) × (parse_int (to_string (pos n)) ≡ some (pos n))
unfolding to_string parse_int
difficulty_text zero a b = absurd (omega arith)
difficulty_text (suc zero) a b = ((cc, (omega arith, tt)), refl)
difficulty_text (suc (suc zero)) a b = ((cc, (omega arith, tt)), refl)
difficulty_text (suc (suc (suc zero))) a b = ((cc, (omega arith, tt)), refl)
difficulty_text (suc (suc (suc (suc zero)))) a b = ((cc, (omega arith, tt)), refl)
difficulty_text (suc (suc (suc (suc (suc zero))))) a b = ((cc, (omega arith, tt)), refl)
difficulty_text (suc (suc (suc (suc (suc (suc zero)))))) a b = ((cc, (omega arith, tt)), refl)
difficulty_text (suc (suc (suc (suc (suc (suc (suc n))))))) a b = absurd (omega arith)

difficulty_parts : (ds : List ℤ) → All IsDifficulty ds → All IsPart (map to_string ds)
difficulty_parts [] h = tt
difficulty_parts (d ∷ ds) ((n, a, b, e), hs) =
    (rw e (difficulty_text n a b).0, difficulty_parts ds hs)

numbers-to_string : (ds : List ℤ) → All IsDifficulty ds → numbers (map to_string ds) ≡ ds
unfolding numbers
numbers-to_string [] h = refl
numbers-to_string (d ∷ ds) ((n, a, b, e), hs) =
    let read : parse_int (to_string d) ≡ some d = rw e (difficulty_text n a b).1 in
    λ i. prepend_number (read i) (numbers-to_string ds hs i)

truthy_lem : (o : Option String) → o ≢ some "" → truthy o ≡ o
truthy_lem none h = refl
truthy_lem (some s) h = truthy-some s λ e. h (ap some e)

shown_again : (b : Bool) → shows_disabled (if not b then some "false" else none) ≡ b
shown_again true = refl
shown_again false = refl

-- Settings that the address bar can carry: tags and categories are not empty texts and have no
-- comma, difficulties run from 1 to 6, a query or status is not the empty text, and the
-- restriction to tutorials, which is not written, is off.
pub record IsCarried (f : FilterSetting) : Type 0 where
  pub categories : All IsPart f.categories
  pub difficulties : All IsDifficulty f.difficulties
  pub tags : All IsPart f.tags
  pub status : f.status ≢ some ""
  pub search_query : f.search_query ≢ some ""
  pub unrestricted : f.restrict_to_tutorial_challenges_first ≡ false

-- Such settings, written into the address bar, are read back unchanged.
pub from_query_params-to_query_params :
    (f : FilterSetting) → IsCarried f → from_query_params (to_query_params f) ≡ f
unfolding from_query_params to_query_params
from_query_params-to_query_params f w =
    let numbered =
      ap numbers
        (parts-join (map to_string f.difficulties) (difficulty_parts f.difficulties w.difficulties))
      ∙ numbers-to_string f.difficulties w.difficulties in
    λ i. record {
      categories = parts-join f.categories w.categories i;
      difficulties = numbered i;
      tags = parts-join f.tags w.tags i;
      status = truthy_lem f.status w.status i;
      search_query = truthy_lem f.search_query w.search_query i;
      show_disabled_challenges = shown_again f.show_disabled_challenges i;
      restrict_to_tutorial_challenges_first = sym w.unrestricted i;
    }
