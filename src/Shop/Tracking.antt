-- ===== src/Shop/Tracking.antt =====
-- Tracking of orders (routes/trackOrder.ts). The collection's `find` with a `$where` in JavaScript
-- is an argument: it is given the text of the condition.
pub mod Quoting
use Prim.Native.Char.{code}
use Prim.Native.String
use runc.Prelude.{
  ℕ, zero, suc, ◌-◌, String, Bool, false, not, ◌&&◌, ◌||◌, List, [], ◌∷◌, ◌++◌, map, ltb, leb, ◌==◌,
  ◌===◌, if◌then◌else◌, length, find, concat_texts,
}
use runc.Prelude.Texts.{contains}
use runc.Prelude.Http.{Outcome, ok, thrown}
use runc.Challenges.{Board, solve_if}
use runc.Challenges.Enabled.{SafetyMode, Surroundings}
use runc.Sanitizing.{is_enabled, iframe}

-- `[\w-]`
abbrev pub is_word_or_dash : ℕ → Bool
is_word_or_dash c =
    (leb b'a' c && leb c b'z')
    || ((leb b'A' c && leb c b'Z') || ((leb b'0' c && leb c b'9') || (c == b'_' || c == b'-')))

-- `text.replace(/[^\w-]+/g, '')`
unfoldable pub only_words : String → String
only_words String.[] = String.[]
only_words (String.◌∷◌ c s) =
    let rest = only_words s in if is_word_or_dash (code c) then String.◌∷◌ c rest else rest

abbrev pub characters : String → ℕ
characters String.[] = 0
characters (String.◌∷◌ c s) = suc (characters s)

abbrev first_part : ℕ → String → String
first_part zero s = String.[]
first_part (suc n) String.[] = String.[]
first_part (suc n) (String.◌∷◌ c s) = String.◌∷◌ c (first_part n s)

-- `str.replace(/(\r\n|\n|\r)/gm, '')`
unfoldable pub one_line : String → String
one_line String.[] = String.[]
one_line (String.◌∷◌ c s) =
    let rest = one_line s in if code c == 10 || code c == 13 then rest else String.◌∷◌ c rest

-- `trunc` of lib/utils.ts
unfoldable pub trunc : String → ℕ → String
unfolding one_line
trunc text n =
    let s = one_line text in
    if ltb n (characters s) then String.◌++◌ (first_part (n - 1) s) "..." else s

-- An order as the answer has it: a stored one, or the id alone.
pub data Tracked (Order : Type 0) : Type 0 where
  stored : Order → Tracked Order
  unknown : String → Tracked Order

pub data TrackReply (Order : Type 0) : Type 0 where
  found : List (Tracked Order) → TrackReply Order
  wrong_param : TrackReply Order

-- The condition of the query.
abbrev pub where_order : String → String
where_order id = concat_texts ("this.orderId === '" ∷ id ∷ "'" ∷ [])

module _ {Order : Type 0} (mode : SafetyMode) (at : Surroundings)
    (find : String → Outcome (List Order)) where
  unfoldable pub tracked_id : String → Board → String
  unfolding only_words trunc
  tracked_id id b =
      if not (is_enabled mode at "reflectedXssChallenge" b) then only_words id else trunc id 60

  abbrev or_unknown : String → List Order → List (Tracked Order)
  or_unknown id [] = unknown id ∷ []
  or_unknown id (o ∷ os) = map (λ x. stored x) (o ∷ os)

  abbrev tracked : String → Board → Outcome (List Order) → TrackReply Order × Board
  tracked id b (ok os) =
      (found (or_unknown id os), solve_if "noSqlOrdersChallenge" (ltb 1 (length os)) false b)
  tracked id b (thrown x) = (wrong_param, b)

  unfoldable pub track_order : String → Board → TrackReply Order × Board
  unfolding tracked_id
  track_order param b =
      let id = tracked_id param b in
      tracked id (solve_if "reflectedXssChallenge" (contains id iframe) false b)
        (find (where_order id))
