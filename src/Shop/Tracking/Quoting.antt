-- ===== src/Shop/Tracking/Quoting.antt =====
-- Which conditions the tracking of an order can ask the collection for.
use Prim.Native.Char.{code}
use Prim.Native.String
use Prim.Native.String.append
use runc.Prelude.{
  ℕ, zero, suc, ◌+◌, ◌-◌, ◌≤◌, String, ◌≡◌, ap, inl, inr, true, false, List, arith, ltb, Bool-cases,
}
use runc.Prelude.Http.{Outcome}
use runc.Challenges.{Board}
use runc.Challenges.Enabled.{SafetyMode, Surroundings}
use runc.Sanitizing.{is_enabled}
use runc.Shop.Tracking.{
  is_word_or_dash, only_words, characters, one_line, first_part, trunc, where_order, tracked_id,
  tracked, track_order,
}

-- Letters, digits, underscores and dashes.
abbrev pub AreWords : String → Type 0
AreWords String.[] = Unit
AreWords (String.◌∷◌ c s) = (is_word_or_dash (code c) ≡ true) × AreWords s

only_words-AreWords : (s : String) → AreWords (only_words s)
unfolding only_words
only_words-AreWords String.[] = tt
only_words-AreWords (String.◌∷◌ c s) = elim (Bool-cases (is_word_or_dash (code c))) [
  | inl k ↦
      let both : AreWords (String.◌∷◌ c (only_words s)) = (k, only_words-AreWords s) in rw k both
  | inr k ↦ rw k (only_words-AreWords s)
]

first_part_bound : (n : ℕ) (s : String) → characters (first_part n s) ≤ n
first_part_bound zero s = omega arith
first_part_bound (suc n) String.[] = omega arith
first_part_bound (suc n) (String.◌∷◌ c s) = omega (arith, first_part_bound n s)

characters-append : (s t : String) → characters (String.◌++◌ s t) ≡ characters s + characters t
characters-append String.[] t = rw (append.nil t) (omega arith)
characters-append (String.◌∷◌ c s) t = rw (append.cons c s t) (omega (arith, characters-append s t))

trunc_bound : (s : String) (n : ℕ) → characters (trunc s (suc n)) ≤ n + 3
unfolding trunc
trunc_bound s n = elim (Bool-cases (ltb (suc n) (characters (one_line s)))) [
  | inl k ↦
      let e : suc n - 1 ≡ n = omega arith in
      rw k (
        rw (e, characters-append (first_part n (one_line s)) "...")
          (omega (arith, first_part_bound n (one_line s))))
  | inr k ↦ rw k (ground arith)
]

-- If the challenge of the tracking is disabled, the answer depends on the collection only at
-- conditions that compare with a text of letters, digits, underscores and dashes, so no other
-- condition can be asked for; if it is enabled, the text has at most 62 characters.
pub track_order-AreWords :
    {Order : Type 0} (mode : SafetyMode) (at : Surroundings)
    (find_order other : String → Outcome (List Order)) (param : String) (b : Board)
    → ((is_enabled mode at "reflectedXssChallenge" b ≡ false)
        → ((id : String) → AreWords id → find_order (where_order id) ≡ other (where_order id))
        → track_order mode at find_order param b ≡ track_order mode at other param b)
      × ((is_enabled mode at "reflectedXssChallenge" b ≡ true)
          → characters (tracked_id mode at find_order param b) ≤ 62)
unfolding track_order tracked_id
track_order-AreWords mode at find_order other param b = (
  λ h same. rw h (
      ap (tracked mode at find_order (only_words param) _)
        (same (only_words param) (only_words-AreWords param))),
  λ h. rw h (trunc_bound param 59),
)
