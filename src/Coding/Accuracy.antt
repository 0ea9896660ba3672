-- ===== src/Coding/Accuracy.antt =====
-- lib/accuracy.ts of test-container/rootfs/juice-shop: how often a coding challenge was tried.
-- The module's `solves` is an association list by challenge key; the fraction that the source
-- computes in floating point is kept as its numerator and denominator.
pub mod Replay
pub mod Totals
use mathlib.Core.Option
use runc.Prelude.{
  ℕ, ◌+◌, ◌*◌, String, Bool, false, Option, none, some, List, [], ◌∷◌, ◌==◌, ◌===◌, if◌then◌else◌,
}
use runc.Prelude.Http.{Outcome, ok, thrown}

pub data Phase : Type 0 where
  find_it fix_it : Phase

-- The state of one phase: its verdict and its attempts.
pub record Tally : Type 0 where
  pub solved : Bool
  pub attempts : ℕ

pub record Entry : Type 0 where
  pub find_tally : Tally
  pub fix_tally : Tally

abbrev pub Solves : Type 0
Solves = List (String × Entry)

abbrev pub fresh_tally : Tally
fresh_tally = record { solved = false; attempts = 0 }

abbrev pub fresh : Entry
fresh = record { find_tally = fresh_tally; fix_tally = fresh_tally }

abbrev pub tally : Phase → Entry → Tally
tally find_it e = e.find_tally
tally fix_it e = e.fix_tally

abbrev pub set_tally : Phase → Tally → Entry → Entry
set_tally find_it t e = record e { find_tally = t }
set_tally fix_it t e = record e { fix_tally = t }

abbrev pub lookup : String → Solves → Option Entry
lookup k [] = none
lookup k ((j, e) ∷ s) = if j === k then some e else lookup k s

-- `solves[key] = e`
abbrev pub put : String → Entry → Solves → Solves
put k e [] = (k, e) ∷ []
put k e ((j, d) ∷ s) = if j === k then (j, e) ∷ s else (j, d) ∷ put k e s

-- `if (!solves[key][phase]) { solves[key][phase] = verdict; solves[key].attempts[phase]++ }`
abbrev pub vote : Bool → Tally → Tally
vote verdict t = if t.solved then t else record { solved = verdict; attempts = t.attempts + 1 }

unfoldable pub store_verdict : String → Phase → Bool → Solves → Solves
store_verdict key phase verdict s =
    let entry = Option.get_or (lookup key s) fresh in
    put key (set_tally phase (vote verdict (tally phase entry)) entry) s

unfoldable pub store_find_it_verdict : String → Bool → Solves → Solves
unfolding store_verdict
store_find_it_verdict key verdict s = store_verdict key find_it verdict s

unfoldable pub store_fix_it_verdict : String → Bool → Solves → Solves
unfolding store_verdict
store_fix_it_verdict key verdict s = store_verdict key fix_it verdict s

-- `1 / n` and sums of such
pub record Fraction : Type 0 where
  pub num : ℕ
  pub den : ℕ

-- Reading `solves[key]` of an unknown key throws a TypeError.
unfoldable pub calculate_accuracy : String → Phase → Solves → Outcome Fraction
calculate_accuracy key phase s = elim (lookup key s) [
  | none ↦ thrown "TypeError"
  | some e ↦ ok (
      if (tally phase e).solved
      then record { num = 1; den = (tally phase e).attempts }
      else record { num = 0; den = 1 })
]

abbrev pub add_fraction : Fraction → Fraction → Fraction
add_fraction a b = record { num = a.num * b.den + b.num * a.den; den = a.den * b.den }

-- One round of the loop of `totalAccuracy`, on its two variables.
abbrev pub total_step : Phase → Entry → Fraction × ℕ → Fraction × ℕ
total_step phase e (sum, solved) =
    if (tally phase e).solved
    then (add_fraction sum (record { num = 1; den = (tally phase e).attempts }), solved + 1)
    else (sum, solved)

abbrev pub total_from : Phase → Solves → Fraction × ℕ → Fraction × ℕ
total_from phase [] acc = acc
total_from phase ((_, e) ∷ s) acc = total_from phase s (total_step phase e acc)

-- `sumAccuracy / totalSolved`; `none` is the NaN of 0 / 0.
unfoldable pub total_accuracy : Phase → Solves → Option Fraction
total_accuracy phase s =
    let (sum, solved) = total_from phase s (record { num = 0; den = 1 }, 0) in
    if solved == 0 then none else some (record { num = sum.num; den = sum.den * solved })

unfoldable pub get_find_it_attempts : String → Solves → ℕ
get_find_it_attempts key s = elim (lookup key s) [ none ↦ 0 | some e ↦ e.find_tally.attempts ]
