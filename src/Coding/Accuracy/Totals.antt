-- ===== src/Coding/Accuracy/Totals.antt =====
-- lib/accuracy.ts: the accuracy of one challenge and of all of them lies between 0 and 1.

use native.Mathlib.Nat.{mul-le-mul_right}
use runc.Prelude.{
  ℕ, ◌+◌, ◌*◌, ◌≤◌, ◌<◌, String, ◌≡◌, refl, sym, ap, ◌∙◌, inl, inr, Bool, true, false, Option, none,
  some, List, [], ◌∷◌, arith, ◌==◌, ◌===◌, Bool-cases, any, All,
}
use runc.Prelude.Http.{ok}
use runc.Coding.Accuracy.{
  Phase, find_it, fix_it, Tally, Entry, Solves, fresh, tally, lookup, put, vote, store_verdict,
  Fraction, calculate_accuracy, total_step, total_from, total_accuracy,
}
use runc.Coding.Accuracy.Replay.{entry, Event, replay, verdicts, tries, replay-tally}

-- A challenge whose verdicts include a success has an accuracy of one divided by the number of
-- verdicts up to the first success.
pub calculate_accuracy-replay :
    (k : String) (ph : Phase) (log : List Event)
    → any (λ v. v) (verdicts k ph log) ≡ true
    → calculate_accuracy k ph (replay log [])
      ≡ ok (record { num = 1; den = tries (verdicts k ph log) })
unfolding calculate_accuracy
calculate_accuracy-replay k ph log h = known (lookup k (replay log [])) refl
  where
    same :
        tally ph (entry k (replay log []))
        ≡ record { solved = true; attempts = tries (verdicts k ph log) }
    same = replay-tally k ph log ∙ rw h

    unsolved : (q : Phase) → (tally q fresh).solved ≡ false
    unsolved find_it = refl
    unsolved fix_it = refl

    known :
        (o : Option Entry)
        → lookup k (replay log []) ≡ o
        → calculate_accuracy k ph (replay log [])
          ≡ ok (record { num = 1; den = tries (verdicts k ph log) })
    known none e =
        let t : tally ph fresh ≡ record { solved = true; attempts = tries (verdicts k ph log) } =
          rw e at same in
        let a : true ≡ false = sym (ap (λ (x : Tally). x.solved) t) ∙ unsolved ph in cc
    known (some d) e =
        let t : tally ph d ≡ record { solved = true; attempts = tries (verdicts k ph log) } =
          rw e at same in
        rw (e, calculate_accuracy) (rw t)

-- What is solved was attempted.
abbrev pub IsTried : Tally → Type 0
IsTried t = t.solved ≡ true → 1 ≤ t.attempts

abbrev pub IsValid : Solves → Type 0
IsValid s = All (λ (p : String × Entry). IsTried p.1.find_tally × IsTried p.1.fix_tally) s

lookup-IsValid :
    (k : String) (s : Solves)
    → IsValid s
    → IsTried (entry k s).find_tally × IsTried (entry k s).fix_tally
lookup-IsValid k [] h = ground arith
lookup-IsValid k ((j, e) ∷ s) (here, later) = elim (Bool-cases (j === k)) [
  | inl same ↦ rw same here
  | inr other ↦ rw other (lookup-IsValid k s later)
]

put-IsValid :
    (k : String) (e : Entry) (s : Solves)
    → IsTried e.find_tally × IsTried e.fix_tally
    → IsValid s
    → IsValid (put k e s)
put-IsValid k e [] g h = (g, tt)
put-IsValid k e ((j, d) ∷ s) g (here, later) = elim (Bool-cases (j === k)) [
  | inl same ↦ rw same (g, later)
  | inr other ↦ rw other (here, put-IsValid k e s g later)
]

vote-IsTried : (v : Bool) (t : Tally) → IsTried t → IsTried (vote v t)
vote-IsTried v t h = ground arith

-- Storing a verdict keeps the invariant that what is solved was attempted.
pub store_verdict-IsValid :
    (k : String) (ph : Phase) (v : Bool) (s : Solves) → IsValid s → IsValid (store_verdict k ph v s)
unfolding store_verdict
store_verdict-IsValid k find_it v s h =
    let (a, b) = lookup-IsValid k s h in
    put-IsValid k _ s (vote-IsTried v (entry k s).find_tally a, b) h
store_verdict-IsValid k fix_it v s h =
    let (a, b) = lookup-IsValid k s h in
    put-IsValid k _ s (a, vote-IsTried v (entry k s).fix_tally b) h

pub replay-IsValid : (log : List Event) (s : Solves) → IsValid s → IsValid (replay log s)
unfolding replay
replay-IsValid [] s h = h
replay-IsValid ((k, ph, v) ∷ log) s h =
    replay-IsValid log (store_verdict k ph v s) (store_verdict-IsValid k ph v s h)

-- The loop invariant of `totalAccuracy`: the sum lies between 0 and the number of terms.
abbrev InRange : Fraction × ℕ → Type 0
InRange (q, n) = (1 ≤ q.den) × (q.num ≤ n * q.den) × (1 ≤ n → 1 ≤ q.num)

add-InRange :
    (a d n t : ℕ)
    → 1 ≤ d
    → a ≤ n * d
    → 1 ≤ t
    → (1 ≤ d * t) × (a * t + 1 * d ≤ (n + 1) * (d * t)) × (1 ≤ a * t + 1 * d)
add-InRange a d n t hd ha ht =
    let b : 1 ≤ d * t = grind arith in
    let c : a * t ≤ n * d * t = mul-le-mul_right t ha in
    let e : d ≤ d * t = grind arith in (b, omega arith, omega arith)

total_step-InRange :
    (ph : Phase) (e : Entry) (acc : Fraction × ℕ)
    → IsTried (tally ph e)
    → InRange acc
    → InRange (total_step ph e acc)
total_step-InRange ph e (q, n) tried (hd, hn, hp) = elim (Bool-cases (tally ph e).solved) [
  | inl s ↦
      let (a, b, c) = add-InRange q.num q.den n (tally ph e).attempts hd hn (tried s) in
      rw s (a, b, λ _. c)
  | inr u ↦ rw u (hd, hn, hp)
]

tally-IsTried :
    (ph : Phase) (e : Entry) → IsTried e.find_tally × IsTried e.fix_tally → IsTried (tally ph e)
tally-IsTried find_it e h = h.0
tally-IsTried fix_it e h = h.1

total_from-InRange :
    (ph : Phase) (s : Solves) (acc : Fraction × ℕ)
    → IsValid s
    → InRange acc
    → InRange (total_from ph s acc)
total_from-InRange ph [] acc v h = h
total_from-InRange ph ((k, e) ∷ s) acc (here, later) h =
    total_from-InRange ph s (total_step ph e acc) later
      (total_step-InRange ph e acc (tally-IsTried ph e here) h)

-- After any log of verdicts the total accuracy, when it is a number, is above 0 and at most 1.
pub total_accuracy_bounds :
    (ph : Phase) (log : List Event) (q : Fraction)
    → total_accuracy ph (replay log []) ≡ some q
    → (0 < q.num) × (q.num ≤ q.den)
unfolding total_accuracy
total_accuracy_bounds ph log q h =
    let s : Solves = replay log [] in
    let acc : Fraction × ℕ = total_from ph s (record { num = 0; den = 1 }, 0) in
    let r : InRange acc =
      total_from-InRange ph s (record { num = 0; den = 1 }, 0) (replay-IsValid log [] tt)
        (omega arith) in
    elim (Bool-cases (acc.1 == 0)) [
      | inl z ↦ absurd (none_ne (rw z at h))
      | inr nz ↦ finish acc.0 acc.1 nz r (rw nz at h)
    ]
  where
    none_ne : ◌≡◌ {A = Option Fraction} none (some q) → ⊥
    none_ne e = cc

    finish :
        (sum : Fraction) (n : ℕ)
        → (n == 0) ≡ false
        → InRange (sum, n)
        → ◌≡◌ {A = Option Fraction} (some (record { num = sum.num; den = sum.den * n })) (some q)
        → (0 < q.num) × (q.num ≤ q.den)
    finish sum n nz (a, b, c) e =
        let num-eq : sum.num ≡ q.num = ground arith in
        let den-eq : sum.den * n ≡ q.den = ground arith in
        let pos_n : 1 ≤ n = ground arith in (omega (arith, c pos_n), omega arith)
