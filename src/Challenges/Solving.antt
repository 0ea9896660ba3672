-- ===== src/Challenges/Solving.antt =====
-- lib/challengeUtils.ts: solving is permanent and idempotent.
use mathlib.Core.Option
use runc.Prelude.{
  ℕ, ◌≤◌, String, ◌≡◌, refl, inl, inr, Bool, true, false, ◌&&◌, Option, none, some, List, [], ◌∷◌,
  arith, ltb, ◌===◌, ===_iff, if◌then◌else◌, Bool-cases, find, map_where, All,
}
use runc.Prelude.Http.{Outcome, ok, thrown}
use runc.Database.{Orm}
use runc.Coding.AntiCheat.{Snippets}
use runc.Challenges.{
  Challenge, Board, Environment, has_key, challenge_of, not_solved, mark_solved, solve, solve_if,
  set_status, solve_find_it, solve_fix_it,
}

find-mark :
    (j k : String) (cs : List Challenge)
    → find (has_key j) (map_where (has_key k) mark_solved cs)
      ≡ (if k === j then Option.map mark_solved (find (has_key j) cs) else find (has_key j) cs)
find-mark j k [] = ground (arith, ===_iff k j)
find-mark j k (c ∷ cs) =
    ground (arith, find-mark j k cs, ===_iff c.key j, ===_iff c.key k, ===_iff k j)

-- Solving one challenge sets its solved flag, and leaves every other challenge as it is.
pub challenge_of-solve :
    (j k : String) (r : Bool) (b : Board)
    → challenge_of j (solve k r b)
      ≡ (if k === j then Option.map mark_solved (challenge_of j b) else challenge_of j b)
unfolding solve
challenge_of-solve j k r b = find-mark j k b.challenges

abbrev pub is_solved : Option Challenge → Bool
is_solved none = false
is_solved (some c) = c.solved

is_solved-mark :
    (o : Option Challenge) → is_solved o ≡ true → is_solved (Option.map mark_solved o) ≡ true
is_solved-mark none h = cc
is_solved-mark (some c) h = refl

-- No call of `solveIf` makes a solved challenge unsolved.
pub solve_if-is_solved :
    (j k : String) (criteria r : Bool) (b : Board)
    → is_solved (challenge_of j b) ≡ true
    → is_solved (challenge_of j (solve_if k criteria r b)) ≡ true
unfolding solve_if
solve_if-is_solved j k criteria r b h =
    elim (Bool-cases (not_solved (challenge_of k b) && criteria)) [
      | inr off ↦ rw off h
      | inl on ↦
          rw (on, challenge_of-solve j k r b)
            (elim (Bool-cases (k === j)) [
              | inl same ↦ rw same (is_solved-mark (challenge_of j b) h)
              | inr other ↦ rw other h
            ])
    ]

not_solved-mark : (o : Option Challenge) → not_solved (Option.map mark_solved o) ≡ false
not_solved-mark none = refl
not_solved-mark (some c) = refl

pub not_solved-solve :
    (k : String) (r : Bool) (b : Board) → not_solved (challenge_of k (solve k r b)) ≡ false
not_solved-solve k r b =
    rw (challenge_of-solve k k r b, (===_iff k k).1 refl) (not_solved-mark (challenge_of k b))

-- A second `solveIf` for the same challenge does nothing, whatever its criterion says.
pub solve_if_idempotent :
    (k : String) (again r q : Bool) (b : Board)
    → solve_if k again q (solve_if k true r b) ≡ solve_if k true r b
unfolding solve_if
solve_if_idempotent k again r q b = elim (Bool-cases (not_solved (challenge_of k b) && true)) [
  | inl on ↦ rw on (rw (not_solved-solve k r b))
  | inr off ↦ rw off (ground arith)
]

-- Row by row, the same challenge with a coding status that is not lower.
abbrev pub Advances : List Challenge → List Challenge → Type 0
Advances [] [] = Unit
Advances (c ∷ cs) (d ∷ ds) =
    (c.key ≡ d.key) × (c.coding_challenge_status ≤ d.coding_challenge_status) × Advances cs ds
Advances _ _ = ⊥

pub Advances-refl : (cs : List Challenge) → Advances cs cs
Advances-refl [] = tt
Advances-refl (c ∷ cs) = (refl, omega arith, Advances-refl cs)

set_status-Advances :
    (p : Challenge → Bool) (n : ℕ) (cs : List Challenge)
    → All (λ (c : Challenge). p c ≡ true → c.coding_challenge_status ≤ n) cs
    → Advances cs (map_where p (set_status n) cs)
set_status-Advances p n [] h = tt
set_status-Advances p n (c ∷ cs) (here, later) = elim (Bool-cases (p c)) [
  | inl on ↦ rw on (refl, here on, set_status-Advances p n cs later)
  | inr off ↦ rw off (refl, omega arith, set_status-Advances p n cs later)
]

-- The statuses that the model declares: 0, 1 or 2.
abbrev pub HasStatuses : List Challenge → Type 0
HasStatuses cs = All (λ (c : Challenge). c.coding_challenge_status ≤ 2) cs

below_two :
    (k : String) (cs : List Challenge)
    → All
        (λ (c : Challenge).
          (has_key k c && ltb c.coding_challenge_status 2) ≡ true → c.coding_challenge_status ≤ 1)
        cs
below_two k [] = tt
below_two k (c ∷ cs) = ((λ h. ground arith), below_two k cs)

at_most_two :
    (k : String) (cs : List Challenge)
    → HasStatuses cs
    → All (λ (c : Challenge). has_key k c ≡ true → c.coding_challenge_status ≤ 2) cs
at_most_two k [] h = tt
at_most_two k (c ∷ cs) (here, later) = ((λ _. here), at_most_two k cs later)

module _ (o : Orm) (env : Environment) (now : ℕ) (key : String) (r : Bool) (b : Board) where
  -- The rows after an update: those before it if it rejected.
  abbrev pub rows_after : Outcome (List Challenge) → List Challenge
  rows_after (ok rows) = rows
  rows_after (thrown e) = b.rows

  pub solve_find_it-rows :
      (codes : Outcome Snippets)
      → (solve_find_it o env now codes key r b).1.rows
        ≡ rows_after (
            o.update
              (λ (c : Challenge). has_key key c && ltb c.coding_challenge_status 2)
              (set_status 1)
              b.rows)
  unfolding solve_find_it
  solve_find_it-rows codes = ground arith

  pub solve_fix_it-rows :
      (fixes : ℕ)
      → (solve_fix_it o env now fixes key r b).1.rows
        ≡ rows_after (o.update (has_key key) (set_status 2) b.rows)
  unfolding solve_fix_it
  solve_fix_it-rows fixes = ground arith

  update-Advances :
      (p : Challenge → Bool) (n : ℕ)
      → All (λ (c : Challenge). p c ≡ true → c.coding_challenge_status ≤ n) b.rows
      → Advances b.rows (rows_after (o.update p (set_status n) b.rows))
  update-Advances p n h = by_outcome (o.update p (set_status n) b.rows) refl
    where
      by_outcome :
          (u : Outcome (List Challenge))
          → o.update p (set_status n) b.rows ≡ u
          → Advances b.rows (rows_after u)
      by_outcome (thrown e) q = Advances-refl b.rows
      by_outcome (ok rows) q =
          rw (o.update_lem p (set_status n) b.rows rows q) (set_status-Advances p n b.rows h)

  -- Whatever resolves or rejects on the way, solving a "Find it" or a "Fix it" phase, restored or
  -- not, lowers no coding status in the table: one that is 2 stays 2.
  pub coding_status-Advances :
      (codes : Outcome Snippets) (fixes : ℕ)
      → HasStatuses b.rows
      → Advances b.rows (solve_find_it o env now codes key r b).1.rows
        × Advances b.rows (solve_fix_it o env now fixes key r b).1.rows
  coding_status-Advances codes fixes h = (
    rw (solve_find_it-rows codes) (
        update-Advances (λ (c : Challenge). has_key key c && ltb c.coding_challenge_status 2) 1
          (below_two key b.rows)),
    rw (solve_fix_it-rows fixes) (update-Advances (has_key key) 2 (at_most_two key b.rows h)),
  )
