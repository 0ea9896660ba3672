-- ===== src/Coding/Extraction/Lines.antt =====
-- The marked lines of a snippet (lib/codingChallenges.ts).
use mathlib.Core.Path.{subst}
use runc.Prelude.{
  ℕ, suc, ◌+◌, ◌≤◌, ◌<◌, String, ◌≡◌, refl, inl, inr, Bool, true, false, ◌&&◌, List, [], ◌∷◌, arith,
  ◌==◌, if◌then◌else◌, Bool-cases, length, includes,
}
use runc.Coding.Extraction.{is_vuln_line, is_neutral_line, marked_lines}

-- Ascending numbers above `low`, the last one `high` at most.
abbrev pub IsAscending : ℕ → List ℕ → ℕ → Type 0
IsAscending low [] high = low ≤ high
IsAscending low (n ∷ ns) high = (low < n) × IsAscending n ns high

weaken : (a b : ℕ) (ns : List ℕ) (h : ℕ) → a ≤ b → IsAscending b ns h → IsAscending a ns h
weaken a b [] h l q = omega arith
weaken a b (n ∷ ns) h l (q, r) = (omega arith, r)

apart : (n i : ℕ) (ns : List ℕ) (h : ℕ) → n ≤ i → IsAscending i ns h → includes ns n ≡ false
apart n i [] h l q = refl
apart n i (m ∷ ns) h l (q, r) = ground (arith, apart n m ns h (omega arith) r)

abbrev IsMarked : ℕ → ℕ → List ℕ → List ℕ → Type 0
IsMarked low high vuln neutral =
    IsAscending low vuln high
    × IsAscending low neutral high
    × ((n : ℕ) → (includes vuln n && includes neutral n) ≡ false)

one_of :
    (n i h : ℕ) (ns : List ℕ) → IsAscending (i + 1) ns h → (i + 1 == n && includes ns n) ≡ false
one_of n i h ns q = elim (Bool-cases (i + 1 == n)) [
  | inl k ↦ ground (arith, apart n (i + 1) ns h (ground arith) q)
  | inr k ↦ ground arith
]

extended :
    (i h : ℕ) (vuln neutral : List ℕ) (b c : Bool)
    → i + 1 ≤ h
    → IsMarked (i + 1) h vuln neutral
    → (let p : List ℕ × List ℕ =
          if b
          then ((i + 1) ∷ vuln, neutral)
          else if c
          then (vuln, (i + 1) ∷ neutral)
          else (vuln, neutral) in
        IsMarked i h p.0 p.1)
extended i h vuln neutral true c l (v, n, d) = (
  (omega arith, v),
  weaken i (i + 1) neutral h (omega arith) n,
  λ m. ground (arith, one_of m i h neutral n, d m),
)
extended i h vuln neutral false true l (v, n, d) = (
  weaken i (i + 1) vuln h (omega arith) v,
  (omega arith, n),
  λ m. ground (arith, one_of m i h vuln v, d m),
)
extended i h vuln neutral false false l (v, n, d) =
    (weaken i (i + 1) vuln h (omega arith) v, weaken i (i + 1) neutral h (omega arith) n, d)

numbered_lines :
    (key : String) (i : ℕ) (lines : List String)
    → IsMarked i (i + length lines) (marked_lines key i lines).0 (marked_lines key i lines).1
unfolding marked_lines
numbered_lines key i [] = (omega arith, omega arith, λ n. refl)
numbered_lines key i (line ∷ lines) =
    let e : i + 1 + length lines ≡ i + suc (length lines) = omega arith in
    let (vuln, neutral) = marked_lines key (i + 1) lines in
    extended i (i + suc (length lines)) (marked_lines key (i + 1) lines).0
      (marked_lines key (i + 1) lines).1 (is_vuln_line key line) (is_neutral_line key line)
      (omega arith)
      (subst
        (λ h.
          IsMarked (i + 1) h (marked_lines key (i + 1) lines).0 (marked_lines key (i + 1) lines).1)
        e (numbered_lines key (i + 1) lines))

-- The vulnerable lines of a snippet and its neutral lines are ascending line numbers, from 1 to the
-- number of lines, and no line is both.
pub marked_lines_bounds :
    (key : String) (lines : List String)
    → IsAscending 0 (marked_lines key 0 lines).0 (length lines)
      × IsAscending 0 (marked_lines key 0 lines).1 (length lines)
      × ((n : ℕ)
          → (includes (marked_lines key 0 lines).0 n && includes (marked_lines key 0 lines).1 n)
            ≡ false)
marked_lines_bounds key lines =
    let e : 0 + length lines ≡ length lines = omega arith in
    subst (λ h. IsMarked 0 h (marked_lines key 0 lines).0 (marked_lines key 0 lines).1) e
      (numbered_lines key 0 lines)
