-- ===== src/Coding/Accuracy/Replay.antt =====
-- lib/accuracy.ts against the log of the verdicts that were stored.
use mathlib.Core.Option
use runc.Prelude.{
  ℕ, suc, ◌+◌, String, ◌≡◌, refl, ◌∙◌, inl, inr, Bool, true, false, ◌&&◌, some, List, [], ◌∷◌,
  arith, ◌===◌, ===_iff, if◌then◌else◌, Bool-cases, any,
}
use runc.Coding.Accuracy.{
  Phase, find_it, fix_it, Tally, Entry, Solves, fresh_tally, fresh, tally, set_tally, lookup, put,
  vote, store_verdict,
}

-- The entry that a key has, or would be given.
abbrev pub entry : String → Solves → Entry
entry k s = Option.get_or (lookup k s) fresh

lookup-put :
    (k j : String) (e : Entry) (s : Solves)
    → lookup k (put j e s) ≡ (if j === k then some e else lookup k s)
lookup-put k j e [] = refl
lookup-put k j e ((i, d) ∷ s) =
    ground (arith, lookup-put k j e s, ===_iff i j, ===_iff i k, ===_iff j k)

abbrev pub same_phase : Phase → Phase → Bool
same_phase find_it find_it = true
same_phase fix_it fix_it = true
same_phase _ _ = false

tally-set_tally :
    (ph q : Phase) (t : Tally) (e : Entry)
    → tally ph (set_tally q t e) ≡ (if same_phase q ph then t else tally ph e)
tally-set_tally find_it find_it t e = refl
tally-set_tally find_it fix_it t e = refl
tally-set_tally fix_it find_it t e = refl
tally-set_tally fix_it fix_it t e = refl

-- One stored verdict of the log: the key, the phase, the verdict.
abbrev pub Event : Type 0
Event = String × Phase × Bool

abbrev pub concerns : String → Phase → Event → Bool
concerns k ph (j, q, v) = j === k && same_phase q ph

pub tally-store_verdict :
    (k : String) (ph : Phase) (j : String) (q : Phase) (v : Bool) (s : Solves)
    → tally ph (entry k (store_verdict j q v s))
      ≡ (if concerns k ph (j, q, v) then vote v (tally ph (entry k s)) else tally ph (entry k s))
unfolding store_verdict
tally-store_verdict k ph j q v s =
    rw (lookup-put k j (set_tally q (vote v (tally q (entry j s))) (entry j s)) s)
      (elim (Bool-cases (j === k)) [
        | inl same ↦ rw same (
            rw (tally-set_tally ph q (vote v (tally q (entry j s))) (entry j s))
              (rw ((===_iff j k).0 same) (phase_cases ph q (entry k s))))
        | inr other ↦ rw other
      ])
  where
    phase_cases :
        (a b : Phase) (e : Entry)
        → (if same_phase b a then vote v (tally b e) else tally a e)
          ≡ (if same_phase b a then vote v (tally a e) else tally a e)
    phase_cases find_it find_it e = refl
    phase_cases find_it fix_it e = refl
    phase_cases fix_it find_it e = refl
    phase_cases fix_it fix_it e = refl

unfoldable pub replay : List Event → Solves → Solves
replay [] s = s
replay ((k, ph, v) ∷ log) s = replay log (store_verdict k ph v s)

-- The verdicts of one key and phase, in order.
abbrev pub verdicts : String → Phase → List Event → List Bool
verdicts k ph [] = []
verdicts k ph ((j, q, v) ∷ log) =
    if concerns k ph (j, q, v) then v ∷ verdicts k ph log else verdicts k ph log

-- The number of verdicts up to the first success, that one included.
abbrev pub tries : List Bool → ℕ
tries [] = 0
tries (true ∷ vs) = 1
tries (false ∷ vs) = suc (tries vs)

vote_all : List Bool → Tally → Tally
vote_all [] t = t
vote_all (v ∷ vs) t = vote_all vs (vote v t)

replay-vote_all :
    (k : String) (ph : Phase) (log : List Event) (s : Solves)
    → tally ph (entry k (replay log s)) ≡ vote_all (verdicts k ph log) (tally ph (entry k s))
unfolding replay vote_all
replay-vote_all k ph [] s = refl
replay-vote_all k ph ((j, q, v) ∷ log) s =
    rw (replay-vote_all k ph log (store_verdict j q v s), tally-store_verdict k ph j q v s)
      (elim (Bool-cases (concerns k ph (j, q, v))) [ inl here ↦ rw here | inr there ↦ rw there ])

vote_all_solved :
    (vs : List Bool) (n : ℕ)
    → vote_all vs (record { solved = true; attempts = n }) ≡ record { solved = true; attempts = n }
unfolding vote_all
vote_all_solved [] n = refl
vote_all_solved (v ∷ vs) n = vote_all_solved vs n

vote_all_open :
    (vs : List Bool) (n : ℕ)
    → vote_all vs (record { solved = false; attempts = n })
      ≡ record { solved = any (λ v. v) vs; attempts = n + tries vs }
unfolding vote_all
vote_all_open [] n = ground arith
vote_all_open (true ∷ vs) n = rw (vote_all_solved vs (n + 1)) (ground arith)
vote_all_open (false ∷ vs) n = rw (vote_all_open vs (n + 1)) (ground arith)

-- Whatever verdicts are stored, for whatever keys and phases in whatever order, the tally of one
-- key and phase is that of its own verdicts alone: it is solved when one of them was a success,
-- and its attempts are the verdicts up to the first success, later ones not counted.
pub replay-tally :
    (k : String) (ph : Phase) (log : List Event)
    → tally ph (entry k (replay log []))
      ≡ record { solved = any (λ v. v) (verdicts k ph log); attempts = tries (verdicts k ph log) }
replay-tally k ph log =
    rw (replay-vote_all k ph log [])
      (tally_fresh ph ∙ vote_all_open (verdicts k ph log) 0 ∙ ground arith)
  where
    tally_fresh :
        (p : Phase)
        → vote_all (verdicts k ph log) (tally p fresh) ≡ vote_all (verdicts k ph log) fresh_tally
    tally_fresh find_it = refl
    tally_fresh fix_it = refl
