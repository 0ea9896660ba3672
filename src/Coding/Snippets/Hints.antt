-- ===== src/Coding/Snippets/Hints.antt =====
-- routes/vulnCodeSnippet.ts: the hints that a sequence of wrong answers is given.
use runc.Prelude.{
  ℕ, zero, suc, ◌+◌, ◌<◌, String, ◌≡◌, refl, ◌∙◌, inl, inr, true, false, Option, some, List, [],
  ◌∷◌, arith, ◌===◌, ===_iff, Option-cases, length, All,
}
use runc.Prelude.Http.{ok, send}
use runc.Database.{Orm}
use runc.Coding.Accuracy.{
  find_it, Solves, lookup, get_find_it_attempts, store_verdict, store_find_it_verdict, vote,
}
use runc.Coding.Accuracy.Replay.{entry, tally-store_verdict}
use runc.Coding.AntiCheat.{Snippet, Snippets, get}
use runc.Challenges.{Board, Environment}
use runc.Coding.Snippets.{get_verdict, hint_for, reveal, check_vuln_lines, retrieve_code_snippet}

attempts-eq : (k : String) (s : Solves) → get_find_it_attempts k s ≡ (entry k s).find_tally.attempts
unfolding get_find_it_attempts
attempts-eq k s = elim (Option-cases (lookup k s)) [
  | inl e ↦ rw (e, get_find_it_attempts) refl
  | inr (d, e) ↦ rw (e, get_find_it_attempts) refl
]

-- A wrong answer for an unsolved phase leaves it unsolved, with one attempt more.
store_wrong :
    (k : String) (s : Solves)
    → (entry k s).find_tally.solved ≡ false
    → ((entry k (store_find_it_verdict k false s)).find_tally.solved ≡ false)
      × ((entry k (store_find_it_verdict k false s)).find_tally.attempts
          ≡ (entry k s).find_tally.attempts + 1)
unfolding store_find_it_verdict
store_wrong k s h =
    let same : (k === k) ≡ true = (===_iff k k).1 refl in
    let e : (entry k (store_verdict k find_it false s)).find_tally
        ≡ vote false (entry k s).find_tally =
      rw same at (tally-store_verdict k find_it k find_it false s) in
    (rw e (ground arith), rw e (ground arith))

module _ (o : Orm) (env : Environment) (codes : Snippets) (hints : Option (List String))
    (key : String) (snip : Snippet) (known : get key codes ≡ some snip) where
  abbrev IsWrong : Option (List ℕ) → Type 0
  IsWrong selected = get_verdict snip.vuln_lines snip.neutral_lines selected ≡ false

  answer_wrong :
      (now : ℕ) (selected : Option (List ℕ)) (b : Board)
      → IsWrong selected
      → check_vuln_lines o env now (ok codes) hints key selected b ≡ (
        ok (
            send 200 (record {
              verdict = false;
              hint = hint_for hints snip.vuln_lines (get_find_it_attempts key b.accuracy);
            })),
        record b { accuracy = store_find_it_verdict key false b.accuracy },
      )
  unfolding check_vuln_lines retrieve_code_snippet
  answer_wrong now selected b w = rw (known, check_vuln_lines) (rw w)

  -- The state after a series of answers, each with its time.
  pub answer_all : List (ℕ × Option (List ℕ)) → Board → Board
  answer_all [] b = b
  answer_all ((now, selected) ∷ rest) b =
      answer_all rest (check_vuln_lines o env now (ok codes) hints key selected b).1

  wrong_attempts :
      (answers : List (ℕ × Option (List ℕ))) (b : Board)
      → All (λ (a : ℕ × Option (List ℕ)). IsWrong a.1) answers
      → (entry key b.accuracy).find_tally.solved ≡ false
      → (entry key (answer_all answers b).accuracy).find_tally.attempts
        ≡ (entry key b.accuracy).find_tally.attempts + length answers
  unfolding answer_all
  wrong_attempts [] b w u = omega arith
  wrong_attempts ((now, selected) ∷ rest) b (here, later) u =
      let (u', a) = store_wrong key b.accuracy u in
      rw (answer_wrong now selected b here, answer_all)
        (wrong_attempts rest (record b { accuracy = store_find_it_verdict key false b.accuracy })
            later u'
          ∙ omega (arith, a))

  -- The reply to a wrong answer after n wrong answers, for a challenge not tried before: no hint
  -- for n = 0, then hint number n of the file, and once n exceeds the number of hints, the lines
  -- themselves.
  pub hint_after_wrong :
      (answers : List (ℕ × Option (List ℕ))) (now : ℕ) (selected : Option (List ℕ)) (b : Board)
      → All (λ (a : ℕ × Option (List ℕ)). IsWrong a.1) answers
      → IsWrong selected
      → (entry key b.accuracy).find_tally.solved ≡ false
      → (entry key b.accuracy).find_tally.attempts ≡ 0
      → (check_vuln_lines o env now (ok codes) hints key selected (answer_all answers b)).0
        ≡ ok (
            send 200
              (record { verdict = false; hint = hint_for hints snip.vuln_lines (length answers) }))
  hint_after_wrong answers now selected b ws w u z =
      let n : get_find_it_attempts key (answer_all answers b).accuracy ≡ length answers =
        attempts-eq key (answer_all answers b).accuracy
        ∙ wrong_attempts answers b ws u
        ∙ omega (arith, z) in
      rw (answer_wrong now selected (answer_all answers b) w) (rw n)

-- From the attempt after the last hint on, the vulnerable lines are revealed.
pub hint_for_reveals :
    (hints : List String) (vuln : List ℕ) (n : ℕ)
    → length hints < n
    → hint_for (some hints) vuln n ≡ some (reveal vuln)
unfolding hint_for
hint_for_reveals hints vuln zero h = absurd (omega arith)
hint_for_reveals hints vuln (suc n) h = ground arith
