-- ===== src/Coding/Fixes/Verdicts.antt =====
-- routes/vulnCodeFixes.ts: the cache of fixes, and when a fix is the correct one.
use runc.Prelude.{
  ℕ, String, ◌≡◌, refl, ap, ◌∙◌, ◌≢◌, ◌↔◌, ◌⊎◌, inl, inr, Bool, true, false, ◌&&◌, Option, none,
  some, List, ◌∷◌, arith, ◌==◌, ===_iff, Bool-cases, length,
}
use runc.Prelude.Int.{ℤ, leb_ℤ, eq_of_parts}
use runc.Prelude.Http.{Outcome, ok, thrown, Action, pure, ◌>>◌, Reply, send, bind_ok}
use mathlib.Core.Path.{subst}
use runc.Database.{Orm}
use runc.Coding.Accuracy.{store_fix_it_verdict}
use runc.Challenges.{Board, Environment, has_key, set_status, solve_fix_it}
use runc.Challenges.Solving.{rows_after, solve_fix_it-rows}
use runc.Coding.Fixes.{
  CodeFix, Cache, State, cached, read_each, no_fixes, read_fixes, on_cache, on_board, Verdict,
  explanation_of, is_correct, answer_found, check_correct_fix,
}

cached_first : (key : String) (d : CodeFix) (c : Cache) → cached key ((key, d) ∷ c) ≡ some d
cached_first key d c = rw ((===_iff key key).1 refl) refl

read_fixes-cached :
    (files : Outcome (List (String × String))) (key : String) (c e : Cache) (d : CodeFix)
    → read_fixes files key c ≡ (ok d, e)
    → cached key e ≡ some d
unfolding read_fixes
read_fixes-cached files key c e d h = by_cache (cached key c) refl files h
  where
    by_files :
        (f : Outcome (List (String × String)))
        → ◌≡◌ {A = Outcome CodeFix × Cache}
            (elim f [
              | thrown m ↦ (thrown m, c)
              | ok names ↦
                  (ok (read_each key names no_fixes), (key, read_each key names no_fixes) ∷ c)
            ])
            (ok d, e)
        → cached key e ≡ some d
    by_files (thrown m) g = ground arith
    by_files (ok names) g =
        let a : read_each key names no_fixes ≡ d = ground arith in
        let b : ◌≡◌ {A = Cache} ((key, read_each key names no_fixes) ∷ c) e =
          ap (λ (p : Outcome CodeFix × Cache). p.1) g in
        subst (λ x. cached key x ≡ some d) b
          (cached_first key (read_each key names no_fixes) c ∙ ap some a)

    by_cache :
        (o : Option CodeFix)
        → cached key c ≡ o
        → (f : Outcome (List (String × String))) → read_fixes f key c ≡ (ok d, e)
        → cached key e ≡ some d
    by_cache none k f g = let m = rw (k, read_fixes) at g in by_files f m
    by_cache (some x) k f g =
        let m : ◌≡◌ {A = Outcome CodeFix × Cache} (ok x, c) (ok d, e) = rw (k, read_fixes) at g in
        let a : x ≡ d = ground arith in
        let b : c ≡ e = ap (λ (p : Outcome CodeFix × Cache). p.1) m in
        subst (λ x. cached key x ≡ some d) b (k ∙ ap some a)

-- Fixes that were read once are read from then on, without the directory and without a change of
-- the cache.
pub read_fixes_again :
    (files others : Outcome (List (String × String))) (key : String) (c e : Cache) (d : CodeFix)
    → read_fixes files key c ≡ (ok d, e)
    → read_fixes others key e ≡ (ok d, e)
unfolding read_fixes
read_fixes_again files others key c e d h =
    rw (read_fixes-cached files key c e d h, read_fixes) refl

is_correct_iff : (n : ℤ) (d : CodeFix) → (is_correct n d ≡ true) ↔ (d.correct ≡ some n)
is_correct_iff n d = by_correct d.correct
  where
    same : (m : ℤ) → ((leb_ℤ m n && leb_ℤ n m) ≡ true) ↔ (m ≡ n)
    same m = (
      λ h. eq_of_parts m n (ground arith),
      λ e. subst (λ k. (leb_ℤ m k && leb_ℤ k m) ≡ true) e (ground arith),
    )

    by_correct :
        (o : Option ℤ)
        → ((let b : Bool = elim o [ none ↦ false | some m ↦ leb_ℤ m n && leb_ℤ n m ] in b) ≡ true)
          ↔ (o ≡ some n)
    by_correct none = (λ h. ground arith, λ h. ground arith)
    by_correct (some m) = (λ h. ap some ((same m).0 h), λ h. (same m).1 (ground arith))

-- An answer after a call on the board: what the call leaves, and the answer, if it did not throw.
module _ {A : Type 0} (m : Action Board (Unit {0})) (v : A) (t : State) where
  answered_board : ((on_board m >> pure v) t).1.board ≡ (m t.board).1
  answered_board = by_outcome (m t.board)
    where
      by_outcome :
          (p : Outcome (Unit {0}) × Board)
          → (let q : Outcome A × State = elim p.0 [
            | ok u ↦ (ok v, record t { board = p.1 })
            | thrown e ↦ (thrown e, record t { board = p.1 })
          ] in
              q.1.board)
            ≡ p.1
      by_outcome (ok u, b) = refl
      by_outcome (thrown e, b) = refl

  answered :
      (((on_board m >> pure v) t).0 ≡ ok v)
      ⊎ ((e : String) × (((on_board m >> pure v) t).0 ≡ thrown e))
  answered = by_outcome (m t.board)
    where
      by_outcome :
          (p : Outcome (Unit {0}) × Board)
          → let q : Outcome A × State = elim p.0 [
            | ok u ↦ (ok v, record t { board = p.1 })
            | thrown e ↦ (thrown e, record t { board = p.1 })
          ] in
            (q.0 ≡ ok v) ⊎ ((e : String) × (q.0 ≡ thrown e))
      by_outcome (ok u, b) = inl refl
      by_outcome (thrown e, b) = inr (e, refl)

module _ (o : Orm) (env : Environment) (now : ℕ) (files : Outcome (List (String × String)))
    (infos : Option (List (ℤ × String))) (key : String) (n : ℤ) (s : State) (d : CodeFix)
    (c : Cache) where
  check_correct_fix_found :
      read_fixes files key s.code_fixes ≡ (ok d, c)
      → check_correct_fix o env now files infos key n s
        ≡ answer_found o env now infos key n d (record s { code_fixes = c })
  unfolding check_correct_fix
  check_correct_fix_found h =
      bind_ok (on_cache (read_fixes files key)) (answer_found o env now infos key n) s
        (ap (λ (p : Outcome CodeFix × Cache). (p.0, record s { code_fixes = p.1 })) h)

  -- The answer to a selected fix, of a challenge that has fixes which can be read: if the number is
  -- that of the correct fix, the table's rows are those after the update of the coding status, and
  -- the verdict is true unless solving throws; if not, the verdict is false, and the state changes
  -- in nothing but the attempts and the cache.
  pub check_correct_fix_lem :
      read_fixes files key s.code_fixes ≡ (ok d, c)
      → (length d.fixes == 0) ≡ false
      → ((d.correct ≡ some n)
          × ((check_correct_fix o env now files infos key n s).1.board.rows
              ≡ rows_after o env now key false s.board
                  (o.update (has_key key) (set_status 2) s.board.rows))
          × (((check_correct_fix o env now files infos key n s).0
                ≡ ok (send 200 (record { verdict = true; explanation = explanation_of infos n })))
              ⊎ ((e : String) × ((check_correct_fix o env now files infos key n s).0 ≡ thrown e))))
        ⊎ ((d.correct ≢ some n)
            × (check_correct_fix o env now files infos key n s ≡ (
              ok (send 200 (record { verdict = false; explanation = explanation_of infos n })),
              record {
                code_fixes = c;
                board = record s.board {
                  accuracy = store_fix_it_verdict key false s.board.accuracy;
                };
              },
            )))
  check_correct_fix_lem h l =
      let solving = solve_fix_it o env now (length d.fixes) key false in
      let right : Reply Verdict =
        send 200 (record { verdict = true; explanation = explanation_of infos n }) in
      rw (check_correct_fix_found h) (elim (Bool-cases (is_correct n d)) [
        | inl k ↦ inl (
          (is_correct_iff n d).0 k,
          rw (l, k)
              (ap (λ (b : Board). b.rows)
                  (answered_board solving right (record s { code_fixes = c }))
                ∙ solve_fix_it-rows o env now key false s.board (length d.fixes)),
          rw (l, k) (answered solving right (record s { code_fixes = c })),
        )
        | inr k ↦ inr (λ e. (let f = (is_correct_iff n d).1 e in ground arith), rw (l, k) refl)
      ])
