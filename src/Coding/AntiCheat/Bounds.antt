-- ===== src/Coding/AntiCheat/Bounds.antt =====
-- lib/antiCheat.ts: what the scores can be, and what they depend on.
use native.Mathlib.Nat.{mul-pos}
use runc.Prelude.{
  ℕ, zero, suc, ◌*◌, ◌≤◌, ◌<◌, String, ◌≡◌, refl, ap, inl, inr, Bool, true, ◌&&◌, ◌||◌, Option,
  none, some, List, [], ◌∷◌, ◌++◌, map, arith, ◌===◌, Bool-cases, Option-cases, length, any, find,
  All,
}
use runc.Prelude.Http.{ok}
use runc.Coding.AntiCheat.{
  Challenge, Snippet, Snippets, Settings, Score, frac, nan, infinity, Solve, Interaction, State,
  are_coupled, is_trivial, latest, remaining, penalise, time_factor, weigh, calculate_cheat_score,
  get, is_find_it, check_for_identical_solved_challenge, ceil_10000, find_factor,
  calculate_find_it_cheat_score, calculate_fix_it_cheat_score, mark_seen,
  check_for_pre_solve_interactions,
}

-- A probability, or NaN.
abbrev pub IsBounded : Score → Type 0
IsBounded (frac n d) = (n ≤ d) × (0 < d)
IsBounded nan = Unit
IsBounded infinity = ⊥

abbrev pub IsValid : State → Type 0
IsValid s = All (λ (x : Solve). IsBounded x.score) s.solves

remaining-IsBounded :
    (before now expected : ℕ) → before ≤ now → IsBounded (remaining before now expected)
remaining-IsBounded before now expected h = ground arith

penalise-IsBounded : (seen total : ℕ) (s : Score) → IsBounded s → IsBounded (penalise seen total s)
penalise-IsBounded seen total nan h = tt
penalise-IsBounded seen total infinity h = elim h [ ]
penalise-IsBounded seen zero (frac n d) h = tt
penalise-IsBounded seen (suc t) (frac n d) h =
    let p : 0 < d * (2 * suc t) = mul-pos h.1 (omega arith) in ground arith

weigh-IsBounded : (i : Option Interaction) (s : Score) → IsBounded s → IsBounded (weigh i s)
unfolding weigh
weigh-IsBounded none s h = h
weigh-IsBounded (some i) s h = penalise-IsBounded _ _ s h

All-snoc {ℓ κ} :
    {A : Type ℓ} (P : A → Type κ) (xs : List A) (x : A) → All P xs → P x → All P (xs ++ x ∷ [])
All-snoc P [] x h p = (p, tt)
All-snoc P (y ∷ xs) x (q, h) p = (q, All-snoc P xs x h p)

-- As long as the clock has not gone back since the previous solve, each of the three calculations
-- yields a score between 0 and 1 or NaN, and keeps the list of solves to such scores.
pub scores-IsBounded :
    (cfg : Settings) (now fixes : ℕ) (c : Challenge) (codes : Snippets) (s : State)
    → IsValid s
    → (latest s.solves).timestamp ≤ now
    → (IsBounded (calculate_cheat_score cfg now c s).0
        × IsValid (calculate_cheat_score cfg now c s).1)
      × (IsBounded (calculate_fix_it_cheat_score now c fixes s).0
          × IsValid (calculate_fix_it_cheat_score now c fixes s).1)
      × ((score : Score) × ((calculate_find_it_cheat_score cfg now c (ok codes) s).0 ≡ ok score)
          × IsBounded score
          × IsValid (calculate_find_it_cheat_score cfg now c (ok codes) s).1)
unfolding calculate_cheat_score calculate_fix_it_cheat_score calculate_find_it_cheat_score
scores-IsBounded cfg now fixes c codes s v h =
    let a : IsBounded (calculate_cheat_score cfg now c s).0 =
      weigh-IsBounded _ _ (remaining-IsBounded _ now _ h) in
    let b : IsBounded (calculate_fix_it_cheat_score now c fixes s).0 =
      remaining-IsBounded _ now _ h in
    (
      (a, All-snoc _ s.solves _ v a),
      (b, All-snoc _ s.solves _ v b),
      by_snippet (get c.key codes) refl,
    )
  where
    by_snippet :
        (o : Option Snippet)
        → get c.key codes ≡ o
        → (score : Score) × ((calculate_find_it_cheat_score cfg now c (ok codes) s).0 ≡ ok score)
          × IsBounded score
          × IsValid (calculate_find_it_cheat_score cfg now c (ok codes) s).1
    by_snippet none e = (
      frac 0 1,
      rw (e, calculate_find_it_cheat_score),
      omega arith,
      rw (e, calculate_find_it_cheat_score) v,
    )
    by_snippet (some snip) e =
        let f : ℕ =
          find_factor (c.key === "scoreBoardChallenge" && cfg.hacking_instructor)
            (check_for_identical_solved_challenge c.key codes s.solves) in
        let x : ℕ = ceil_10000 (snip.chars * (f * length snip.vuln_lines)) * 60000 in
        let r : Score = remaining (latest s.solves).timestamp now x in
        let d : IsBounded r = remaining-IsBounded (latest s.solves).timestamp now x h in
        (
          r,
          rw (e, calculate_find_it_cheat_score),
          d,
          rw (e, calculate_find_it_cheat_score) (All-snoc _ s.solves _ v d),
        )

abbrev pub IsZero : Score → Type 0
IsZero (frac n d) = n ≡ 0
IsZero nan = ⊥
IsZero infinity = ⊥

none_expected : (before now d : ℕ) → before < now → remaining before now (d * 0 * 30000) ≡ frac 0 1
none_expected before now d h = ground arith

no_time_factor :
    (cfg : Settings) (c : Challenge) (before : Option String)
    → (are_coupled c.key before || is_trivial c.key) ≡ true
    → time_factor cfg c before ≡ 0
unfolding time_factor
no_time_factor cfg c before k = rw k

-- A challenge that is coupled with the one solved just before it, or trivial, scores 0, unless
-- both were solved in the same millisecond or its expected interactions are an empty list.
pub coupled-IsZero :
    (cfg : Settings) (now : ℕ) (c : Challenge) (s : State)
    → (are_coupled c.key (latest s.solves).key || is_trivial c.key) ≡ true
    → (latest s.solves).timestamp < now
    → All (λ (i : Interaction). 0 < length i.seen) s.interactions
    → IsZero (calculate_cheat_score cfg now c s).0
unfolding calculate_cheat_score weigh
coupled-IsZero cfg now c s k h inhabited =
    let no_factor : time_factor cfg c (latest s.solves).key ≡ 0 =
      no_time_factor cfg c (latest s.solves).key k in
    let none_left : remaining (latest s.solves).timestamp now
          (c.difficulty * time_factor cfg c (latest s.solves).key * 30000)
        ≡ frac 0 1 =
      rw no_factor (none_expected (latest s.solves).timestamp now c.difficulty h) in
    rw none_left (
      weighed (find (λ (i : Interaction). i.challenge_key === c.key) s.interactions)
        (found s.interactions inhabited))
  where
    abbrev_ok : Option Interaction → Type 0
    abbrev_ok o = (i : Interaction) → o ≡ some i → 0 < length i.seen

    found :
        (is : List Interaction)
        → All (λ (i : Interaction). 0 < length i.seen) is
        → (i : Interaction) → find (λ (j : Interaction). j.challenge_key === c.key) is ≡ some i
        → 0 < length i.seen
    found [] g i e = cc
    found (j ∷ js) (g, gs) i e = elim (Bool-cases (j.challenge_key === c.key)) [
      | inl same ↦
          let f : some j ≡ some i = rw same at e in let p : j ≡ i = ground arith in rw (← p) g
      | inr other ↦ found js gs i (rw other at e)
    ]

    weighed :
        (o : Option Interaction)
        → ((i : Interaction) → o ≡ some i → 0 < length i.seen)
        → IsZero (weigh o (frac 0 1))
    weighed none g = refl
    weighed (some i) g = let p : 0 < length i.seen = g i refl in ground arith

-- The discount for an identical snippet depends on whether any "Find it" phase was solved before,
-- not on which: exchanging the challenges of the solves changes nothing.
pub check_for_identical-any_solve :
    (key : String) (codes : Snippets) (solves : List Solve) (other : Solve → Option String)
    → check_for_identical_solved_challenge key codes
        (map (λ (x : Solve). record x { key = other x }) solves)
      ≡ check_for_identical_solved_challenge key codes solves
unfolding check_for_identical_solved_challenge
check_for_identical-any_solve key codes solves other = elim (Option-cases (get key codes)) [
  | inl e ↦ rw (e, check_for_identical_solved_challenge)
  | inr (mine, e) ↦ rw (e, check_for_identical_solved_challenge) (rw (same solves))
]
  where
    same :
        (ss : List Solve)
        → any is_find_it (map (λ (x : Solve). record x { key = other x }) ss) ≡ any is_find_it ss
    same [] = refl
    same (x ∷ ss) = rw (same ss)

mark_seen_idempotent :
    (ends : String → Bool) (fs : List String) (bs : List Bool)
    → mark_seen ends fs (mark_seen ends fs bs) ≡ mark_seen ends fs bs
unfolding mark_seen
mark_seen_idempotent ends [] bs = refl
mark_seen_idempotent ends (f ∷ fs) [] = refl
mark_seen_idempotent ends (f ∷ fs) (b ∷ bs) =
    rw (mark_seen_idempotent ends fs bs)
      (elim (Bool-cases (ends f)) [ inl e ↦ rw e | inr e ↦ rw e ])

-- Requesting the same URL a second time changes nothing.
pub check_for_pre_solve_interactions_idempotent :
    (ends : String → Bool) (s : State)
    → check_for_pre_solve_interactions ends (check_for_pre_solve_interactions ends s)
      ≡ check_for_pre_solve_interactions ends s
unfolding check_for_pre_solve_interactions
check_for_pre_solve_interactions_idempotent ends s =
    ap (λ (is : List Interaction). record s { interactions = is }) (same s.interactions)
  where
    abbrev_mark : Interaction → Interaction
    abbrev_mark i = record i { seen = mark_seen ends i.url_fragments i.seen }

    same : (is : List Interaction) → map abbrev_mark (map abbrev_mark is) ≡ map abbrev_mark is
    same [] = refl
    same (i ∷ is) = rw (mark_seen_idempotent ends i.url_fragments i.seen, same is)
