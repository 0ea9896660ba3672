-- ===== src/Progress/Restoring.antt =====
-- routes/restoreProgress.ts: what a code restores.
use mathlib.Core.List.{Memᴰ}
use mathlib.Core.Option
use runc.Prelude.{
  ℕ, String, ◌≡◌, refl, sym, ◌∙◌, ◌⊎◌, inl, inr, Bool, true, false, ◌&&◌, ◌||◌, Option, none, some,
  List, [], ◌∷◌, arith, ltb, ◌==◌, ◌===◌, ===_iff, ==_iff, if◌then◌else◌, and-eq-true, Bool-cases,
  length, any, find, includes,
}
use runc.Prelude.Http.{send}
use runc.Challenges.{Challenge, Board, has_key, challenge_of, not_solved, mark_solved, solve}
use runc.Challenges.Solving.{is_solved, challenge_of-solve}
use runc.Progress.{
  is_hashid, Hashids, solved_ids, continue_code, restore_each, restored, restore_progress,
}

-- A challenge of the list with this key has one of the ids.
abbrev pub is_wanted : String → List ℕ → List Challenge → Bool
is_wanted j ids cs = any (λ (c : Challenge). has_key j c && includes ids c.id) cs

abbrev is_there {ℓ} : {A : Type ℓ} → Option A → Bool
is_there none = false
is_there (some a) = true

is_solved-mark_all : (o : Option Challenge) → is_solved (Option.map mark_solved o) ≡ is_there o
is_solved-mark_all none = refl
is_solved-mark_all (some c) = refl

is_there-map : (o : Option Challenge) → is_there (Option.map mark_solved o) ≡ is_there o
is_there-map none = refl
is_there-map (some c) = refl

-- One round of the loop.
abbrev round : List ℕ → Challenge → Board → Board
round ids c b = if includes ids c.id then solve c.key true b else b

round-is_there :
    (j : String) (ids : List ℕ) (c : Challenge) (b : Board)
    → is_there (challenge_of j (round ids c b)) ≡ is_there (challenge_of j b)
round-is_there j ids c b = elim (Bool-cases (includes ids c.id)) [
  | inr off ↦ rw off
  | inl on ↦
      rw (on, challenge_of-solve j c.key true b)
        (elim (Bool-cases (c.key === j)) [
          | inl same ↦ rw same (is_there-map (challenge_of j b))
          | inr other ↦ rw other
        ])
]

round-is_solved :
    (j : String) (ids : List ℕ) (c : Challenge) (b : Board)
    → is_there (challenge_of j b) ≡ true
    → is_solved (challenge_of j (round ids c b))
      ≡ (is_solved (challenge_of j b) || (has_key j c && includes ids c.id))
round-is_solved j ids c b there = elim (Bool-cases (includes ids c.id)) [
  | inr off ↦ rw off (ground arith)
  | inl on ↦
      rw (on, challenge_of-solve j c.key true b)
        (elim (Bool-cases (c.key === j)) [
          | inl same ↦ rw same (rw (is_solved-mark_all (challenge_of j b), there) (ground arith))
          | inr other ↦ rw other (ground arith)
        ])
]

-- After the loop a known challenge is solved when it was before, or when its id is among those
-- of the code.
pub restore_each-is_solved :
    (j : String) (ids : List ℕ) (cs : List Challenge) (b : Board)
    → is_there (challenge_of j b) ≡ true
    → is_solved (challenge_of j (restore_each ids cs b))
      ≡ (is_solved (challenge_of j b) || is_wanted j ids cs)
unfolding restore_each
restore_each-is_solved j ids [] b there = ground arith
restore_each-is_solved j ids (c ∷ cs) b there =
    restore_each-is_solved j ids cs (round ids c b) (round-is_there j ids c b ∙ there)
    ∙ rw (round-is_solved j ids c b there) (ground arith)

find-wanted :
    (j : String) (ids : List ℕ) (cs : List Challenge) (c : Challenge)
    → find (has_key j) cs ≡ some c
    → includes ids c.id ≡ true
    → is_wanted j ids cs ≡ true
find-wanted j ids [] c e h = cc
find-wanted j ids (d ∷ cs) c e h = elim (Bool-cases (has_key j d)) [
  | inl same ↦
      let f : some d ≡ some c = rw same at e in
      let p : d ≡ c = ground arith in rw same (rw p (rw h (ground arith)))
  | inr other ↦
      let ih : is_wanted j ids cs ≡ true = find-wanted j ids cs c (rw other at e) h in rw other ih
]

solved_ids-includes :
    (j : String) (cs : List Challenge) (c : Challenge)
    → find (has_key j) cs ≡ some c
    → c.solved ≡ true
    → includes (solved_ids cs) c.id ≡ true
solved_ids-includes j [] c e h = cc
solved_ids-includes j (d ∷ cs) c e h = elim (Bool-cases (has_key j d)) [
  | inl same ↦
      let f : some d ≡ some c = rw same at e in
      let p : d ≡ c = ground arith in let s : d.solved ≡ true = rw p h in rw s (rw p (ground arith))
  | inr other ↦
      let ih : includes (solved_ids cs) c.id ≡ true =
        solved_ids-includes j cs c (rw other at e) h in
      ground (arith, ih)
]

-- Some solved challenge has this id.
abbrev pub HasSolved : List Challenge → ℕ → Type 0
HasSolved cs n = (c : Challenge) × Memᴰ c cs × (c.solved ≡ true) × (c.id ≡ n)

HasSolved-cons :
    {cs : List Challenge} {n : ℕ} (d : Challenge) → HasSolved cs n → HasSolved (d ∷ cs) n
HasSolved-cons d (c, m, s, e) = (c, Memᴰ.tail m, s, e)

includes-HasSolved :
    (cs : List Challenge) (n : ℕ) → includes (solved_ids cs) n ≡ true → HasSolved cs n
includes-HasSolved [] n h = cc
includes-HasSolved (d ∷ cs) n h = elim (Bool-cases d.solved) [
  | inr open_one ↦ HasSolved-cons d (includes-HasSolved cs n (rw open_one at h))
  | inl done ↦ elim (Bool-cases (d.id == n)) [
    | inl same ↦ (d, Memᴰ.head refl, done, (==_iff d.id n).0 same)
    | inr other ↦
        let later : includes (solved_ids cs) n ≡ true = ground arith in
        HasSolved-cons d (includes-HasSolved cs n later)
  ]
]

wanted→Mem :
    (j : String) (ids : List ℕ) (cs : List Challenge)
    → is_wanted j ids cs ≡ true
    → (c : Challenge) × Memᴰ c cs × (c.key ≡ j) × (includes ids c.id ≡ true)
wanted→Mem j ids [] h = cc
wanted→Mem j ids (d ∷ cs) h = elim (Bool-cases (has_key j d && includes ids d.id)) [
  | inl on ↦
      let (k, i) = and-eq-true (has_key j d) (includes ids d.id) on in
      (d, Memᴰ.head refl, (===_iff d.key j).0 k, i)
  | inr off ↦ let (c, m, k, i) = wanted→Mem j ids cs (rw off at h) in (c, Memᴰ.tail m, k, i)
]

encoded :
    (h : Hashids) (ns : List ℕ) {code : String}
    → runc.Progress.encode_some h ns ≡ some code
    → (is_hashid code ≡ true) × (h.decode code ≡ ns) × (ltb 0 (length ns) ≡ true)
encoded h [] e = cc
encoded h (n ∷ ns) {code} e =
    let same : h.encode (n ∷ ns) ≡ code = ground arith in
    (rw (← same) (h.encode-is_hashid n ns), rw (← same) (h.decode-encode n ns), ground arith)

module _ (h : Hashids) (b b' : Board) {code : String} (made : continue_code h b ≡ some code)
    (plain : (not_solved (challenge_of "continueCodeChallenge" b')
        && includes (solved_ids b.challenges) 999)
      ≡ false) where
  restore_progress-made : restore_progress h code b' ≡ (
    send 200 (restored (length (solved_ids b.challenges))),
    restore_each (solved_ids b.challenges) b'.challenges b',
  )
  unfolding restore_progress continue_code
  restore_progress-made =
      let (alnum, decoded, some_left) = encoded h (solved_ids b.challenges) made in
      rw (alnum, restore_progress) (rw decoded (rw (plain, some_left)))

  both_directions :
      (j : String) (c c' : Challenge)
      → challenge_of j b ≡ some c
      → challenge_of j b' ≡ some c'
      → c.id ≡ c'.id
      → (c.solved ≡ true → is_solved (challenge_of j (restore_progress h code b').1) ≡ true)
        × (is_solved (challenge_of j (restore_progress h code b').1) ≡ true
            → (c'.solved ≡ true)
              ⊎ ((d : Challenge) × Memᴰ d b'.challenges
                  × (d.key ≡ j)
                  × HasSolved b.challenges d.id))
  both_directions j c c' e e' same_id =
      let ids : List ℕ = solved_ids b.challenges in
      let there : is_there (challenge_of j b') ≡ true = rw e' refl in
      let final : is_solved (challenge_of j (restore_progress h code b').1)
          ≡ (is_solved (challenge_of j b') || is_wanted j ids b'.challenges) =
        rw restore_progress-made (restore_each-is_solved j ids b'.challenges b' there) in
      (
        λ s.
            let listed : includes ids c'.id ≡ true =
              rw (← same_id) (solved_ids-includes j b.challenges c e s) in
            let w : is_wanted j ids b'.challenges ≡ true =
              find-wanted j ids b'.challenges c' e' listed in
            final ∙ rw w (ground arith),
        λ s. elim (Bool-cases (is_solved (challenge_of j b'))) [
          | inl before ↦ inl (rw e' at before)
          | inr new ↦
              let w : is_wanted j ids b'.challenges ≡ true = rw new at (sym final ∙ s) in
              let (d, m, k, i) = wanted→Mem j ids b'.challenges w in
              inr (d, m, k, includes-HasSolved b.challenges d.id i)
        ],
      )

  -- A continue code that was made from the board `b` is redeemed on the board `b'`, where not both
  -- the continueCodeChallenge is unsolved and 999 is the id of a challenge solved on `b`: a challenge
  -- of both boards that was solved on `b` is solved after it, if the two boards give it the same id.
  pub restore_progress-continue_code :
      (j : String) (c c' : Challenge)
      → challenge_of j b ≡ some c
      → challenge_of j b' ≡ some c'
      → c.id ≡ c'.id
      → c.solved ≡ true
      → is_solved (challenge_of j (restore_progress h code b').1) ≡ true
  restore_progress-continue_code j c c' e e' i s = (both_directions j c c' e e' i).0 s

  -- Redeeming such a code solves no other challenge: what is solved then was solved on `b'`
  -- before, or its id is that of a challenge solved on `b`.
  pub restore_progress-only_solved :
      (j : String) (c c' : Challenge)
      → challenge_of j b ≡ some c
      → challenge_of j b' ≡ some c'
      → c.id ≡ c'.id
      → is_solved (challenge_of j (restore_progress h code b').1) ≡ true
      → (c'.solved ≡ true)
        ⊎ ((d : Challenge) × Memᴰ d b'.challenges × (d.key ≡ j) × HasSolved b.challenges d.id)
  restore_progress-only_solved j c c' e e' i s = (both_directions j c c' e e' i).1 s
