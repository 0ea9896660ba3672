-- ===== src/Verification/Bypass.antt =====
-- routes/verify.ts: what the CAPTCHA bypass challenge detects.
use runc.Prelude.{
  ℕ, zero, suc, ◌+◌, ◌-◌, ◌≤◌, ◌<◌, ◌≡◌, refl, sym, ap, ◌∙◌, ◌↔◌, inl, inr, Bool, true, false,
  Option, none, some, List, [], ◌∷◌, ◌++◌, arith, leb, ◌==◌, ==_iff, if◌then◌else◌, and-eq-true,
  Bool-cases, length, get_elem?, length-append,
}
use mathlib.Core.Path.{subst}
use runc.Challenges.{challenge_of, not_solved}
use runc.Challenges.Solving.{not_solved-solve}
use runc.Verification.{State, time_at, is_recent, is_bypassed, captcha_bypass_challenge}

abbrev pub is_open : State → Bool
is_open s = not_solved (challenge_of "captchaBypassChallenge" s.board)

-- Feedback after feedback, at these times.
abbrev pub after : List ℕ → State → State
after [] s = s
after (now ∷ ts) s = after ts (captcha_bypass_challenge now s)

-- The first of ten posts in a row is at most 20 seconds before the last.
abbrev pub HasBurstFrom : ℕ → List ℕ → Type 0
HasBurstFrom n ts =
    (i : ℕ) × (a : ℕ) × (b : ℕ) × (n ≤ i + 9)
    × (get_elem? ts i ≡ some a)
    × (get_elem? ts (i + 9) ≡ some b)
    × (b ≤ a + 20000)

-- The state after the posts at these times, the challenge not being solved.
abbrev pub Tracks : List ℕ → State → Type 0
Tracks done s =
    (is_open s ≡ true)
    × (s.locals.captcha_req_id ≡ length done + 1)
    × ((i : ℕ) → time_at s.locals.captcha_bypass_req_times i ≡ get_elem? done i)

after_solved : (ts : List ℕ) (s : State) → is_open s ≡ false → is_open (after ts s) ≡ false
unfolding captcha_bypass_challenge
after_solved [] s h = h
after_solved (now ∷ ts) s h =
    after_solved ts (captcha_bypass_challenge now s) (rw (h, captcha_bypass_challenge) h)

get_elem?-length :
    (done ts : List ℕ) (now : ℕ) → get_elem? (done ++ now ∷ ts) (length done) ≡ some now
get_elem?-length [] ts now = refl
get_elem?-length (x ∷ xs) ts now = get_elem?-length xs ts now

get_elem?-append :
    (done ts : List ℕ) (i : ℕ) → i < length done → get_elem? (done ++ ts) i ≡ get_elem? done i
get_elem?-append [] ts i h = ground arith
get_elem?-append (x ∷ xs) ts zero h = refl
get_elem?-append (x ∷ xs) ts (suc i) h = get_elem?-append xs ts i (ground arith)

get_elem?_end : (done : List ℕ) (i : ℕ) → length done ≤ i → get_elem? done i ≡ none
get_elem?_end [] i h = refl
get_elem?_end (x ∷ xs) zero h = ground arith
get_elem?_end (x ∷ xs) (suc i) h = get_elem?_end xs i (ground arith)

append_one : (done ts : List ℕ) (now : ℕ) → (done ++ now ∷ []) ++ ts ≡ done ++ now ∷ ts
append_one [] ts now = refl
append_one (x ∷ xs) ts now = ap (λ l. x ∷ l) (append_one xs ts now)

get_elem?_one :
    (done : List ℕ) (now i : ℕ)
    → get_elem? (done ++ now ∷ []) i ≡ (if length done == i then some now else get_elem? done i)
get_elem?_one [] now zero = refl
get_elem?_one [] now (suc i) = ground arith
get_elem?_one (x ∷ xs) now zero = ground arith
get_elem?_one (x ∷ xs) now (suc i) = ground (arith, get_elem?_one xs now i)

module _ (done : List ℕ) (now : ℕ) (s : State) (h : Tracks done s) where
  step-Tracks :
      is_bypassed now s.locals ≡ false → Tracks (done ++ now ∷ []) (captcha_bypass_challenge now s)
  unfolding captcha_bypass_challenge
  step-Tracks b =
      let (free, id, times) = h in
      rw (free, b)
        (
          free,
          omega (arith, id, length-append done (now ∷ [])),
          λ i.
              let at : s.locals.captcha_req_id - 1 ≡ length done = omega (arith, id) in
              rw (at, times i, get_elem?_one done now i) refl,
        )

  burst_of_bypass :
      (ts : List ℕ)
      → is_bypassed now s.locals ≡ true
      → HasBurstFrom (length done) (done ++ now ∷ ts)
  burst_of_bypass ts b =
      let (free, id, times) = h in
      let (ten, recent) =
        and-eq-true (leb 10 s.locals.captcha_req_id)
          (is_recent now (time_at s.locals.captcha_bypass_req_times (s.locals.captcha_req_id - 10)))
          b in
      by_time (get_elem? done (s.locals.captcha_req_id - 10)) refl
        (rw (times (s.locals.captcha_req_id - 10)) at recent) ten
    where
      by_time :
          (o : Option ℕ)
          → get_elem? done (s.locals.captcha_req_id - 10) ≡ o
          → is_recent now o ≡ true
          → leb 10 s.locals.captcha_req_id ≡ true
          → HasBurstFrom (length done) (done ++ now ∷ ts)
      by_time none e r t = cc
      by_time (some a) e r t =
          let id : s.locals.captcha_req_id ≡ length done + 1 = h.1 in
          let at : s.locals.captcha_req_id - 10 + 9 ≡ length done = ground arith in
          (
            s.locals.captcha_req_id - 10,
            a,
            now,
            ground arith,
            get_elem?-append done (now ∷ ts) (s.locals.captcha_req_id - 10) (ground arith) ∙ e,
            rw at (get_elem?-length done ts now),
            ground arith,
          )

  bypass_of_burst :
      (ts : List ℕ) (i a b : ℕ)
      → i + 9 ≡ length done
      → get_elem? (done ++ now ∷ ts) i ≡ some a
      → get_elem? (done ++ now ∷ ts) (i + 9) ≡ some b
      → b ≤ a + 20000
      → is_bypassed now s.locals ≡ true
  bypass_of_burst ts i a b at e f l =
      let id : s.locals.captcha_req_id ≡ length done + 1 = h.1 in
      let first : get_elem? done i ≡ some a =
        sym (get_elem?-append done (now ∷ ts) i (omega (arith, at))) ∙ e in
      let last : some now ≡ some b =
        sym (get_elem?-length done ts now)
        ∙ subst (λ k. get_elem? (done ++ now ∷ ts) k ≡ some b) at f in
      let index : s.locals.captcha_req_id - 10 ≡ i = omega (arith, at, id) in
      rw (index, h.2 i, first) (ground arith)

  solved : is_bypassed now s.locals ≡ true → is_open (captcha_bypass_challenge now s) ≡ false
  unfolding captcha_bypass_challenge
  solved b = rw (h.0, b) (not_solved-solve "captchaBypassChallenge" false s.board)

detects :
    (ts done : List ℕ) (s : State)
    → Tracks done s
    → (is_open (after ts s) ≡ false) ↔ HasBurstFrom (length done) (done ++ ts)
detects [] done s (free, id, times) = (
  λ f. ground arith,
  λ (i, a, b, n, e, f, l).
      let end = get_elem?_end (done ++ []) (i + 9) (omega (arith, n, length-append done [])) in
      ground arith,
)
detects (now ∷ ts) done s h = elim (Bool-cases (is_bypassed now s.locals)) [
  | inl b ↦ (
    λ f. burst_of_bypass done now s h ts b,
    λ g. after_solved ts (captcha_bypass_challenge now s) (solved done now s h b),
  )
  | inr b ↦
      let (to, from) =
        detects ts (done ++ now ∷ []) (captcha_bypass_challenge now s)
          (step-Tracks done now s h b) in
      let size : length (done ++ now ∷ []) ≡ length done + 1 = length-append done (now ∷ []) in
      let same = append_one done ts now in
      (
        λ f.
            let (i, x, y, n, e, g, l) = to f in
            (i, x, y, omega (arith, n, size), rw (← same) e, rw (← same) g, l),
        λ (i, x, y, n, e, g, l). elim (Bool-cases (i + 9 == length done)) [
          | inl at ↦
              let c =
                bypass_of_burst done now s h ts i x y ((==_iff (i + 9) (length done)).0 at) e g l in
              ground arith
          | inr at ↦ from (i, x, y, ground arith, rw same e, rw same g, l)
        ],
      )
]

-- Feedback after feedback from a server that has seen none solves the challenge exactly when the
-- first of ten posts in a row is at most 20 seconds before the last.
pub captcha_bypass_challenge_iff :
    (ts : List ℕ) (s : State)
    → is_open s ≡ true
    → s.locals.captcha_req_id ≡ 1
    → s.locals.captcha_bypass_req_times ≡ []
    → (is_open (after ts s) ≡ false) ↔ (
        (i : ℕ) × (a : ℕ) × (b : ℕ) × (get_elem? ts i ≡ some a)
        × (get_elem? ts (i + 9) ≡ some b)
        × (b ≤ a + 20000))
captcha_bypass_challenge_iff ts s free id times =
    let (to, from) = detects ts [] s (free, id, λ i. rw times refl) in
    (
      λ f. (let (i, a, b, n, e, g, l) = to f in (i, a, b, e, g, l)),
      λ (i, a, b, e, g, l). from (i, a, b, omega arith, e, g, l),
    )
