-- ===== src/Reviews/Timing.antt =====
-- routes/likeProductReviews.ts: one after the other, and at the same time.
use runc.Prelude.{
  ◌+◌, ◌≤◌, String, ◌≡◌, refl, inl, inr, true, false, some, List, [], ◌∷◌, ◌++◌, arith, ◌===◌,
  ===_iff, if◌then◌else◌, Bool-cases, any, count-append,
}
use runc.Prelude.Http.{send}
use runc.Reviews.{Review}
use runc.Reviews.Likes.{
  Stage, arrived, allowed, counted, fetched, answered, has_liked, look_up, Shared, count_like,
  likes_of, check_timing, store_likers, Access, look, like, fetch, store, System, Step, go, Reach,
  here, next_step, like_alone, like_in_turn,
}

-- No user is entered twice, and no attack was seen.
abbrev pub IsOnce : Shared → Type 0
IsOnce s = ((email : String) → likes_of email s.review.liked_by ≤ 1) × (s.timing_attack ≡ false)

count-none :
    (email : String) (es : List String) → any (λ e. e === email) es ≡ false → likes_of email es ≡ 0
count-none email [] h = refl
count-none email (e ∷ es) h = ground (arith, count-none email es)

count-snoc :
    (f email : String) (es : List String)
    → likes_of f (es ++ email ∷ []) ≡ likes_of f es + (if email === f then 1 else 0)
count-snoc f email es = omega (arith, count-append (λ e. e === f) es (email ∷ []))

entered_once :
    (email f : String) (es : List String)
    → any (λ e. e === email) es ≡ false
    → likes_of f es ≤ 1
    → likes_of f (es ++ email ∷ []) ≤ 1
entered_once email f es new h = elim (Bool-cases (email === f)) [
  | inl same ↦
      let none : likes_of f es ≡ 0 = rw (← (===_iff email f).0 same) (count-none email es new) in
      rw (count-snoc f email es) (rw (same, none) (omega arith))
  | inr other ↦ rw (count-snoc f email es) (rw other (omega (arith, h)))
]

like_alone-IsOnce : (email : String) (s : Shared) → IsOnce s → IsOnce (like_alone email s).1
unfolding like_alone check_timing
like_alone-IsOnce email s (h, n) = elim (Bool-cases (has_liked email s.review)) [
  | inl k ↦ rw k (h, n)
  | inr k ↦
      let one = entered_once email email s.review.liked_by k (h email) in
      rw k ((λ f. entered_once email f s.review.liked_by k (h f)), rw n (ground arith))
]

-- Requests that run one after the other never enter a user twice, and are never taken for a timing
-- attack, whoever sends them and how often.
pub like_in_turn-IsOnce :
    (emails : List String) (s : Shared) → IsOnce s → IsOnce (like_in_turn emails s)
unfolding like_in_turn
like_in_turn-IsOnce [] s h = h
like_in_turn-IsOnce (email ∷ emails) s h =
    like_in_turn-IsOnce emails (like_alone email s).1 (like_alone-IsOnce email s h)

-- Three requests of one user, none of which has looked at the review.
abbrev pub three_arrived : String → Review → System
three_arrived email r = record {
  shared = record { review = r; timing_attack = false };
  requests = (email, arrived) ∷ (email, arrived) ∷ (email, arrived) ∷ [];
}

-- If three requests of one user look at a review that the user has not liked, before one of them
-- has entered the user, then all three can be counted and entered, and are taken for a timing
-- attack.
pub three_likes :
    (email : String) (r : Review)
    → has_liked email r ≡ false
    → (t : System) × Reach (three_arrived email r) t
      × (t.shared.timing_attack ≡ true)
      × (t.shared.review.likes_count ≡ r.likes_count + 3)
      × (likes_of email t.shared.review.liked_by ≡ 3)
unfolding check_timing look_up
three_likes email r new =
    (three x9 done done done, run, attack, likes, thrice l0 (count-none email l0 new))
  where
    three : Shared → Stage → Stage → Stage → System
    three s p q o = record { shared = s; requests = (email, p) ∷ (email, q) ∷ (email, o) ∷ [] }

    done : Stage
    done = answered (send 200 tt)

    l0 : List String
    l0 = r.liked_by

    l1 : List String
    l1 = l0 ++ email ∷ []

    l2 : List String
    l2 = l1 ++ email ∷ []

    x0 : Shared
    x0 = record { review = r; timing_attack = false }

    x3 : Shared
    x3 = count_like (count_like (count_like x0))

    x5 : Shared
    x5 = store_likers email l0 (check_timing email x3)

    x7 : Shared
    x7 = store_likers email l1 (check_timing email x5)

    x9 : Shared
    x9 = store_likers email l2 (check_timing email x7)

    first :
        {s t : Shared} (p p' q o : Stage)
        → Access email s p t p'
        → Step (three s p q o) (three t p' q o)
    first p p' q o a = go [] ((email, q) ∷ (email, o) ∷ []) email p p' refl refl a

    second :
        {s t : Shared} (p q q' o : Stage)
        → Access email s q t q'
        → Step (three s p q o) (three t p q' o)
    second p q q' o a = go ((email, p) ∷ []) ((email, o) ∷ []) email q q' refl refl a

    third :
        {s t : Shared} (p q o o' : Stage)
        → Access email s o t o'
        → Step (three s p q o) (three t p q o')
    third p q o o' a = go ((email, p) ∷ (email, q) ∷ []) [] email o o' refl refl a

    looked : allowed ≡ look_up email (some r)
    looked = rw new refl

    all_looked : Reach (three x0 arrived arrived arrived) (three x0 allowed allowed allowed)
    all_looked =
        next_step
          (next_step
            (next_step here (first arrived allowed arrived arrived (look refl looked refl)))
            (second allowed arrived allowed arrived (look refl looked refl)))
          (third allowed allowed arrived allowed (look refl looked refl))

    all_counted : Reach (three x0 arrived arrived arrived) (three x3 counted counted counted)
    all_counted =
        next_step
          (next_step
            (next_step all_looked (first allowed counted allowed allowed (like refl refl refl)))
            (second counted allowed counted allowed (like refl refl refl)))
          (third counted counted allowed counted (like refl refl refl))

    one_entered : Reach (three x0 arrived arrived arrived) (three x5 done counted counted)
    one_entered =
        next_step
          (next_step all_counted
            (first counted (fetched l0) counted counted (fetch refl refl refl)))
          (first (fetched l0) done counted counted (store l0 refl refl refl))

    two_entered : Reach (three x0 arrived arrived arrived) (three x7 done done counted)
    two_entered =
        next_step
          (next_step one_entered (second done counted (fetched l1) counted (fetch refl refl refl)))
          (second done (fetched l1) done counted (store l1 refl refl refl))

    run : Reach (three x0 arrived arrived arrived) (three x9 done done done)
    run =
        next_step
          (next_step two_entered (third done done counted (fetched l2) (fetch refl refl refl)))
          (third done done (fetched l2) done (store l2 refl refl refl))

    likes : x9.review.likes_count ≡ r.likes_count + 3
    likes = omega arith

    self : (email === email) ≡ true
    self = (===_iff email email).1 refl

    thrice :
        (es : List String)
        → likes_of email es ≡ 0
        → likes_of email (((es ++ email ∷ []) ++ email ∷ []) ++ email ∷ []) ≡ 3
    thrice es h = rw (count-snoc email email ((es ++ email ∷ []) ++ email ∷ [])) (
        rw (count-snoc email email (es ++ email ∷ []))
          (rw (count-snoc email email es) (rw (self, h) refl)))

    attack : x9.timing_attack ≡ true
    attack = let h = thrice l0 (count-none email l0 new) in ground arith
