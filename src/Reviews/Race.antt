-- ===== src/Reviews/Race.antt =====
-- routes/likeProductReviews.ts: what interleaved requests do to a review.
use runc.Prelude.{
  ℕ, ◌+◌, ◌≤◌, String, ◌≡◌, refl, inl, inr, Bool, true, false, List, [], ◌∷◌, ◌++◌, arith,
  if◌then◌else◌, Bool-cases, length, count, length-append, count-append, All,
}
use runc.Reviews.Likes.{
  Stage, arrived, allowed, counted, fetched, answered, has_liked, look_up, Shared, check_timing,
  Access, look, like, fetch, store, reject, Request, System, Step, go, Reach, here, next_step,
}

-- The like is counted, and its user is not yet entered.
abbrev is_pending : Request → Bool
is_pending (email, counted) = true
is_pending (email, fetched l) = true
is_pending (email, p) = false

abbrev pending : List Request → ℕ
pending qs = count is_pending qs

-- A copy of the likers leaves room for all who are still to be entered.
abbrev Fits : ℕ → ℕ → Request → Type 0
Fits waiting likes (email, fetched l) = length l + waiting ≤ likes
Fits waiting likes (email, arrived) = Unit
Fits waiting likes (email, allowed) = Unit
Fits waiting likes (email, counted) = Unit
Fits waiting likes (email, answered a) = Unit

abbrev Inv : System → Type 0
Inv s =
    (length s.shared.review.liked_by + pending s.requests ≤ s.shared.review.likes_count)
    × All (Fits (pending s.requests) s.shared.review.likes_count) s.requests

Fits-mono : (w v m n : ℕ) (q : Request) → m + v ≤ n + w → Fits w m q → Fits v n q
Fits-mono w v m n (email, fetched l) h f = omega arith
Fits-mono w v m n (email, arrived) h f = tt
Fits-mono w v m n (email, allowed) h f = tt
Fits-mono w v m n (email, counted) h f = tt
Fits-mono w v m n (email, answered a) h f = tt

All-mono : (w v m n : ℕ) (qs : List Request) → m + v ≤ n + w → All (Fits w m) qs → All (Fits v n) qs
All-mono w v m n [] h f = tt
All-mono w v m n (q ∷ qs) h (f, fs) = (Fits-mono w v m n q h f, All-mono w v m n qs h fs)

-- The invariant of the others, and that of one request between them.
All-parts :
    (P : Request → Type 0) (xs ys : List Request) (q : Request)
    → All P (xs ++ q ∷ ys)
    → All P xs × P q × All P ys
All-parts P [] ys q (h, hs) = (tt, h, hs)
All-parts P (x ∷ xs) ys q (h, hs) = let (a, b, c) = All-parts P xs ys q hs in ((h, a), b, c)

All-join :
    (P : Request → Type 0) (xs ys : List Request) (q : Request)
    → All P xs
    → P q
    → All P ys
    → All P (xs ++ q ∷ ys)
All-join P [] ys q a b c = (b, c)
All-join P (x ∷ xs) ys q (h, a) b c = (h, All-join P xs ys q a b c)

pending_parts :
    (xs ys : List Request) (q : Request)
    → pending (xs ++ q ∷ ys) ≡ pending xs + (if is_pending q then 1 else 0) + pending ys
pending_parts xs ys q = omega (arith, count-append is_pending xs (q ∷ ys))

-- What an access leaves of the likers, the pending likes and the likes, next to the other requests.
module _ (email : String) (s t : Shared) (p q : Stage) (others : ℕ) where
  abbrev Room : Shared → Stage → Type 0
  Room s p =
      (length s.review.liked_by + (others + (if is_pending (email, p) then 1 else 0))
        ≤ s.review.likes_count)
      × Fits (others + (if is_pending (email, p) then 1 else 0)) s.review.likes_count (email, p)

  abbrev Slack : Type 0
  Slack =
      s.review.likes_count + (others + (if is_pending (email, q) then 1 else 0))
      ≤ t.review.likes_count + (others + (if is_pending (email, p) then 1 else 0))

  Access-Room : Access email s p t q → Room s p → Room t q × Slack
  unfolding look_up check_timing
  Access-Room (look a b c) h = elim (Bool-cases (has_liked email s.review)) [
    | inl k ↦ rw (c, b) (rw k (ground arith))
    | inr k ↦ rw (c, b) (rw k (ground arith))
  ]
  Access-Room (like a b c) h = rw (c, b) (let g = rw a at h in (ground arith))
  Access-Room (fetch a b c) h = rw (c, b) (let g = rw a at h in (ground arith))
  Access-Room (store l a b c) h =
      rw (c, b) (let g = rw a at h in let n = length-append l (email ∷ []) in (ground arith))
  Access-Room (reject o b c) h = rw (c, b) (ground arith)

abbrev InvAt : Shared → List Request → Type 0
InvAt s qs =
    (length s.review.liked_by + pending qs ≤ s.review.likes_count)
    × All (Fits (pending qs) s.review.likes_count) qs

go-InvAt :
    (s t : Shared) (xs ys : List Request) (email : String) (p q : Stage)
    → Access email s p t q
    → InvAt s (xs ++ (email, p) ∷ ys)
    → InvAt t (xs ++ (email, q) ∷ ys)
go-InvAt s t xs ys email p q access (h, hs) =
    let m = pending_parts xs ys (email, p) in
    let n = pending_parts xs ys (email, q) in
    let (a, f, c) =
      All-parts (Fits (pending (xs ++ (email, p) ∷ ys)) s.review.likes_count) xs ys (email, p) hs in
    let ((h', f'), slack) = Access-Room email s t p q (pending xs + pending ys) access (
      omega (arith),
      Fits-mono _ (pending xs + pending ys + (if is_pending (email, p) then 1 else 0))
          s.review.likes_count s.review.likes_count (email, p) (omega arith) f,
    ) in
    let less : s.review.likes_count + pending (xs ++ (email, q) ∷ ys)
        ≤ t.review.likes_count + pending (xs ++ (email, p) ∷ ys) =
      omega arith in
    (
      omega arith,
      All-join (Fits (pending (xs ++ (email, q) ∷ ys)) t.review.likes_count) xs ys (email, q)
          (All-mono _ _ s.review.likes_count t.review.likes_count xs less a)
          (Fits-mono _ _ t.review.likes_count t.review.likes_count (email, q) (omega arith) f')
          (All-mono _ _ s.review.likes_count t.review.likes_count ys less c),
    )

Step-Inv : {s t : System} → Step s t → Inv s → Inv t
Step-Inv {s} {t} (go xs ys email p q before after access) h =
    rw after (go-InvAt s.shared t.shared xs ys email p q access (rw before at h))

-- No request has been counted yet.
abbrev pub IsStart : System → Type 0
IsStart s = All (λ (r : Request). r.1 ≡ arrived) s.requests

start-pending : (qs : List Request) → All (λ (r : Request). r.1 ≡ arrived) qs → pending qs ≡ 0
start-pending [] h = refl
start-pending ((email, p) ∷ qs) (h, hs) = rw (start-pending qs hs) (rw h refl)

start-Fits :
    (w n : ℕ) (qs : List Request) → All (λ (r : Request). r.1 ≡ arrived) qs → All (Fits w n) qs
start-Fits w n [] h = tt
start-Fits w n ((email, p) ∷ qs) (h, hs) = (rw h tt, start-Fits w n qs hs)

Reach-Inv : {s t : System} → Inv s → Reach s t → Inv t
Reach-Inv h here = h
Reach-Inv h (next_step r st) = Step-Inv st (Reach-Inv h r)

-- However the requests interleave, and whichever of their accesses are rejected, a review never has
-- more likers entered than likes counted, if that holds at the start.
pub liked_by-le-likes_count :
    (s t : System)
    → IsStart s
    → length s.shared.review.liked_by ≤ s.shared.review.likes_count
    → Reach s t
    → length t.shared.review.liked_by ≤ t.shared.review.likes_count
liked_by-le-likes_count s t start h r =
    let none = start-pending s.requests start in
    let i : Inv s = (omega arith, start-Fits _ _ s.requests start) in
    let (k, _) = Reach-Inv i r in omega arith
