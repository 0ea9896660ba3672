-- ===== src/Reviews/Likes.antt =====
-- `likeProductReviews` of routes/likeProductReviews.ts. The handler waits between its accesses to
-- the collection, so that requests interleave: each access is a step of its own. A document that
-- the collection returns is a copy.
use runc.Prelude.{
  ℕ, ◌+◌, String, ◌≡◌, Bool, true, false, ◌||◌, Option, none, some, List, [], ◌∷◌, ◌++◌, ltb, ◌===◌,
  if◌then◌else◌, any, count,
}
use runc.Prelude.Http.{Reply, send, refuse}
use runc.Reviews.{Review}

-- Where a request stands: before the first access, with the test passed, with the like counted and
-- the wait ahead, with a copy of the list of likers, or answered.
pub data Stage : Type 0 where
  arrived : Stage
  allowed : Stage
  counted : Stage
  fetched : List String → Stage
  answered : Reply (Unit {0}) → Stage

abbrev pub has_liked : String → Review → Bool
has_liked email r = any (λ e. e === email) r.liked_by

-- The lookup and the two early returns.
unfoldable pub look_up : String → Option Review → Stage
look_up email none = answered (refuse 404 "Not found")
look_up email (some r) = if has_liked email r then answered (refuse 403 "Not allowed") else allowed

-- The review that is liked, and whether the check for a timing attack ever held.
pub record Shared : Type 0 where
  pub review : Review
  pub timing_attack : Bool

-- `$inc: { likesCount: 1 }`
abbrev pub count_like : Shared → Shared
count_like s = record s { review = record s.review { likes_count = s.review.likes_count + 1 } }

abbrev pub likes_of : String → List String → ℕ
likes_of email liked_by = count (λ e. e === email) liked_by

-- The check for the challenge runs on the copy, with the new liker pushed.
unfoldable pub check_timing : String → Shared → Shared
check_timing email s = record s {
  timing_attack = s.timing_attack || ltb 2 (likes_of email (s.review.liked_by ++ email ∷ []));
}

-- `$set: { likedBy: updatedLikedBy }`, with the liker that was pushed to the copy
abbrev pub store_likers : String → List String → Shared → Shared
store_likers email liked_by s = record s {
  review = record s.review { liked_by = liked_by ++ email ∷ [] };
}

-- The answer to a rejected access: the inner handler's after the wait, the outer one's before.
abbrev pub failure : Stage → Reply (Unit {0})
failure (fetched liked_by) = refuse 500 "error"
failure counted = refuse 500 "error"
failure stage = refuse 400 "Wrong Params"

abbrev pub is_open : Stage → Bool
is_open (answered r) = false
is_open stage = true

-- One access of a request by the user with this address.
pub data Access (email : String) (s : Shared) (p : Stage) (t : Shared) (q : Stage) : Type 0 where
  look : p ≡ arrived → q ≡ look_up email (some s.review) → t ≡ s → Access email s p t q
  like : p ≡ allowed → q ≡ counted → t ≡ count_like s → Access email s p t q
  fetch :
      p ≡ counted → q ≡ fetched s.review.liked_by → t ≡ check_timing email s → Access email s p t q
  store :
      (liked_by : List String)
      → p ≡ fetched liked_by
      → q ≡ answered (send 200 tt)
      → t ≡ store_likers email liked_by s
      → Access email s p t q
  reject : is_open p ≡ true → q ≡ answered (failure p) → t ≡ s → Access email s p t q

-- A request: the address of its user, and its stage.
abbrev pub Request : Type 0
Request = String × Stage

pub record System : Type 0 where
  pub shared : Shared
  pub requests : List Request

-- Any of the requests goes on by one access.
pub data Step (s t : System) : Type 0 where
  go :
      (xs ys : List Request) (email : String) (p q : Stage)
      → s.requests ≡ xs ++ (email, p) ∷ ys
      → t.requests ≡ xs ++ (email, q) ∷ ys
      → Access email s.shared p t.shared q
      → Step s t

pub data Reach (s : System) : System → Type 0 where
  here : Reach s s
  next_step : {t u : System} → Reach s t → Step t u → Reach s u

-- A request that no other one interleaves with, and whose accesses all resolve.
unfoldable pub like_alone : String → Shared → Reply (Unit {0}) × Shared
unfolding check_timing
like_alone email s =
    if has_liked email s.review
    then (refuse 403 "Not allowed", s)
    else (send 200 tt, store_likers email s.review.liked_by (check_timing email (count_like s)))

-- Such requests, one after the other.
unfoldable pub like_in_turn : List String → Shared → Shared
like_in_turn [] s = s
like_in_turn (email ∷ emails) s = like_in_turn emails (like_alone email s).1
