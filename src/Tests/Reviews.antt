-- ===== src/Tests/Reviews.antt =====
-- routes/likeProductReviews.ts on concrete inputs.
use runc.Prelude.{◌≤◌, String, ◌≡◌, refl, sym, false, some, [], ◌∷◌, arith, length}
use runc.Reviews.{Review}
use runc.Reviews.Likes.{
  arrived, allowed, counted, look_up, Shared, count_like, System, go, Reach, here, next_step, look,
  like,
}
use runc.Reviews.Race.{liked_by-le-likes_count}
use runc.Reviews.Timing.{IsOnce}

abbrev review : Review
review = record {
  id = 1;
  product = "1";
  message = "Fine.";
  author = "admin@shop";
  likes_count = 1;
  liked_by = "amy@shop" ∷ [];
}

abbrev jim : String
jim = "jim@shop"

abbrev shared : Shared
shared = record { review = review; timing_attack = false }

abbrev waiting : System
waiting = record { shared = shared; requests = (jim, arrived) ∷ [] }

abbrev passed : System
passed = record { shared = shared; requests = (jim, allowed) ∷ [] }

abbrev liked : System
liked = record { shared = count_like shared; requests = (jim, counted) ∷ [] }

looked : look_up jim (some review) ≡ allowed
unfolding look_up
looked = refl

run : Reach waiting liked
run =
    next_step
      (next_step here (go [] [] jim arrived allowed refl refl (look refl (sym looked) refl)))
      (go [] [] jim allowed counted refl refl (like refl refl refl))

liked_by-le-likes_count_example :
    length liked.shared.review.liked_by ≤ liked.shared.review.likes_count
liked_by-le-likes_count_example = liked_by-le-likes_count waiting liked (refl, tt) (omega arith) run

is_once : IsOnce shared
is_once = (λ email. ground arith, refl)
