-- ===== src/Reviews.antt =====
-- The reviews of products: routes/createProductReviews.ts, routes/updateProductReviews.ts,
-- routes/showProductReviews.ts and routes/likeProductReviews.ts.
pub mod Likes
pub mod Race
pub mod Timing
use runc.Prelude.{
  ℕ, String, Bool, true, false, not, ◌&&◌, Option, none, some, List, [], ◌∷◌, map, ltb, ◌==◌, ◌===◌,
  any, find,
}
use runc.Prelude.Http.{
  Outcome, ok, thrown, Action, pure, catch, modify, await_write, ◌>>=◌, ◌>>◌, Reply, send, refuse,
}
use runc.Challenges.{Board, solve_if}

-- A document of the reviews collection.
pub record Review : Type 0 where
  pub id : ℕ
  pub product : String
  pub message : String
  pub author : String
  pub likes_count : ℕ
  pub liked_by : List String

pub record State : Type 0 where
  pub reviews : List Review
  pub board : Board

-- What `update` resolves to.
pub record Updated : Type 0 where
  pub modified : ℕ
  pub original : List Review
  pub rows : List Review

-- The calls of the collection, of the package marsdb. A selector is a test on documents, since the
-- body of a request may put an operator where an id is meant.
pub record Collection : Type 0 where
  pub insert : Review → List Review → Outcome (List Review)
  pub update : (Review → Bool) → (Review → Review) → List Review → Outcome Updated
  pub find : (Review → Bool) → List Review → Outcome (List Review)

abbrev pub check : String → Bool → State → State
check key criteria s = record s { board = solve_if key criteria false s.board }

-- An optional user's email against an author; the e-mail address is that of the session's user.
abbrev is_author : Option String → String → Bool
is_author none author = false
is_author (some email) author = email === author

abbrev other_author : Option String → List Review → Bool
other_author none reviews = false
other_author (some email) [] = false
other_author (some email) (r ∷ rs) = not (r.author === email)

module _ (c : Collection) where
  -- `id` is the new document's; its author is the one that the body names.
  unfoldable pub create_product_reviews :
      Option String → ℕ → String → String → String → Action State (Reply String)
  create_product_reviews user id product message author = do
    modify (check "forgedReviewChallenge" (not (is_author user author)))
    catch
        (do
          await_write (λ s.
              elim (c.insert
                (record {
                  id = id;
                  product = product;
                  message = message;
                  author = author;
                  likes_count = 0;
                  liked_by = [];
                })
                s.reviews) [ ok rows ↦ ok (record s { reviews = rows }) | thrown m ↦ thrown m ])
          pure (send 201 "success"))
        (λ m. pure (refuse 500 m))

  abbrev updated : Option String → Outcome Updated → Action State (Reply Updated)
  updated user (thrown m) s = (ok (refuse 500 m), s)
  updated user (ok u) s = (
    ok (send 200 u),
    check "forgedReviewChallenge" (other_author user u.original && u.modified == 1)
        (check "noSqlReviewsChallenge" (ltb 1 u.modified) (record s { reviews = u.rows })),
  )

  unfoldable pub update_product_reviews :
      Option String → (Review → Bool) → String → Action State (Reply Updated)
  update_product_reviews user selector message s =
      updated user (c.update selector (λ r. record r { message = message }) s.reviews) s

  abbrev shown : Option String → Review → Review × Bool
  shown none r = (r, true)
  shown (some email) r = (r, any (λ e. e === email) r.liked_by)

  -- `selector` is the `$where` clause; `elapsed` the milliseconds the query took. Each review comes
  -- with its `liked`.
  unfoldable pub show_product_reviews :
      Option String → (Review → Bool) → ℕ → Action State (Reply (List (Review × Bool)))
  show_product_reviews user selector elapsed s = elim (c.find selector s.reviews) [
    | thrown m ↦ (ok (refuse 400 "Wrong Params"), s)
    | ok rs ↦
        (ok (send 200 (map (shown user) rs)), check "noSqlCommandChallenge" (ltb 2000 elapsed) s)
  ]
