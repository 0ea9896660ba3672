-- ===== src/Routes/Rules.antt =====
-- server.ts: what is closed of the generated API. `promised` is what the comments forbid, Routes/Table
-- the code; the two differ by `not_kept` and `denied_as_well`.
use runc.Prelude.{
  String, Bool, true, false, not, ◌&&◌, List, [], ◌∷◌, ◌++◌, filter, any, ◌==◌, ◌===◌,
}
use runc.Routes.{get, post, put, delete, Mount, all, on, rank}

abbrev pub Rule : Type 0
Rule = Mount × String

abbrev pub same_mount : Mount → Mount → Bool
same_mount all all = true
same_mount (on m) (on n) = rank m == rank n
same_mount all (on n) = false
same_mount (on m) all = false

-- What the comments of server.ts forbid everyone, resource by resource of the generated API.
abbrev pub promised : List Rule
promised =
    -- "Users: Only POST is allowed"
    (on get, "/api/Users")
    ∷ (on get, "/api/Users/:id")
    ∷ (on put, "/api/Users/:id")
    ∷ (on delete, "/api/Users/:id")
    -- "Products: Only GET is allowed"
    ∷ (on post, "/api/Products")
    ∷ (on put, "/api/Products/:id")
    ∷ (on delete, "/api/Products/:id")
    -- "Challenges: GET list of challenges allowed. Everything else forbidden entirely"
    ∷ (on post, "/api/Challenges")
    ∷ (all, "/api/Challenges/:id")
    -- "Hints: GET and PUT hints allowed. Everything else forbidden"
    ∷ (on post, "/api/Hints")
    ∷ (on delete, "/api/Hints/:id")
    -- "Recycles: POST and GET allowed when logged in only"
    ∷ (on put, "/api/Recycles/:id")
    ∷ (on delete, "/api/Recycles/:id")
    -- "SecurityQuestions: Only GET list of questions allowed."
    ∷ (on post, "/api/SecurityQuestions")
    ∷ (all, "/api/SecurityQuestions/:id")
    -- "SecurityAnswers: Only POST of answer allowed."
    ∷ (on get, "/api/SecurityAnswers")
    ∷ (all, "/api/SecurityAnswers/:id")
    -- "Accounting users are allowed to check and update quantities"
    ∷ (on post, "/api/Quantitys")
    ∷ (on delete, "/api/Quantitys/:id")
    -- "Feedbacks: Do not allow changes of existing feedback"
    ∷ (on put, "/api/Feedbacks/:id")
    -- "PrivacyRequests: Only POST allowed for authenticated users"
    ∷ (on get, "/api/PrivacyRequests")
    ∷ (all, "/api/PrivacyRequests/:id")
    ∷ []

-- The promises that the code does not keep: it asks for a token only, and for PUT of a product, whose
-- line is commented out, not even for that.
abbrev pub not_kept : List Rule
not_kept =
    (on get, "/api/Users")
    ∷ (on get, "/api/Users/:id")
    ∷ (on post, "/api/Products")
    ∷ (on put, "/api/Products/:id")
    ∷ []

-- What the code denies although no comment forbids it: the comments allow GET of hints, allow GET of
-- complaints to those who are logged in, and do not speak of PUT of cards.
abbrev pub denied_as_well : List Rule
denied_as_well =
    (on get, "/api/Hints/:id") ∷ (all, "/api/Complaints/:id") ∷ (on put, "/api/Cards/:id") ∷ []

abbrev is_same_rule : Rule → Rule → Bool
is_same_rule r q = same_mount r.0 q.0 && r.1 === q.1

-- What the server denies everyone: what the comments forbid, but for the promises that are not kept,
-- and what is denied as well.
abbrev pub forbidden : List Rule
forbidden = filter (λ r. not (any (is_same_rule r) not_kept)) promised ++ denied_as_well

-- The rules of the comments "only accessible for authenticated users", "when logged in only" and
-- "not allowed to access" that the code carries out with `isAuthorized`, and the others that it puts
-- under it. GET of /api/Recycles, whose comment says the same, has no such guard.
abbrev pub members_only : List Rule
members_only =
    (all, "/rest/basket")
    ∷ (all, "/rest/basket/:id")
    ∷ (all, "/rest/basket/:id/order")
    ∷ (all, "/api/BasketItems")
    ∷ (all, "/api/BasketItems/:id")
    ∷ (all, "/api/Feedbacks/:id")
    ∷ (on get, "/api/Users")
    ∷ (on get, "/api/Users/:id")
    ∷ (on post, "/api/Products")
    ∷ (on get, "/api/Complaints")
    ∷ (on post, "/api/Complaints")
    ∷ (on post, "/api/Recycles")
    ∷ (all, "/rest/user/authentication-details")
    ∷ (all, "/b2b/v2")
    ∷ (all, "/api/PrivacyRequests")
    ∷ (on get, "/rest/2fa/status")
    ∷ (on post, "/rest/2fa/setup")
    ∷ (on post, "/rest/2fa/disable")
    ∷ []
