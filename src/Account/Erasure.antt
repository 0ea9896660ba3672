-- ===== src/Account/Erasure.antt =====
-- The erasure of data (routes/dataErasure.ts). `path.resolve` with `toLowerCase` and the page's
-- template are arguments: the template gives an error, a page, or neither. What the request's
-- cookie says of the user is the session's id.
pub mod Layout
use Prim.Native.String
use runc.Prelude.{
  ℕ, zero, suc, String, Bool, true, false, not, ◌||◌, Option, none, some, List, [], ◌∷◌, ◌++◌,
  ◌===◌, if◌then◌else◌, concat_texts,
}
use runc.Prelude.Texts.{contains}
use runc.Prelude.Http.{Outcome, ok, thrown}
use runc.Database.{Orm}
use runc.Challenges.{Board, solve_if}

pub record PrivacyRequest : Type 0 where
  pub id : ℕ
  pub user_id : ℕ
  pub deletion_requested : Bool

pub record Erasure : Type 0 where
  pub requests : List PrivacyRequest
  pub board : Board

pub record Body : Type 0 where
  pub layout : Option String
  pub email : String
  pub security_answer : String

-- The callback's arguments: `error.message`, and the page.
pub record Rendered : Type 0 where
  pub error : Option String
  pub html : Option String

-- What becomes of the request; `uncaught` is a throw inside the callback.
pub data Answer : Type 0 where
  next_error : String → Answer
  page : String → Answer
  rendered : Answer
  uncaught : String → Answer

-- The answer, whether the cookie was cleared, and the state.
pub record Result : Type 0 where
  pub answer : Answer
  pub cleared : Bool
  pub state : Erasure

abbrev pub is_forbidden_file : String → Bool
is_forbidden_file path =
    contains path "ftp" || (contains path "ctf.key" || contains path "encryptionkeys")

-- `text.slice(0, n)`
unfoldable pub slice : ℕ → String → String
slice zero s = String.[]
slice (suc n) String.[] = String.[]
slice (suc n) (String.◌∷◌ c s) = String.◌∷◌ c (slice n s)

abbrev read_layout : Erasure → Erasure
read_layout s = record s { board = solve_if "lfrChallenge" true false s.board }

-- The callback of `render`: an empty page is falsy, and then an error is supposed to be there.
abbrev failed : Option String → Answer
failed none = uncaught "TypeError: Cannot read properties of null (reading 'message')"
failed (some message) = next_error message

abbrev truthy : Option String → Option String
truthy none = none
truthy (some s) = if s === "" then none else some s

-- `if (!html || error) … else …`, from the error and the page that is not empty
abbrev respond : Option String → Option String → Erasure → Answer × Erasure
respond error none s = (failed error, s)
respond (some message) (some html) s = (next_error message, s)
respond none (some html) s = (page (String.◌++◌ (slice 100 html) "......"), read_layout s)

abbrev pub request_of : ℕ → ℕ → PrivacyRequest
request_of user id = record { id = id; user_id = user; deletion_requested = true }

abbrev pub completed : Answer × Erasure → Result
completed (a, s) = record { answer = a; cleared = true; state = s }

module _ (e : Orm) (resolved : String → String) (render : Body → Rendered) where
  -- The part after the cookie is cleared.
  unfoldable pub erasure_page : Body → Option String → Erasure → Answer × Erasure
  unfolding slice
  erasure_page body none s = (rendered, s)
  erasure_page body (some layout) s =
      if is_forbidden_file (resolved layout)
      then (next_error "File access not allowed", s)
      else respond (render body).error (truthy (render body).html) s

  abbrev pub created : Body → Erasure → Outcome (PrivacyRequest × List PrivacyRequest) → Result
  created body s (thrown x) = record { answer = next_error x; cleared = false; state = s }
  created body s (ok (r, requests)) =
      completed (erasure_page body (truthy body.layout) (record s { requests = requests }))

  -- `router.post('/')`; `user` is the id of the session's user, `remote` the socket's address.
  unfoldable pub post : Option ℕ → String → Body → Erasure → Result
  post none remote body s = record {
    answer = next_error (concat_texts ("Blocked illegal activity by " ∷ remote ∷ []));
    cleared = false;
    state = s;
  }
  post (some user) remote body s = created body s (e.create (request_of user) s.requests)
