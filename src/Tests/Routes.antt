-- ===== src/Tests/Routes.antt =====
-- server.ts and routes/verify.ts on concrete inputs.
use runc.Prelude.{
  ℕ, ◌+◌, ◌≤◌, String, ◌≡◌, refl, ◌↔◌, Bool, true, false, ◌&&◌, ◌||◌, none, some, List, [], ◌∷◌,
  arith, ◌===◌, if◌then◌else◌, get_elem?,
}
use runc.Prelude.Http.{ok, Action, pure, Reply, send, next}
use runc.Tests.Auth.{services, empty_board}
use runc.Challenges.{Challenge, solve}
use runc.Routes.{get, put, Request, Express, App, serve}
use runc.Routes.Table.{layers}
use runc.Routes.Access.{serve-forbidden, serve_unauthenticated}
use mathlib.Core.List.{Memᴰ}
use runc.Auth.Text.{jwt_from}
use runc.Auth.Roles
use runc.Auth.Roles.{verified, verify}
use runc.Routes.{is_accounting}
use runc.Routes.Custom.{all_layers}
use runc.Routes.Handlers.{is_in, refuses, guarded_handlers}
use runc.Database.{list_orm}
use runc.Verification.Posted
use runc.Verification.Posted.{
  Config, Job, jobs, run_job, check_pattern_in_feedback_and_complaints, database_related_challenges,
}
use runc.Verification.Posted.Evidence.{HasEvidence, database_related_challenges-HasEvidence}
use runc.Verification
use runc.Verification.Bypass.{is_open, after, captcha_bypass_challenge_iff}

-- Tokens that are "Bearer" and the secret, and patterns that are matched by some paths.
abbrev express : Express
express = record {
  matches_prefix = λ pattern path. pattern === "/" || pattern === path;
  matches_whole =
      λ pattern path. pattern === path || pattern === "/api/Cards/:id" && path === "/api/Cards/7";
  verifies = λ secret authorization. elim authorization [ none ↦ false | some t ↦ t === secret ];
  public_key = "key";
  random = "0.5";
}

-- The state counts what was called.
abbrev app : App ℕ
app = record {
  auth = λ s. record { token_map = []; id_map = [] };
  set_user_id = λ id s. s;
  middleware = λ name r s. (ok next, s + 1);
}

abbrev finale : Action ℕ (Reply String)
finale s = (ok (send 200 "changed"), s + 100)

abbrev put_card : Request
put_card = record { method = put; path = "/api/Cards/7"; authorization = some "key" }

serve-forbidden_example :
    serve express services.crypto app layers put_card finale 0
    ≡ serve express services.crypto app layers put_card (pure next) 0
serve-forbidden_example =
    serve-forbidden express services.crypto app put_card finale (pure next) 0 refl refl

abbrev get_users : Request
get_users = record { method = get; path = "/api/Users"; authorization = some "other" }

serve_unauthenticated_example :
    serve express services.crypto app layers get_users finale 0
    ≡ serve express services.crypto app layers get_users (pure next) 0
serve_unauthenticated_example =
    serve_unauthenticated express services.crypto app get_users finale (pure next) 0 refl refl

abbrev orders : Request
orders = record { method = get; path = "/rest/order-history/orders"; authorization = some "key" }

abbrev accounting : List String
accounting = "allOrders" ∷ "toggleDeliveryStatus" ∷ "IpFilter" ∷ []

-- The handlers of the accounting give all away.
abbrev leaking : String → Request → Action ℕ (Reply String)
leaking name r s = if is_in name accounting then (ok (send 200 "leak"), s) else (ok next, s + 1)

leaking_agrees :
    (name : String)
    → is_in name accounting ≡ false
    → (t : ℕ) → app.middleware name orders t ≡ leaking name orders t
leaking_agrees name h t = rw h refl

accounting_refuses : refuses express services.crypto orders is_accounting ≡ true
unfolding Roles.is_accounting verified verify jwt_from
accounting_refuses = refl

guarded_handlers_example :
    serve express services.crypto app all_layers orders finale 0
    ≡ serve express services.crypto (record app { middleware = leaking }) all_layers orders finale 0
guarded_handlers_example =
    guarded_handlers express services.crypto app orders leaking is_accounting accounting finale 0
      (Memᴰ.head refl) accounting_refuses leaking_agrees

abbrev bypass : Challenge
bypass = record {
  id = 1;
  key = "captchaBypassChallenge";
  name = "CAPTCHA Bypass";
  description = "";
  difficulty = 3;
  solved = false;
  coding_challenge_status = 0;
  has_coding_challenge = false;
  disabled_env = none;
  tutorial_order = none;
}

abbrev fresh : Verification.State
fresh = record {
  locals = record {
    captcha_req_id = 1;
    captcha_bypass_req_times = [];
    abused_ssti_bug = false;
    abused_ssrf_bug = false;
  };
  board = record empty_board { challenges = bypass ∷ [] };
}

-- Ten posts in nine seconds.
abbrev posts : List ℕ
posts = 0 ∷ 1000 ∷ 2000 ∷ 3000 ∷ 4000 ∷ 5000 ∷ 6000 ∷ 7000 ∷ 8000 ∷ 9000 ∷ []

captcha_bypass_challenge_iff_example : (is_open (after posts fresh) ≡ false) ↔ (
    (i : ℕ) × (a : ℕ) × (b : ℕ) × (get_elem? posts i ≡ some a)
    × (get_elem? posts (i + 9) ≡ some b)
    × (b ≤ a + 20000))
captcha_bypass_challenge_iff_example = captcha_bypass_challenge_iff posts fresh refl refl refl

-- They solve the challenge.
posts_bypass : is_open (after posts fresh) ≡ false
posts_bypass =
    (captcha_bypass_challenge_iff posts fresh refl refl refl).1
      (0, 0, 9000, refl, refl, omega arith)

abbrev stars : Challenge
stars = record bypass { key = "feedbackChallenge" }

-- No feedback of five stars is left.
abbrev unrated : Posted.State
unrated = record {
  feedbacks = record { comment = "So-so."; rating = 3 } ∷ [];
  complaints = [];
  board = record empty_board { challenges = stars ∷ [] };
}

abbrev config : Config
config = record {
  url_for_product_tampering = some "http://shop/osaft";
  overwrite_url = "https://owasp.slack.com";
  csaf_hash_value = "7e7c";
  keywords = "mango" ∷ "lychee" ∷ [];
  osaft = none;
}

-- LIKE of a text with itself
abbrev like : String → String → Bool
like pattern text = pattern === text

unrated_solves :
    Posted.is_open "feedbackChallenge" (database_related_challenges list_orm like config unrated)
    ≡ false
unfolding database_related_challenges run_job check_pattern_in_feedback_and_complaints solve
unrated_solves = refl

database_related_challenges-HasEvidence_example :
    (job : Job) × Memᴰ ("feedbackChallenge", job) (jobs config)
    × HasEvidence like config unrated.feedbacks unrated.complaints job
database_related_challenges-HasEvidence_example =
    database_related_challenges-HasEvidence list_orm like config "feedbackChallenge" unrated refl
      unrated_solves
