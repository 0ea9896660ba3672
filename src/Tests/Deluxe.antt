-- ===== src/Tests/Deluxe.antt =====
-- routes/deluxe.ts, routes/vulnCodeFixes.ts and `sanitizeSecure` on concrete inputs.
use runc.Prelude.{
  ℕ, ◌<◌, String, ◌≡◌, ◌↔◌, refl, ◌≢◌, ◌⊎◌, true, false, none, some, List, [], ◌∷◌, ◌==◌,
  if◌then◌else◌, map_where,
}
use runc.Prelude.Int.{pos, ◌-ℤ◌}
use runc.Prelude.Http.{Outcome, ok, thrown, send}
use mathlib.Core.List.{Memᴰ}
use runc.Tests.Auth.{services, server, empty_board}
use runc.Auth.Users.{User}
use runc.Tests.Board.{environment}
use Prim.Native.Char.{code}
use runc.Database.{list_orm}
use runc.Prelude.Texts.{starts_with}
use runc.Challenges.{Challenge, Board, has_key, set_status}
use runc.Challenges.Solving.{rows_after}
use runc.Challenges.Enabled.{
  enabled, Surroundings, is_challenge_enabled, get_challenge_enablement_status,
}
use runc.Coding.Accuracy.{store_fix_it_verdict}
use runc.Coding.Fixes
use runc.Coding.Fixes.{CodeFix, read_fixes, explanation_of, check_correct_fix}
use runc.Coding.Fixes.Verdicts.{check_correct_fix_lem}
use runc.Shop.Deluxe
use runc.Shop.Deluxe.{UpgradeRequest, is_a_customer, upgraded, upgrade_to_deluxe}
use runc.Shop.Deluxe.Payments.{IsPaid}
use runc.Shop.Deluxe.Upgrades.{upgrade_to_deluxe-users}
use runc.Sanitizing.{is_enabled, sanitize_secure}
use runc.Sanitizing.Termination.{IsFirstClean, sanitize_secure_iff}

abbrev shop : Deluxe.State
shop = record {
  server = server;
  wallets = record { user_id = 2; balance = pos 10000 } ∷ [];
  cards = [];
}

abbrev by_wallet : UpgradeRequest
by_wallet = record {
  user_id = 2;
  payment_mode = some "wallet";
  payment_id = none;
  authorization = none;
}

upgrade_to_deluxe-users_example :
    let t = (upgrade_to_deluxe services 2026 0 by_wallet shop).1 in
    (t.server.users ≡ shop.server.users)
    ⊎ ((u : User) × Memᴰ u shop.server.users
        × (is_a_customer services 2 u ≡ true)
        × (t.server.users
            ≡ map_where (λ (v : User). v.id == u.id) (λ _. upgraded services u) shop.server.users)
        × IsPaid services 2026 0 by_wallet shop t)
upgrade_to_deluxe-users_example = upgrade_to_deluxe-users services 2026 0 by_wallet shop

-- The directory, whose second file is the correct fix of "a".
abbrev files : Outcome (List (String × String))
files = ok (("a_1.ts", "one") ∷ ("a_2_correct.ts", "two") ∷ ("b_1.ts", "other") ∷ [])

abbrev fix : CodeFix
fix = record { fixes = "one" ∷ "two" ∷ []; correct = some (pos 1) }

was_read : read_fixes files "a" [] ≡ (ok fix, ("a", fix) ∷ [])
unfolding read_fixes starts_with ◌-ℤ◌
was_read = refl

abbrev start : Fixes.State
start = record { code_fixes = []; board = empty_board }

check_correct_fix_lem_example :
    ((some (pos 1) ≡ some (pos 1))
      × ((check_correct_fix list_orm environment 5 files none "a" (pos 1) start).1.board.rows
          ≡ rows_after list_orm environment 5 "a" false empty_board
              (list_orm.update (has_key "a") (set_status 2) empty_board.rows))
      × (((check_correct_fix list_orm environment 5 files none "a" (pos 1) start).0
            ≡ ok (send 200 (record { verdict = true; explanation = explanation_of none (pos 1) })))
          ⊎ ((e : String) × ((check_correct_fix list_orm environment 5 files none "a"
                  (pos 1)
                  start).0
                ≡ thrown e))))
    ⊎ ((some (pos 1) ≢ some (pos 1))
        × (check_correct_fix list_orm environment 5 files none "a" (pos 1) start ≡ (
          ok (send 200 (record { verdict = false; explanation = explanation_of none (pos 1) })),
          record {
            code_fixes = ("a", fix) ∷ [];
            board = record empty_board {
              accuracy = store_fix_it_verdict "a" false empty_board.accuracy;
            };
          },
        )))
check_correct_fix_lem_example =
    check_correct_fix_lem list_orm environment 5 files none "a" (pos 1) start fix (("a", fix) ∷ [])
      was_read refl

-- A sanitizer that takes one "<" from the front.
abbrev strip : String → String
strip String.[] = String.[]
strip (String.◌∷◌ c s) = if code c == 60 then s else String.◌∷◌ c s

sanitize_secure_iff_example :
    (sanitize_secure strip 20 "<<<b>bold" ≡ some "b>bold")
    ↔ ((k : ℕ) × (k < 20) × IsFirstClean strip "<<<b>bold" k "b>bold")
sanitize_secure_iff_example = sanitize_secure_iff strip 20 "<<<b>bold" "b>bold"

three_calls_too_few :
    (sanitize_secure strip 3 "<<<b>bold" ≡ none)
    × (sanitize_secure strip 4 "<<<b>bold" ≡ some "b>bold")
unfolding sanitize_secure
three_calls_too_few = (refl, refl)

abbrev harmful : String → Challenge
harmful key = record {
  id = 1;
  key = key;
  name = key;
  description = "";
  difficulty = 3;
  solved = false;
  coding_challenge_status = 0;
  has_coding_challenge = false;
  disabled_env = some "Docker";
  tutorial_order = none;
}

abbrev safe_board : Board
safe_board = record empty_board {
  challenges =
      harmful "persistedXssFeedbackChallenge"
      ∷ harmful "restfulXssChallenge"
      ∷ harmful "persistedXssUserChallenge"
      ∷ [];
}

abbrev docker : Surroundings
docker = record { is_docker = true; is_heroku = false; is_windows = false; is_gitpod = false }

comment_is_disabled : is_enabled enabled docker "persistedXssFeedbackChallenge" safe_board ≡ false
unfolding is_challenge_enabled get_challenge_enablement_status
comment_is_disabled = refl

description_is_disabled : is_enabled enabled docker "restfulXssChallenge" safe_board ≡ false
unfolding is_challenge_enabled get_challenge_enablement_status
description_is_disabled = refl

email_is_disabled : is_enabled enabled docker "persistedXssUserChallenge" safe_board ≡ false
unfolding is_challenge_enabled get_challenge_enablement_status
email_is_disabled = refl
