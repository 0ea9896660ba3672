-- ===== src/Sanitizing.antt =====
-- `sanitizeSecure` of lib/insecurity.ts, and the setters of models/feedback.ts, models/product.ts
-- and models/user.ts that store a text with it. The package sanitize-html is a parameter. The
-- function calls itself on every text that the package changed: the model has fuel, and is `none`
-- when it runs out.
pub mod Termination
use runc.Prelude.{ℕ, zero, suc, String, Bool, true, false, Option, none, some, ◌===◌, if◌then◌else◌}
use runc.Prelude.Texts.{contains}
use runc.Challenges.{Board, challenge_of, solve_if}
use runc.Challenges.Enabled.{SafetyMode, Surroundings, is_challenge_enabled}

-- `isChallengeEnabled(challenges[key])`; a missing challenge has no `disabledEnv`.
abbrev pub is_enabled : SafetyMode → Surroundings → String → Board → Bool
is_enabled mode at key b = elim (challenge_of key b) [
  | none ↦ true
  | some c ↦ is_challenge_enabled c mode at
]

abbrev pub iframe : String
iframe = "<iframe src=\"javascript:alert(`xss`)\">"

module _ (sanitize_html : String → String) where
  unfoldable pub sanitize_secure : ℕ → String → Option String
  sanitize_secure zero html = none
  sanitize_secure (suc n) html =
      let rest = sanitize_secure n (sanitize_html html) in
      if sanitize_html html === html then some html else rest

  module _ (mode : SafetyMode) (at : Surroundings) (fuel : ℕ) where
    -- The new value, and the challenges.
    unfoldable pub set_comment : String → Board → Option String × Board
    unfolding sanitize_secure
    set_comment comment b =
        if is_enabled mode at "persistedXssFeedbackChallenge" b
        then (let sanitized = sanitize_html comment in
            (
              some sanitized,
              solve_if "persistedXssFeedbackChallenge" (contains sanitized iframe) false b,
            ))
        else (sanitize_secure fuel comment, b)

    unfoldable pub set_description : String → Board → Option String × Board
    unfolding sanitize_secure
    set_description description b =
        if is_enabled mode at "restfulXssChallenge" b
        then (
          some description,
          solve_if "restfulXssChallenge" (contains description iframe) false b,
        )
        else (sanitize_secure fuel description, b)

    unfoldable pub set_email : String → Board → Option String × Board
    unfolding sanitize_secure
    set_email email b =
        if is_enabled mode at "persistedXssUserChallenge" b
        then (some email, solve_if "persistedXssUserChallenge" (contains email iframe) false b)
        else (sanitize_secure fuel email, b)
