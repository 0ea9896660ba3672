-- ===== src/Challenges/Enabled.antt =====
-- `getChallengeEnablementStatus` and `isChallengeEnabled` of lib/utils.ts of
-- test-container/rootfs/juice-shop.
use text.Mathlib.Text.{find?}
use runc.Prelude.{
  String, ◌≡◌, Bool, true, false, not, ◌&&◌, ◌||◌, Option, none, some, arith, ◌===◌, if◌then◌else◌,
}
use runc.Challenges.{Challenge}

pub data SafetyMode : Type 0 where
  enabled disabled auto : SafetyMode

-- What the four environment functions return.
pub record Surroundings : Type 0 where
  pub is_docker : Bool
  pub is_heroku : Bool
  pub is_windows : Bool
  pub is_gitpod : Bool

pub record Status : Type 0 where
  pub is_enabled : Bool
  pub disabled_because : Option String

abbrev is_some {ℓ} : {A : Type ℓ} → Option A → Bool
is_some none = false
is_some (some a) = true

-- `String.includes`
abbrev pub includes_text : String → String → Bool
includes_text s t = is_some (find? s t)

abbrev pub allowed : Status
allowed = record { is_enabled = true; disabled_because = none }

abbrev pub denied : String → Status
denied why = record { is_enabled = false; disabled_because = some why }

-- The tests after the two early returns; `env` is `challenge.disabledEnv`.
abbrev pub status_in : SafetyMode → Surroundings → String → Status
status_in mode at env =
    if includes_text env "Docker" && at.is_docker
    then denied "Docker"
    else if includes_text env "Heroku" && at.is_heroku
    then denied "Heroku"
    else if includes_text env "Windows" && at.is_windows
    then denied "Windows"
    else if includes_text env "Gitpod" && at.is_gitpod
    then denied "Gitpod"
    else elim mode [ enabled ↦ denied "Safety Mode" | disabled ↦ allowed | auto ↦ allowed ]

-- A missing `disabledEnv` and an empty one are both falsy.
unfoldable pub get_challenge_enablement_status : Challenge → SafetyMode → Surroundings → Status
get_challenge_enablement_status c mode at = elim c.disabled_env [
  | none ↦ allowed
  | some env ↦ if env === "" then allowed else elim mode [
    | disabled ↦ allowed
    | enabled ↦ status_in enabled at env
    | auto ↦ status_in auto at env
  ]
]

unfoldable pub is_challenge_enabled : Challenge → SafetyMode → Surroundings → Bool
unfolding get_challenge_enablement_status
is_challenge_enabled c mode at = (get_challenge_enablement_status c mode at).is_enabled

-- The environments that are both named by a challenge and the one that the server runs in.
abbrev pub clashes : String → Surroundings → Bool
clashes env at =
    includes_text env "Docker" && at.is_docker
    || (includes_text env "Heroku" && at.is_heroku
        || (includes_text env "Windows" && at.is_windows
            || includes_text env "Gitpod" && at.is_gitpod))

-- Whether a challenge with a non-empty `disabledEnv` is enabled under each safety mode: always when
-- the mode is "disabled", never when it is "enabled", and under "auto" unless an environment that
-- it names is the server's.
pub is_challenge_enabled_lem :
    (c : Challenge) (env : String) (at : Surroundings)
    → c.disabled_env ≡ some env
    → (env === "") ≡ false
    → (is_challenge_enabled c disabled at ≡ true)
      × (is_challenge_enabled c enabled at ≡ false)
      × (is_challenge_enabled c auto at ≡ not (clashes env at))
unfolding is_challenge_enabled
is_challenge_enabled_lem c env at e h = (ground arith, ground arith, ground arith)

-- The reason is given exactly when the challenge is not enabled.
pub status_reason :
    (c : Challenge) (mode : SafetyMode) (at : Surroundings)
    → is_some (get_challenge_enablement_status c mode at).disabled_because
      ≡ not (get_challenge_enablement_status c mode at).is_enabled
unfolding get_challenge_enablement_status
status_reason c enabled at = ground arith
status_reason c disabled at = ground arith
status_reason c auto at = ground arith
