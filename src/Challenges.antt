-- ===== src/Challenges.antt =====
-- lib/challengeUtils.ts of test-container/rootfs/juice-shop, with the part of lib/utils.ts that
-- says whether a challenge is enabled. `challenge.solved = true` takes effect at once; what follows
-- the awaited `challenge.save()` is a job of `pending`, run by `after_save`. Log lines are left out.
pub mod Solving
pub mod Enabled
pub mod Sockets
use runc.Prelude.{
  ℕ, String, Bool, true, false, not, ◌&&◌, ◌||◌, Option, none, some, List, [], ◌∷◌, ◌++◌, ltb, ◌==◌,
  ◌===◌, if◌then◌else◌, length, any, find, map_where,
}
use runc.Prelude.Http.{Outcome, ok, thrown, Action, pure, await, modify, await_write, ◌>>=◌, ◌>>◌}
use Prim.Native.String
use runc.Database.{Orm}
use runc.Coding.Accuracy.{
  Solves, find_it, fix_it, store_find_it_verdict, store_fix_it_verdict, calculate_accuracy,
}
use runc.Coding.AntiCheat
use runc.Coding.AntiCheat.{
  Settings, Score, Snippets, calculate_cheat_score, calculate_find_it_cheat_score,
  calculate_fix_it_cheat_score,
}

-- A row of the Challenges table; `datacache.challenges` holds the same objects by key.
pub record Challenge : Type 0 where
  pub id : ℕ
  pub key : String
  pub name : String
  pub description : String
  pub difficulty : ℕ
  pub solved : Bool
  pub coding_challenge_status : ℕ
  pub has_coding_challenge : Bool
  pub disabled_env : Option String
  pub tutorial_order : Option ℕ

pub record Notification : Type 0 where
  pub key : String
  pub name : String
  pub challenge : String
  pub flag : String
  pub hidden : Bool
  pub is_restore : Bool
  pub coding_challenge : Bool

-- What `webhook.notify` is given.
pub record Report : Type 0 where
  pub key : String
  pub cheat_score : Score
  pub hints_available : ℕ
  pub hints_unlocked : ℕ

pub record Hint : Type 0 where
  pub challenge_id : ℕ
  pub unlocked : Bool

-- A row of `emitted` by `sendCodingChallengeNotification`: the key and the status.
abbrev pub CodingNotification : Type 0
CodingNotification = String × ℕ

pub record Board : Type 0 where
  -- `datacache.challenges`
  pub challenges : List Challenge
  -- the Challenges table
  pub rows : List Challenge
  -- solves whose `save()` is still awaited: the key and `isRestore`
  pub pending : List (String × Bool)
  pub notifications : List Notification
  pub emitted : List Notification
  pub coding_emitted : List CodingNotification
  pub reports : List Report
  pub hints : List Hint
  pub accuracy : Solves
  pub anti_cheat : AntiCheat.State

-- Configuration, environment, and the packages' text functions.
pub record Environment : Type 0 where
  pub settings : Settings
  pub show_solved_notifications : Bool
  pub coding_challenges_enabled : Bool
  pub has_io : Bool
  pub has_webhook : Bool
  -- `utils.ctfFlag`, an HMAC
  pub ctf_flag : String → String
  -- `entities.decode(sanitizeHtml(…))`
  pub plain_text : String → String

abbrev pub has_key : String → Challenge → Bool
has_key k c = c.key === k

abbrev pub challenge_of : String → Board → Option Challenge
challenge_of key b = find (has_key key) b.challenges

-- `challenge && !challenge.solved`
abbrev pub not_solved : Option Challenge → Bool
not_solved none = false
not_solved (some c) = not c.solved

abbrev pub mark_solved : Challenge → Challenge
mark_solved c = record c { solved = true }

unfoldable pub solve : String → Bool → Board → Board
solve key is_restore b = record b {
  challenges = map_where (has_key key) mark_solved b.challenges;
  pending = b.pending ++ (key, is_restore) ∷ [];
}

unfoldable pub solve_if : String → Bool → Bool → Board → Board
unfolding solve
solve_if key criteria is_restore b =
    if not_solved (challenge_of key b) && criteria then solve key is_restore b else b

abbrev pub full_has_coding : Option Challenge → Bool
full_has_coding none = false
full_has_coding (some c) = c.has_coding_challenge

-- The object literal `notification`; `c` is the saved row.
abbrev pub notification_for : Environment → Challenge → Bool → Board → Notification
notification_for env c is_restore b = record {
  key = c.key;
  name = c.name;
  challenge =
      String.◌++◌ c.name (String.◌++◌ " (" (String.◌++◌ (env.plain_text c.description) ")"));
  flag = env.ctf_flag c.name;
  hidden = not env.show_solved_notifications;
  is_restore = is_restore;
  coding_challenge = env.coding_challenges_enabled && full_has_coding (challenge_of c.key b);
}

-- Pushes a notification, and emits it unless one for its challenge was shown before.
abbrev pub announce : Bool → Notification → Board → Board
announce has_io n b = record b {
  notifications = b.notifications ++ n ∷ [];
  emitted =
      if has_io
        && (n.is_restore || not (any (λ (m : Notification). m.key === n.key) b.notifications))
      then b.emitted ++ n ∷ []
      else b.emitted;
}

unfoldable pub send_notification : Environment → Challenge → Bool → Board → Board
send_notification env c is_restore b =
    if not c.solved then b else announce env.has_io (notification_for env c is_restore b) b

unfoldable pub send_coding_challenge_notification : Environment → String → ℕ → Board → Board
send_coding_challenge_notification env key status b =
    if ltb 0 status && env.has_io
    then record b { coding_emitted = b.coding_emitted ++ (key, status) ∷ [] }
    else b

abbrev pub find_challenge_by_name : String → Board → Option Challenge
find_challenge_by_name name b = find (λ (c : Challenge). c.name === name) b.challenges

abbrev pub find_challenge_by_id : ℕ → Board → Option Challenge
find_challenge_by_id id b = find (λ (c : Challenge). c.id == id) b.challenges

-- What the cheat scores read of a challenge.
abbrev pub scored : Challenge → AntiCheat.Challenge
scored c = record { key = c.key; difficulty = c.difficulty; tutorial_order = c.tutorial_order }

abbrev pub set_status : ℕ → Challenge → Challenge
set_status n c = record c { coding_challenge_status = n }

module _ (o : Orm) (env : Environment) where
  abbrev counted : (Hint → Bool) → Action Board ℕ
  counted p =
      await (λ b. elim (o.find_all p b.hints) [ ok hs ↦ ok (length hs) | thrown e ↦ thrown e ])

  abbrev record_cheat : ℕ → Challenge → Action Board Score
  record_cheat now c b =
      let (score, state) = calculate_cheat_score env.settings now (scored c) b.anti_cheat in
      (ok score, record b { anti_cheat = state })

  abbrev save : Challenge → Action Board (Unit {0})
  save c = await_write (λ b. elim (o.update (has_key c.key) (λ _. c) b.rows) [
    | ok rows ↦ ok (record b { rows = rows })
    | thrown e ↦ thrown e
  ])

  -- The `then` of `challenge.save()` in `solve`.
  unfoldable pub after_save : ℕ → Challenge → Bool → Action Board (Unit {0})
  unfolding send_notification calculate_cheat_score
  after_save now c is_restore = do
    save c
    modify (send_notification env c is_restore)
    if is_restore then pure tt else do
      score ← record_cheat now c
      hints_available ← counted (λ (h : Hint). h.challenge_id == c.id)
      hints_unlocked ← counted (λ (h : Hint). h.challenge_id == c.id && h.unlocked)
      if env.has_webhook
          then modify (λ b. record b {
            reports =
                b.reports
                ++ record {
                  key = c.key;
                  cheat_score = score;
                  hints_available = hints_available;
                  hints_unlocked = hints_unlocked;
                }
                  ∷ [];
          })
          else pure tt

  abbrev update_rows : (Challenge → Bool) → ℕ → Action Board (Unit {0})
  update_rows p n = await_write (λ b. elim (o.update p (set_status n) b.rows) [
    | ok rows ↦ ok (record b { rows = rows })
    | thrown e ↦ thrown e
  ])

  -- `challenges[key]`, whose fields are read by the log line: a missing key throws.
  abbrev solved_challenge : String → Action Board Challenge
  solved_challenge key b = elim (challenge_of key b) [
    | none ↦ (thrown "TypeError", b)
    | some c ↦ (ok c, b)
  ]

  abbrev record_find_it : ℕ → Outcome Snippets → Challenge → Action Board Score
  record_find_it now codes c b =
      let (score, state) =
        calculate_find_it_cheat_score env.settings now (scored c) codes b.anti_cheat in
      (score, record b { anti_cheat = state })

  abbrev record_fix_it : ℕ → ℕ → Challenge → Action Board Score
  record_fix_it now fixes c b =
      let (score, state) = calculate_fix_it_cheat_score now (scored c) fixes b.anti_cheat in
      (ok score, record b { anti_cheat = state })

  -- `codes` is what `getCodeChallenges` resolves to.
  unfoldable pub solve_find_it : ℕ → Outcome Snippets → String → Bool → Action Board (Unit {0})
  unfolding send_coding_challenge_notification store_find_it_verdict
  solve_find_it now codes key is_restore = do
    update_rows (λ (c : Challenge). has_key key c && ltb c.coding_challenge_status 2) 1
    c ← solved_challenge key
    if is_restore then pure tt else do
      modify (λ b. record b { accuracy = store_find_it_verdict c.key true b.accuracy })
      await (λ b. calculate_accuracy c.key find_it b.accuracy)
      record_find_it now codes c
      modify (send_coding_challenge_notification env key 1)

  -- `fixes` is the number of fixes that `readFixes` finds for the key.
  unfoldable pub solve_fix_it : ℕ → ℕ → String → Bool → Action Board (Unit {0})
  unfolding send_coding_challenge_notification store_fix_it_verdict
  solve_fix_it now fixes key is_restore = do
    update_rows (has_key key) 2
    c ← solved_challenge key
    if is_restore then pure tt else do
      modify (λ b. record b { accuracy = store_fix_it_verdict c.key true b.accuracy })
      await (λ b. calculate_accuracy c.key fix_it b.accuracy)
      record_fix_it now fixes c
      modify (send_coding_challenge_notification env key 2)
