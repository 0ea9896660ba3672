-- ===== src/Challenges/Sockets/Once.antt =====
-- lib/challengeUtils.ts and lib/startup/registerWebsocketEvents.ts: how often all sockets are told of
-- a challenge.
use mathlib.Core.Option
use runc.Prelude.{ℕ, ◌+◌, ◌≤◌, String, Bool, not, ◌&&◌, Option, ◌===◌, if◌then◌else◌, count}
use runc.Challenges.{Notification, Board, challenge_of, not_solved}

-- The notifications about a challenge that was solved, not restored.
abbrev pub announced : String → Notification → Bool
announced k n = n.key === k && not n.is_restore

-- A solve whose `save()` has not returned, of a challenge that is not restored.
abbrev is_awaited : String → String × Bool → Bool
is_awaited k p = p.0 === k && not p.1

-- How often all sockets may have been told of a challenge: never while it is unsolved.
abbrev pub limit : String → Board → ℕ
limit k b = if not_solved (challenge_of k b) then 0 else 1

-- What went out and what is still to go out is within the limit.
abbrev IsWithin : String → Board → Type 0
IsWithin k b = count (announced k) b.emitted + count (is_awaited k) b.pending ≤ limit k b
