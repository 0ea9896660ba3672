-- ===== src/Challenges/Sockets.antt =====
-- lib/startup/registerWebsocketEvents.ts of test-container/rootfs/juice-shop, together with the
-- solving of challenges, as steps on one state. A message that goes to all sockets (`io.emit`) is in
-- the board's `emitted`, one to a single socket in `delivered`. The regular expression of
-- `verifySvgInjectionChallenge` is left out: any criterion may come with a call of `solveIf`.
pub mod Once
use runc.Prelude.{
  ℕ, String, Bool, true, false, Option, none, some, List, [], ◌∷◌, ◌++◌, ◌≡◌, ltb, ◌===◌,
  if◌then◌else◌, map,
}
use runc.Prelude.Texts.{contains}
use runc.Database.{Orm}
use runc.Challenges.{
  Challenge, Notification, Board, Environment, challenge_of, solve, solve_if, after_save,
}
use runc.Sanitizing.{iframe}

pub record Hub : Type 0 where
  pub board : Board
  pub first_connected_socket : Option String
  -- the sockets that were told that the server started
  pub started : List String
  -- what was sent to a single socket
  pub delivered : List (String × Notification)

abbrev pub first_of : Option String → String → String
first_of none id = id
first_of (some first) id = first

abbrev pub told : Option String → String → List String
told none id = id ∷ []
told (some first) id = []

-- `io.on('connection', …)`, up to the listeners that it adds.
unfoldable pub connection : String → Hub → Hub
connection id h = record h {
  first_connected_socket = some (first_of h.first_connected_socket id);
  started = h.started ++ told h.first_connected_socket id;
  delivered = h.delivered ++ map (λ (n : Notification). (id, n)) h.board.notifications;
}

-- `splice(i, 1)` at the index that `findIndex` finds, if it finds one
unfoldable pub without_flag : String → List Notification → List Notification
without_flag text [] = []
without_flag text (n ∷ ns) =
    let rest = without_flag text ns in if n.flag === text then ns else n ∷ rest

unfoldable pub notification_received : String → Board → Board
unfolding without_flag
notification_received text b = record b { notifications = without_flag text b.notifications }

-- `payload` is the configuration's `challenges.xssBonusPayload`.
unfoldable pub verify_local_xss_challenge : String → String → Board → Board
verify_local_xss_challenge payload text b =
    solve_if "xssBonusChallenge" (contains text payload) false
      (solve_if "localXssChallenge" (contains text iframe) false b)

-- The length of the data, if it is an array.
unfoldable pub verify_close_notifications_challenge : Option ℕ → Board → Board
verify_close_notifications_challenge length b =
    solve_if "closeNotificationsChallenge" (elim length [ none ↦ false | some n ↦ ltb 1 n ]) false b

module _ (o : Orm) (env : Environment) where
  -- What can happen to the board: a check of the program with any criterion, progress that is
  -- restored, the return of an awaited `save()`, in whichever order they return, and the messages of
  -- a socket.
  pub data Change : Board → Board → Type 0 where
    check : (key : String) (criteria : Bool) (b : Board) → Change b (solve_if key criteria false b)
    restore : (key : String) (b : Board) → Change b (solve key true b)
    saved :
        (now : ℕ) (before after : List (String × Bool)) (key : String) (is_restore : Bool)
        (c : Challenge) (b : Board)
        → b.pending ≡ before ++ (key, is_restore) ∷ after
        → challenge_of key b ≡ some c
        → Change b (after_save o env now c is_restore (record b { pending = before ++ after })).1
    received : (text : String) (b : Board) → Change b (notification_received text b)
    local_xss :
        (payload text : String) (b : Board) → Change b (verify_local_xss_challenge payload text b)
    close_notifications :
        (length : Option ℕ) (b : Board) → Change b (verify_close_notifications_challenge length b)

  pub data Step : Hub → Hub → Type 0 where
    connect : (id : String) (h : Hub) → Step h (connection id h)
    change : {b : Board} (h : Hub) → Change h.board b → Step h (record h { board = b })

  pub data Reach (h : Hub) : Hub → Type 0 where
    here : Reach h h
    next : {i j : Hub} → Reach h i → Step i j → Reach h j
