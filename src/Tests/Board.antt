-- ===== src/Tests/Board.antt =====
-- lib/challengeUtils.ts, lib/utils.ts, lib/startup/registerWebsocketEvents.ts and
-- routes/restoreProgress.ts on concrete inputs.
use runc.Prelude.{
  ℕ, zero, suc, ◌+◌, count, String, ◌≡◌, refl, Bool, true, false, none, some, List, [], ◌∷◌, arith,
  ◌==◌, ◌===◌, if◌then◌else◌,
}
use Prim.Native.Char.{code as code_of}
use runc.Prelude.Texts.{cons-ne-empty}
use runc.Coding.AntiCheat.{server_start, frac}
use runc.Database.{list_orm}
use runc.Challenges.{
  Challenge, Board, Environment, challenge_of, solve, solve_if, after_save, send_notification,
}
use runc.Challenges.Solving.{is_solved}
use runc.Challenges.Sockets.{Hub, connection, without_flag, notification_received}
use runc.Challenges.Sockets.Once.{announced}
use runc.Challenges.Enabled.{Surroundings}
use runc.Progress.{Hashids, is_hashid, is_alnum, all_alnum, continue_code, restore_progress}
use runc.Progress.Restoring.{restore_progress-continue_code}

abbrev challenge : ℕ → String → Bool → Challenge
challenge id key solved = record {
  id = id;
  key = key;
  name = key;
  description = "";
  difficulty = 1;
  solved = solved;
  coding_challenge_status = 1;
  has_coding_challenge = true;
  disabled_env = some "Docker";
  tutorial_order = none;
}

abbrev board : Bool → Board
board solved = record {
  challenges = challenge 1 "a" solved ∷ challenge 2 "b" false ∷ [];
  rows = challenge 1 "a" solved ∷ challenge 2 "b" false ∷ [];
  pending = [];
  notifications = [];
  emitted = [];
  coding_emitted = [];
  reports = [];
  hints = [];
  accuracy = [];
  anti_cheat = record {
    solves = record { key = none; step = server_start; timestamp = 0; score = frac 0 1 } ∷ [];
    interactions = [];
  };
}

abbrev pub environment : Environment
environment = record {
  settings = record { show_hints = true; hacking_instructor = false };
  show_solved_notifications = true;
  coding_challenges_enabled = true;
  has_io = true;
  has_webhook = false;
  ctf_flag = λ t. t;
  plain_text = λ t. t;
}

-- The challenge is solved, its save returns, a client has received the notification, a check
-- follows that finds the challenge solved, and a socket connects.
abbrev start : Hub
start = record { board = board false; first_connected_socket = none; started = []; delivered = [] }

abbrev solved_a : Board
solved_a = solve_if "a" true false (board false)

abbrev saved_a : Board
saved_a =
    (after_save list_orm environment 5 (challenge 1 "a" true) false
      (record solved_a { pending = [] })).1

abbrev received_a : Board
received_a = notification_received "a" saved_a

abbrev at_the_end : Hub
at_the_end = connection "s" (record start { board = solve_if "a" true false received_a })

one_message : count (announced "a") at_the_end.board.emitted ≡ 1
unfolding solve_if solve after_save send_notification connection notification_received without_flag
one_message = refl

abbrev container : Surroundings
container = record { is_docker = true; is_heroku = false; is_windows = false; is_gitpod = false }

-- A code for lists of numbers: each number in unary and closed by a letter.
unary : ℕ → String → String
unary zero s = String.◌∷◌ "a" s
unary (suc n) s = String.◌∷◌ "1" (unary n s)

encode_unary : List ℕ → String
encode_unary [] = String.[]
encode_unary (n ∷ ns) = unary n (encode_unary ns)

decode_unary : ℕ → String → List ℕ
decode_unary n String.[] = []
decode_unary n (String.◌∷◌ c s) =
    let closed = decode_unary 0 s in
    let more = decode_unary (suc n) s in if code_of c == b'a' then n ∷ closed else more

decode-unary : (m n : ℕ) (s : String) → decode_unary m (unary n s) ≡ (m + n) ∷ decode_unary 0 s
unfolding decode_unary unary
decode-unary m zero s = ground arith
decode-unary m (suc n) s = ground (arith, decode-unary (suc m) n s)

decode-encode_unary : (ns : List ℕ) → decode_unary 0 (encode_unary ns) ≡ ns
unfolding encode_unary
decode-encode_unary [] = unfold decode_unary in refl
decode-encode_unary (n ∷ ns) =
    let first = decode-unary 0 n (encode_unary ns) in
    let rest = decode-encode_unary ns in ground arith

unary-alnum : (n : ℕ) (s : String) → all_alnum s ≡ true → all_alnum (unary n s) ≡ true
unfolding unary all_alnum is_alnum
unary-alnum zero s h = h
unary-alnum (suc n) s h = unary-alnum n s h

encode_unary-alnum : (ns : List ℕ) → all_alnum (encode_unary ns) ≡ true
unfolding encode_unary
encode_unary-alnum [] = unfold all_alnum in refl
encode_unary-alnum (n ∷ ns) = unary-alnum n (encode_unary ns) (encode_unary-alnum ns)

unary-ne-empty : (n : ℕ) (s : String) → (unary n s === "") ≡ false
unfolding unary
unary-ne-empty zero s = cons-ne-empty "a" s
unary-ne-empty (suc n) s = cons-ne-empty "1" (unary n s)

unary-is_hashid : (n : ℕ) (ns : List ℕ) → is_hashid (encode_unary (n ∷ ns)) ≡ true
unfolding is_hashid encode_unary
unary-is_hashid n ns = rw (unary-ne-empty n (encode_unary ns)) (encode_unary-alnum (n ∷ ns))

abbrev unary_hashids : Hashids
unary_hashids = record {
  encode = encode_unary;
  decode = decode_unary 0;
  decode-encode = λ n ns. decode-encode_unary (n ∷ ns);
  encode-is_hashid = unary-is_hashid;
}

made : continue_code unary_hashids (board true) ≡ some (encode_unary (1 ∷ []))
unfolding continue_code
made = refl

restore_progress-continue_code_example :
    is_solved
      (challenge_of "a" (restore_progress unary_hashids (encode_unary (1 ∷ [])) (board false)).1)
    ≡ true
restore_progress-continue_code_example =
    restore_progress-continue_code unary_hashids (board true) (board false) made refl "a"
      (challenge 1 "a" true) (challenge 1 "a" false) refl refl refl refl
