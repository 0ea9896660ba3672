-- ===== src/Tests/Coding.antt =====
-- lib/accuracy.ts, lib/antiCheat.ts and routes/vulnCodeSnippet.ts on concrete inputs.
use runc.Prelude.{
  String, ◌≡◌, refl, ◌↔◌, true, false, ◌||◌, Option, none, some, List, [], ◌∷◌, ◌++◌, arith,
}
use runc.Prelude.Http.{ok}
use runc.Coding.Accuracy.{find_it, fix_it, total_accuracy}
use runc.Coding.Accuracy.Replay.{Event, entry, replay, replay-tally}
use runc.Coding.Accuracy.{store_verdict, tally}
use runc.Coding.AntiCheat.{
  Challenge, Snippet, Snippets, Settings, Score, State, server_start, frac, calculate_cheat_score,
  calculate_find_it_cheat_score, calculate_fix_it_cheat_score, are_coupled, coupled_with,
  is_trivial, latest,
}
use runc.Coding.AntiCheat.Bounds.{IsBounded, IsValid, scores-IsBounded}
use runc.Challenges.{Board, Environment}
use runc.Coding.Snippets.{get_verdict}
use runc.Coding.Snippets.Selection.{Covers, get_verdict_iff}

abbrev log : List Event
log = ("a", find_it, false) ∷ ("b", find_it, true) ∷ ("a", find_it, true) ∷ ("a", fix_it, true) ∷ []

replay-tally_example :
    tally find_it (entry "a" (replay log [])) ≡ record { solved = true; attempts = 2 }
replay-tally_example = replay-tally "a" find_it log

abbrev settings : Settings
settings = record { show_hints = true; hacking_instructor = false }

abbrev challenge : Challenge
challenge = record { key = "loginAdminChallenge"; difficulty = 2; tutorial_order = none }

abbrev snippet : Snippet
snippet = record { text = "code"; chars = 4; vuln_lines = 2 ∷ 3 ∷ []; neutral_lines = 5 ∷ [] }

abbrev codes : Snippets
codes = ("loginAdminChallenge", snippet) ∷ []

abbrev history : State
history = record {
  solves =
      record {
        key = some "weakPasswordChallenge";
        step = server_start;
        timestamp = 1000;
        score = frac 0 1;
      }
      ∷ [];
  interactions = [];
}

scores-IsBounded_example :
    (IsBounded (calculate_cheat_score settings 61000 challenge history).0
      × IsValid (calculate_cheat_score settings 61000 challenge history).1)
    × (IsBounded (calculate_fix_it_cheat_score 61000 challenge 3 history).0
        × IsValid (calculate_fix_it_cheat_score 61000 challenge 3 history).1)
    × ((score : Score) × ((calculate_find_it_cheat_score settings 61000 challenge
            (ok codes)
            history).0
          ≡ ok score)
        × IsBounded score
        × IsValid (calculate_find_it_cheat_score settings 61000 challenge (ok codes) history).1)
scores-IsBounded_example =
    scores-IsBounded settings 61000 3 challenge codes history ((omega arith, omega arith), tt)
      (omega arith)

coupled : (are_coupled challenge.key (latest history.solves).key || is_trivial challenge.key) ≡ true
unfolding are_coupled coupled_with
coupled = refl

get_verdict_iff_example :
    (get_verdict (2 ∷ 3 ∷ []) (5 ∷ []) (some (3 ∷ 5 ∷ 2 ∷ [])) ≡ true)
    ↔ (Covers (3 ∷ 5 ∷ 2 ∷ []) (2 ∷ 3 ∷ []) × Covers ((2 ∷ 3 ∷ []) ++ (5 ∷ [])) (3 ∷ 5 ∷ 2 ∷ []))
get_verdict_iff_example = get_verdict_iff (2 ∷ 3 ∷ []) (5 ∷ []) (3 ∷ 5 ∷ 2 ∷ []) (refl, (refl, tt))

total_of_log : total_accuracy find_it (replay log []) ≡ some (record { num = 3; den = 4 })
unfolding total_accuracy replay store_verdict
total_of_log = refl

abbrev environment : Environment
environment = record {
  settings = settings;
  show_solved_notifications = true;
  coding_challenges_enabled = true;
  has_io = true;
  has_webhook = false;
  ctf_flag = λ t. t;
  plain_text = λ t. t;
}

abbrev board : Board
board = record {
  challenges = [];
  rows = [];
  pending = [];
  notifications = [];
  emitted = [];
  coding_emitted = [];
  reports = [];
  hints = [];
  accuracy = [];
  anti_cheat = history;
}

abbrev hint_texts : Option (List String)
hint_texts = some ("look at the query" ∷ [])

misses : get_verdict (2 ∷ 3 ∷ []) (5 ∷ []) (some (2 ∷ [])) ≡ false
unfolding get_verdict
misses = refl
