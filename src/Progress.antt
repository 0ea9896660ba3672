-- ===== src/Progress.antt =====
-- routes/continueCode.ts and routes/restoreProgress.ts of test-container/rootfs/juice-shop: the
-- solved challenges as a code, and back. Hashids is a parameter, once for each of its three salts.
pub mod Restoring
use Prim.Native.Char.{code}
use runc.Prelude.{
  ℕ, String, ◌≡◌, Bool, true, false, not, ◌&&◌, ◌||◌, Option, none, some, List, [], ◌∷◌, map, ltb,
  leb, ◌===◌, if◌then◌else◌, length, includes,
}
use runc.Prelude.Http.{Outcome, ok, thrown, Action, pure, await, ◌>>=◌, ◌>>◌, Reply, send, refuse}
use runc.Database.{Orm}
use runc.Coding.AntiCheat.{Snippets}
use runc.Challenges.{
  Challenge, Board, Environment, challenge_of, not_solved, solve, solve_find_it, solve_fix_it,
}

unfoldable pub is_alnum : ℕ → Bool
is_alnum c = leb b'a' c && leb c b'z' || (leb b'A' c && leb c b'Z' || leb b'0' c && leb c b'9')

unfoldable pub all_alnum : String → Bool
all_alnum String.[] = true
all_alnum (String.◌∷◌ c s) = is_alnum (code c) && all_alnum s

-- `hashidRegexp.test(s)`, of /^[a-zA-Z0-9]+$/
unfoldable pub is_hashid : String → Bool
unfolding all_alnum is_alnum
is_hashid s = not (s === "") && all_alnum s

-- The package: a code of some numbers is letters and digits, and decodes to the numbers.
pub record Hashids : Type 0 where
  pub encode : List ℕ → String
  pub decode : String → List ℕ
  pub decode-encode : (n : ℕ) (ns : List ℕ) → decode (encode (n ∷ ns)) ≡ n ∷ ns
  pub encode-is_hashid : (n : ℕ) (ns : List ℕ) → is_hashid (encode (n ∷ ns)) ≡ true

abbrev pub solved_ids : List Challenge → List ℕ
solved_ids [] = []
solved_ids (c ∷ cs) = if c.solved then c.id ∷ solved_ids cs else solved_ids cs

-- `ids.length > 0 ? hashids.encode(ids) : undefined`
abbrev pub encode_some : Hashids → List ℕ → Option String
encode_some h [] = none
encode_some h (n ∷ ns) = some (h.encode (n ∷ ns))

unfoldable pub continue_code : Hashids → Board → Option String
continue_code h b = encode_some h (solved_ids b.challenges)

-- `continueCodeFindIt` with `least` 1, `continueCodeFixIt` with 2.
unfoldable pub continue_code_phase : Orm → Hashids → ℕ → Action Board (Option String)
continue_code_phase o h least = do
  cs ← await (λ b. o.find_all (λ (c : Challenge). leb least c.coding_challenge_status) b.rows)
  pure (encode_some h (map (λ (c : Challenge). c.id) cs))

-- The loop of `restoreProgress` over `Object.values(challenges)`.
unfoldable pub restore_each : List ℕ → List Challenge → Board → Board
restore_each ids [] b = b
restore_each ids (c ∷ cs) b =
    restore_each ids cs (if includes ids c.id then solve c.key true b else b)

pub data Restored : Type 0 where
  ended : Restored
  restored : ℕ → Restored

unfoldable pub restore_progress : Hashids → String → Board → Reply Restored × Board
restore_progress h continue_code b =
    if not (is_hashid continue_code)
    then (refuse 404 "Invalid continue code.", b)
    else let ids = h.decode continue_code in
      if not_solved (challenge_of "continueCodeChallenge" b) && includes ids 999
      then (send 200 ended, solve "continueCodeChallenge" false b)
      else if ltb 0 (length ids)
      then (send 200 (restored (length ids)), restore_each ids b.challenges b)
      else (refuse 404 "Invalid continue code.", b)

module _ (o : Orm) (env : Environment) where
  -- The loops of `restoreProgressFindIt` and `restoreProgressFixIt`, each round awaited.
  unfoldable pub restore_each_phase :
      (String → Action Board (Unit {0})) → List ℕ → List Challenge → Action Board (Unit {0})
  restore_each_phase solve_phase ids [] b = (ok tt, b)
  restore_each_phase solve_phase ids (c ∷ cs) b =
      let (r, b') = (if includes ids c.id then solve_phase c.key else pure tt) b in
      elim r [ ok _ ↦ restore_each_phase solve_phase ids cs b' | thrown e ↦ (thrown e, b') ]

  abbrev pub restore_phase :
      (String → Action Board (Unit {0})) → Hashids → String → Action Board (Reply Restored)
  restore_phase solve_phase h continue_code b =
      if not (is_hashid continue_code)
      then (ok (refuse 404 "Invalid continue code."), b)
      else if ltb 0 (length (h.decode continue_code))
      then (do
        restore_each_phase solve_phase (h.decode continue_code) b.challenges
        pure (send 200 (restored (length (h.decode continue_code)))))
          b
      else (ok (refuse 404 "Invalid continue code."), b)

  unfoldable pub restore_progress_find_it :
      ℕ → Outcome Snippets → Hashids → String → Action Board (Reply Restored)
  unfolding restore_each_phase
  restore_progress_find_it now codes = restore_phase (λ key. solve_find_it o env now codes key true)

  unfoldable pub restore_progress_fix_it : ℕ → Hashids → String → Action Board (Reply Restored)
  unfolding restore_each_phase
  restore_progress_fix_it now = restore_phase (λ key. solve_fix_it o env now 0 key true)
