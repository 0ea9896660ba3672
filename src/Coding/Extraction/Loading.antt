-- ===== src/Coding/Extraction/Loading.antt =====
-- `getCodeChallenges` (lib/codingChallenges.ts) under calls that come before, during and after the
-- search for files.
use runc.Prelude.{ℕ, zero, suc, String, ◌≡◌, refl, ap, ◌∙◌, none, some, List, []}
use runc.Prelude.Http.{Outcome, ok, thrown}
use runc.Coding.Extraction.{
  FileMatch, CodeChallenges, Cache, call, resume, fill, result_of, or_empty,
}

-- The cache after some more calls.
abbrev pub called_again : ℕ → Cache → Cache
called_again zero c = c
called_again (suc n) c = called_again n (call c).1

calls_keep : (n : ℕ) (m : CodeChallenges) → called_again n (some m) ≡ some m
unfolding call
calls_keep zero m = refl
calls_keep (suc n) m = calls_keep n m

loaded : (r : Outcome (Unit {0}) × CodeChallenges) → (result_of r).1 ≡ some r.1
loaded (ok u, n) = refl
loaded (thrown e, n) = refl

later_call :
    (n : ℕ) (c : Cache) (m : CodeChallenges) → c ≡ some m → (call (called_again n c)).0 ≡ some m
unfolding call
later_call n c m e =
    ap (λ (x : Cache). (call (called_again n x)).0) e
    ∙ ap (λ (x : Cache). (call x).0) (calls_keep n m)

module _ (extract : FileMatch → Outcome CodeChallenges) where
  -- The first call searches for files. Every call until the search has ended gets the empty map; if
  -- the search succeeds, every later call gets the map as far as it was filled; and if it fails,
  -- every later call gets the empty map, and no call searches again.
  pub get_code_challenges_lem :
      (during after : ℕ) (found : Outcome (List FileMatch))
      → (let waiting = called_again during (call none).1 in
          let done = called_again after (resume extract found waiting).1 in
          ((call none).0 ≡ none)
          × ((call waiting).0 ≡ some [])
          × ((files : List FileMatch)
              → found ≡ ok files
              → (call done).0 ≡ some (fill extract files []).1)
          × ((e : String) → found ≡ thrown e → (call done).0 ≡ some []))
  unfolding call resume
  get_code_challenges_lem during after found = (
    refl,
    later_call during (some []) [] refl,
    (λ files e.
        later_call after (resume extract found (called_again during (some []))).1
          (fill extract files []).1
          (ap (λ o. (resume extract o (called_again during (some []))).1) e
            ∙ loaded (fill extract files (or_empty (called_again during (some []))))
            ∙ ap (λ (x : Cache). some (fill extract files (or_empty x)).1) (calls_keep during []))),
    (λ x e.
        later_call after (resume extract found (called_again during (some []))).1 [] (
          ap (λ o. (resume extract o (called_again during (some []))).1) e ∙ calls_keep during [])),
  )
