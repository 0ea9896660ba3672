-- ===== src/Account/Profile/Legacy.antt =====
-- `sanitizeLegacy` of lib/insecurity.ts: a round for each character is enough.
use Prim.Native.Char.{code}
use runc.Prelude.{
  ℕ, zero, suc, ◌≤◌, ◌<◌, String, ◌≡◌, refl, inl, inr, some, arith, Bool-cases, Option-cases,
}
use runc.Account.Profile.{
  is_word, Progress, opened, word, gap, match_from, sanitize_legacy_on, characters, sanitize_legacy,
}

-- What is left behind a match is shorter.
match_shrinks :
    (p : Progress) (s t : String) → match_from p s ≡ some t → characters t < characters s
unfolding match_from
match_shrinks p String.[] t h = absurd (cc)
match_shrinks opened (String.◌∷◌ c s) t h = ground (arith, match_shrinks word s t)
match_shrinks word (String.◌∷◌ c s) t h =
    ground (arith, match_shrinks word s t, match_shrinks gap s t)
match_shrinks gap (String.◌∷◌ c s) t h = elim (Bool-cases (is_word (code c))) [
  | inl k ↦ let g : some s ≡ some t = rw k at h in let e : s ≡ t = cc in rw (← e) (omega arith)
  | inr k ↦ let g = match_shrinks gap s t (rw k at h) in omega (arith, g)
]

enough :
    (m n : ℕ) (s : String)
    → characters s ≤ m
    → characters s ≤ n
    → sanitize_legacy_on m s ≡ sanitize_legacy_on n s
unfolding sanitize_legacy_on
enough zero zero s a b = refl
enough zero (suc n) String.[] a b = refl
enough zero (suc n) (String.◌∷◌ c s) a b = absurd (omega arith)
enough (suc m) zero String.[] a b = refl
enough (suc m) zero (String.◌∷◌ c s) a b = absurd (omega arith)
enough (suc m) (suc n) String.[] a b = refl
enough (suc m) (suc n) (String.◌∷◌ c s) a b =
    let kept = enough m n s (omega arith) (omega arith) in
    elim (Option-cases (match_from opened s)) [
      | inl none_there ↦ rw none_there (ground (arith, kept))
      | inr (t, e) ↦
          let shorter = match_shrinks opened s t e in
          let rest = enough m n t (omega arith) (omega arith) in rw e (ground (arith, kept, rest))
    ]

-- However many rounds more than the text has characters, the result is the same.
pub sanitize_legacy_enough :
    (n : ℕ) (s : String) → characters s ≤ n → sanitize_legacy_on n s ≡ sanitize_legacy s
unfolding sanitize_legacy
sanitize_legacy_enough n s h = enough n (characters s) s h (omega arith)
