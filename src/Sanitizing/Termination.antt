-- ===== src/Sanitizing/Termination.antt =====
-- lib/insecurity.ts: when `sanitizeSecure` returns, and what it returns.
use runc.Prelude.{
  ℕ, zero, suc, ◌<◌, String, ◌≡◌, ◌↔◌, refl, sym, inl, inr, false, some, arith, ◌===◌, ===_iff,
  Bool-cases,
}
use runc.Challenges.{Board}
use runc.Challenges.Enabled.{SafetyMode, Surroundings}
use runc.Sanitizing.{is_enabled, sanitize_secure, set_comment, set_description, set_email}

-- Sanitizing changes nothing more.
abbrev pub IsClean : (String → String) → String → Type 0
IsClean sanitize_html html = sanitize_html html ≡ html

abbrev pub times : (String → String) → ℕ → String → String
times f zero html = html
times f (suc n) html = times f n (f html)

-- The text is what sanitizing so many times makes of the given one, it is clean, and what fewer
-- times make of it is not.
abbrev pub IsFirstClean : (String → String) → String → ℕ → String → Type 0
IsFirstClean f html k clean =
    (clean ≡ times f k html) × IsClean f clean × ((j : ℕ) → j < k → ¬ IsClean f (times f j html))

module _ (sanitize_html : String → String) where
  found-IsFirstClean :
      (n : ℕ) (html clean : String)
      → sanitize_secure sanitize_html n html ≡ some clean
      → (k : ℕ) × (k < n) × IsFirstClean sanitize_html html k clean
  unfolding sanitize_secure
  found-IsFirstClean zero html clean h = absurd (cc)
  found-IsFirstClean (suc n) html clean h = elim (Bool-cases (sanitize_html html === html)) [
    | inl on ↦
        let e : some html ≡ some clean = rw on at h in
        let same : html ≡ clean = ground arith in
        let c : IsClean sanitize_html html = (===_iff (sanitize_html html) html).0 on in
        (0, omega arith, (sym same, rw (← same) c, λ j less. absurd (omega (arith, less))))
    | inr off ↦
        let (k, less, (e, c, first)) =
          found-IsFirstClean n (sanitize_html html) clean (rw off at h) in
        (suc k, omega (arith, less), (e, c, earlier k off first))
  ]
    where
      earlier :
          (k : ℕ)
          → (sanitize_html html === html) ≡ false
          → ((j : ℕ) → j < k → ¬ IsClean sanitize_html (times sanitize_html j (sanitize_html html)))
          → (j : ℕ) → j < suc k
          → ¬ IsClean sanitize_html (times sanitize_html j html)
      earlier k off first zero less c =
          let on = (===_iff (sanitize_html html) html).1 c in ground arith
      earlier k off first (suc j) less c = first j (omega (arith, less)) c

  first-found :
      (n k : ℕ) (html clean : String)
      → k < n
      → IsFirstClean sanitize_html html k clean
      → sanitize_secure sanitize_html n html ≡ some clean
  unfolding sanitize_secure
  first-found zero k html clean less h = absurd (omega (arith, less))
  first-found (suc n) zero html clean less (e, c, first) =
      let same : sanitize_html html ≡ html = rw e at c in
      let on = (===_iff (sanitize_html html) html).1 same in rw on (rw e refl)
  first-found (suc n) (suc k) html clean less (e, c, first) =
      elim (Bool-cases (sanitize_html html === html)) [
        | inl on ↦ absurd (first 0 (omega arith) ((===_iff (sanitize_html html) html).0 on))
        | inr off ↦ rw off (
            first-found n k (sanitize_html html) clean (omega (arith, less))
              (e, c, λ j l. first (suc j) (omega (arith, l))))
      ]

  -- Within a number of calls `sanitizeSecure` returns a text exactly when sanitizing again and
  -- again, fewer times than that, reaches a text that it leaves as it is, and then the text
  -- returned is the first such one. Nothing is assumed of sanitize-html, so the function returns on
  -- a text exactly if sanitizing it again and again comes to rest.
  pub sanitize_secure_iff :
      (n : ℕ) (html clean : String)
      → (sanitize_secure sanitize_html n html ≡ some clean)
        ↔ ((k : ℕ) × (k < n) × IsFirstClean sanitize_html html k clean)
  sanitize_secure_iff n html clean =
      (found-IsFirstClean n html clean, λ (k, less, h). first-found n k html clean less h)

  -- A comment, a description or an email whose challenge is not enabled is stored as the first
  -- clean text that sanitizing it leads to, if it does, with enough fuel, and no challenge changes.
  pub setters-IsClean :
      (mode : SafetyMode) (at : Surroundings) (n k : ℕ) (html clean : String) (b : Board)
      → k < n
      → IsFirstClean sanitize_html html k clean
      → is_enabled mode at "persistedXssFeedbackChallenge" b ≡ false
      → is_enabled mode at "restfulXssChallenge" b ≡ false
      → is_enabled mode at "persistedXssUserChallenge" b ≡ false
      → (set_comment sanitize_html mode at n html b ≡ (some clean, b))
        × (set_description sanitize_html mode at n html b ≡ (some clean, b))
        × (set_email sanitize_html mode at n html b ≡ (some clean, b))
  unfolding set_comment set_description set_email
  setters-IsClean mode at n k html clean b less first f d u =
      let e = first-found n k html clean less first in
      (rw (f, e) refl, rw (d, e) refl, rw (u, e) refl)
