-- ===== src/Files/Redirecting.antt =====
-- routes/redirect.ts: where a redirect leads.
use runc.Prelude.{
  String, ◌≡◌, refl, sym, ap, ◌∙◌, ◌↔◌, inl, inr, Bool, true, false, not, ◌&&◌, ◌||◌, List, [], ◌∷◌,
  arith, ◌===◌, Bool-cases, any, All,
}
use runc.Prelude.Http.{ok, send}
use runc.Prelude.Texts.{starts_with, contains, starts-contains}
use runc.Challenges.{Board}
use runc.Files.{
  redirect_allowlist, allowed_by, unintended_by, is_redirect_allowed, is_unintended_redirect,
  perform_redirect,
}

allowed-any :
    (as' : List String) (url : String) (a : Bool)
    → allowed_by as' url a ≡ (a || any (λ x. contains url x) as')
allowed-any [] url a = ground arith
allowed-any (x ∷ as') url a = allowed-any as' url (a || contains url x) ∙ ground arith

unintended-any :
    (as' : List String) (url : String) (u : Bool)
    → unintended_by as' url u ≡ (u && not (any (λ x. starts_with url x) as'))
unintended-any [] url u = ground arith
unintended-any (x ∷ as') url u =
    unintended-any as' url (u && not (starts_with url x)) ∙ ground arith

starts→contains :
    (url a : String) → starts_with url a ≡ true → (a === "") ≡ false → contains url a ≡ true
unfolding contains starts_with
starts→contains String.[] String.[] h n = cc
starts→contains String.[] (String.◌∷◌ d a) h n = cc
starts→contains (String.◌∷◌ c url) a h n = starts-contains c url a h

any_starts→any_contains :
    (as' : List String) (url : String)
    → All (λ a. (a === "") ≡ false) as'
    → any (λ a. starts_with url a) as' ≡ true
    → any (λ a. contains url a) as' ≡ true
any_starts→any_contains [] url h k = cc
any_starts→any_contains (a ∷ as') url (h, hs) k = elim (Bool-cases (starts_with url a)) [
  | inl m ↦ let n = starts→contains url a m h in ground arith
  | inr m ↦ let n = any_starts→any_contains as' url hs (ground arith) in ground arith
]

is_allowed_iff :
    (url : String)
    → (is_redirect_allowed url ≡ true) ↔ (any (λ a. contains url a) redirect_allowlist ≡ true)
unfolding is_redirect_allowed
is_allowed_iff url =
    let p = allowed-any redirect_allowlist url false in (λ h. sym p ∙ h, λ h. p ∙ h)

is_intended_iff :
    (url : String)
    → (is_unintended_redirect url ≡ false)
      ↔ (any (λ a. starts_with url a) redirect_allowlist ≡ true)
unfolding is_unintended_redirect
is_intended_iff url =
    let p = unintended-any redirect_allowlist url true in
    (λ h. not_false _ (sym p ∙ h), λ h. p ∙ ap not h)
  where
    not_false : (b : Bool) → not b ≡ false → b ≡ true
    not_false true h = refl
    not_false false h = sym h

redirected_iff :
    (url : String) (b : Board)
    → ((perform_redirect url b).0 ≡ ok (send 302 url)) ↔ (is_redirect_allowed url ≡ true)
unfolding perform_redirect
redirected_iff url b = elim (Bool-cases (is_redirect_allowed url)) [
  | inl h ↦ rw h (λ _. refl, λ _. refl)
  | inr h ↦ rw h (λ k. ground arith, λ k. cc)
]

-- A redirect is performed exactly when the target contains an allowlisted URL, wherever it stands.
pub perform_redirect_iff :
    (url : String) (b : Board)
    → ((perform_redirect url b).0 ≡ ok (send 302 url))
      ↔ (any (λ a. contains url a) redirect_allowlist ≡ true)
perform_redirect_iff url b =
    let (p, q) = redirected_iff url b in
    let (r, s) = is_allowed_iff url in (λ h. r (p h), λ h. q (s h))

-- A target that does not count as unintended is redirected to, and starts with an allowlisted URL.
pub perform_redirect_intended :
    (url : String) (b : Board)
    → is_unintended_redirect url ≡ false
    → ((perform_redirect url b).0 ≡ ok (send 302 url))
      × (any (λ a. starts_with url a) redirect_allowlist ≡ true)
perform_redirect_intended url b h =
    let starts = (is_intended_iff url).0 h in
    let contained =
      any_starts→any_contains redirect_allowlist url
        (refl, (refl, (refl, (refl, (refl, (refl, (refl, (refl, tt)))))))) starts in
    ((perform_redirect_iff url b).1 contained, starts)
