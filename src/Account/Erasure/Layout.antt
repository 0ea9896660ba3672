-- ===== src/Account/Erasure/Layout.antt =====
-- What a request to erase data can read of a file.
use Prim.Native.String
use Prim.Native.String.append
use runc.Prelude.{
  ℕ, zero, suc, ◌+◌, ◌≤◌, String, ◌≡◌, refl, sym, ap, ◌∙◌, ◌≢◌, inl, inr, Bool, true, false, Option,
  none, some, List, [], ◌∷◌, ◌++◌, arith, ◌===◌, ===_iff, if◌then◌else◌, absurd_test, Bool-cases,
}
use runc.Prelude.Http.{Outcome, ok, thrown}
use runc.Database.{Orm}
use runc.Account.Erasure.{
  PrivacyRequest, Erasure, Body, Rendered, next_error, page, is_forbidden_file, slice, truthy,
  respond, erasure_page, created, request_of, post,
}

abbrev pub characters : String → ℕ
characters String.[] = 0
characters (String.◌∷◌ c s) = suc (characters s)

slice_bound : (n : ℕ) (s : String) → characters (slice n s) ≤ n
unfolding slice
slice_bound zero s = omega arith
slice_bound (suc n) String.[] = omega arith
slice_bound (suc n) (String.◌∷◌ c s) = omega (arith, slice_bound n s)

characters-append : (s t : String) → characters (String.◌++◌ s t) ≡ characters s + characters t
characters-append String.[] t = rw (append.nil t) (omega arith)
characters-append (String.◌∷◌ c s) t = rw (append.cons c s t) (omega (arith, characters-append s t))

module _ (e : Orm) (resolved : String → String) (render : Body → Rendered) where
  -- The page is part of what the template gave for a layout whose file is allowed.
  abbrev pub IsAllowed : Body → String → Type 0
  IsAllowed body text =
      (layout : String) × (body.layout ≡ some layout)
      × (layout ≢ "")
      × (is_forbidden_file (resolved layout) ≡ false)
      × ((html : String) × ((render body).html ≡ some html)
          × ((render body).error ≡ none)
          × (text ≡ String.◌++◌ (slice 100 html) "......"))

  truthy-some : (o : Option String) (s : String) → truthy o ≡ some s → (o ≡ some s) × (s ≢ "")
  truthy-some none s h = absurd (cc)
  truthy-some (some t) s h = by_test (t === "") refl h
    where
      by_test :
          (b : Bool)
          → (t === "") ≡ b
          → (if b then none else some t) ≡ some s
          → (some t ≡ some s) × (s ≢ "")
      by_test true k g = absurd (cc)
      by_test false k g =
          let q : t ≡ s = cc in (g, λ x. absurd_test (sym k ∙ (===_iff t "").1 (q ∙ x)))

  responded :
      (error html : Option String) (s : Erasure) (text : String)
      → (respond error html s).0 ≡ page text
      → (h : String) × (html ≡ some h)
        × (error ≡ none)
        × (text ≡ String.◌++◌ (slice 100 h) "......")
  responded none none s text q = absurd (cc)
  responded (some m) none s text q = absurd (cc)
  responded (some m) (some h) s text q = absurd (cc)
  responded none (some h) s text q =
      (h, refl, refl, (let g : String.◌++◌ (slice 100 h) "......" ≡ text = cc in sym g))

  paged :
      (body : Body) (o : Option String) (s : Erasure) (text : String)
      → truthy body.layout ≡ o
      → (erasure_page e resolved render body o s).0 ≡ page text
      → IsAllowed body text
  unfolding erasure_page
  paged body none s text k q = absurd (cc)
  paged body (some layout) s text k q = by_test (is_forbidden_file (resolved layout)) refl q
    where
      by_test :
          (b : Bool)
          → is_forbidden_file (resolved layout) ≡ b
          → (if b
              then (next_error "File access not allowed", s)
              else respond (render body).error (truthy (render body).html) s).0
            ≡ page text
          → IsAllowed body text
      by_test true f g = absurd (cc)
      by_test false f g =
          let (l, n) = truthy-some body.layout layout k in
          let (h, x, y, z) = responded (render body).error (truthy (render body).html) s text g in
          let (a, _) = truthy-some (render body).html h x in (layout, l, n, f, (h, a, y, z))

  respond_keeps :
      (error html : Option String) (s : Erasure) → (respond error html s).1.requests ≡ s.requests
  respond_keeps none none s = refl
  respond_keeps (some m) none s = refl
  respond_keeps (some m) (some h) s = refl
  respond_keeps none (some h) s = refl

  page_keeps :
      (body : Body) (o : Option String) (s : Erasure)
      → (erasure_page e resolved render body o s).1.requests ≡ s.requests
  unfolding erasure_page
  page_keeps body none s = refl
  page_keeps body (some layout) s = elim (Bool-cases (is_forbidden_file (resolved layout))) [
    | inl f ↦ rw f refl
    | inr f ↦ rw f (respond_keeps (render body).error (truthy (render body).html) s)
  ]

  short : (body : Body) (text : String) → IsAllowed body text → characters text ≤ 106
  short body text (l, a, b, c, (h, x, y, z)) =
      rw (z, characters-append (slice 100 h) "......") (omega (arith, slice_bound 100 h))

  post_created :
      (u : ℕ) (body : Body) (s : Erasure) (text : String)
      (o : Outcome (PrivacyRequest × List PrivacyRequest))
      → e.create (request_of u) s.requests ≡ o
      → (created e resolved render body s o).answer ≡ page text
      → ((id : ℕ) × ((created e resolved render body s o).state.requests
            ≡ s.requests ++ request_of u id ∷ []))
        × ((created e resolved render body s o).cleared ≡ true)
        × IsAllowed body text
  post_created u body s text (thrown x) k q = absurd (cc)
  post_created u body s text (ok (r, requests)) k q =
      let ((id, r-eq), t-eq) = e.create_lem (request_of u) s.requests requests r k in
      let s' = record s { requests = requests } in
      (
        (
          id,
          page_keeps body (truthy body.layout) s'
              ∙ t-eq
              ∙ ap (λ (row : PrivacyRequest). s.requests ++ row ∷ []) r-eq,
        ),
        refl,
        paged body (truthy body.layout) s' text refl q,
      )

  -- A page with a file in it is answered only to a signed-in user, after the request was stored and
  -- the cookie cleared, for a layout whose path names none of the forbidden files, and it shows at
  -- most a hundred characters of what the template gave, and six dots.
  pub post-IsAllowed :
      (user : Option ℕ) (remote : String) (body : Body) (s : Erasure) (text : String)
      → (post e resolved render user remote body s).answer ≡ page text
      → ((u : ℕ) × (id : ℕ) × (user ≡ some u)
          × ((post e resolved render user remote body s).state.requests
              ≡ s.requests ++ request_of u id ∷ []))
        × ((post e resolved render user remote body s).cleared ≡ true)
        × IsAllowed body text
        × (characters text ≤ 106)
  unfolding post
  post-IsAllowed none remote body s text q = absurd (cc)
  post-IsAllowed (some u) remote body s text q =
      let ((id, r), c, a) =
        post_created u body s text (e.create (request_of u) s.requests) refl q in
      ((u, id, refl, r), c, a, short body text a)
