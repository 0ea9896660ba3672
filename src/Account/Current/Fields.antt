-- ===== src/Account/Current/Fields.antt =====
-- Which fields of the signed-in user an answer shows.
use mathlib.Core.List.{Memᴰ}
use runc.Prelude.{
  String, ◌≡◌, refl, sym, ap, ◌∙◌, ◌≢◌, ◌⊎◌, inl, inr, Bool, true, false, ◌||◌, Option, none, some,
  List, [], ◌∷◌, ◌===◌, ===_iff, if◌then◌else◌, Bool-cases,
}
use runc.Prelude.Members.{includes_text, includes_text_iff}
use runc.Account.Current.{
  Data, field, requested_fields, standard_fields, add_field, pick, or_standard, data_of, base_user,
}

-- What is picked of a field is its value, if it was asked for.
field-pick :
    (d : Data) (fs : List String) (f : String)
    → field f (pick d fs) ≡ (if includes_text fs f then field f d else none)
field-pick d [] f = refl
field-pick d (g ∷ fs) f = by_value (field g d) refl (field-pick d fs f)
  where
    either : (b : Bool) → field f d ≡ none → (if b then field f d else none) ≡ none
    either true n = n
    either false n = refl

    by_value :
        (o : Option String)
        → field g d ≡ o
        → field f (pick d fs) ≡ (if includes_text fs f then field f d else none)
        → field f (add_field g o (pick d fs))
          ≡ (if g === f || includes_text fs f then field f d else none)
    by_value none e ih = elim (Bool-cases (g === f)) [
      | inl k ↦
          let gf : g ≡ f = (===_iff g f).0 k in
          let nothing : field f d ≡ none = ap (λ h. field h d) (sym gf) ∙ e in
          ih ∙ either (includes_text fs f) nothing ∙ rw k (sym nothing)
      | inr k ↦ rw k ih
    ]
    by_value (some v) e ih = elim (Bool-cases (g === f)) [
      | inl k ↦
          let gf : g ≡ f = (===_iff g f).0 k in
          let value : field f d ≡ some v = ap (λ h. field h d) (sym gf) ∙ e in rw k (sym value)
      | inr k ↦ rw k ih
    ]

-- What a field of the answer shows is the user's value, the token was verified, and the field was
-- asked for, or none was and it is one of the four standard ones, to which the password does not
-- belong.
pub base_user_lem :
    (verified : Bool) (user : Option Data) (fields : Option String) (f value : String)
    → field f (base_user verified user fields) ≡ some value
    → (verified ≡ true)
      × (field f (data_of user) ≡ some value)
      × (Memᴰ f (requested_fields fields)
          ⊎ ((requested_fields fields ≡ []) × Memᴰ f standard_fields × (f ≢ "password")))
unfolding base_user
base_user_lem false user fields f value h = absurd (cc)
base_user_lem true user fields f value h =
    let fs = or_standard (requested_fields fields) in
    let (k, v) = chosen (includes_text fs f) (sym (field-pick (data_of user) fs f) ∙ h) in
    (refl, v, asked (requested_fields fields) ((includes_text_iff fs f).0 k))
  where
    chosen :
        (b : Bool)
        → (if b then field f (data_of user) else none) ≡ some value
        → (b ≡ true) × (field f (data_of user) ≡ some value)
    chosen true g = (refl, g)
    chosen false g = absurd (cc)

    not_password : Memᴰ f standard_fields → f ≢ "password"
    not_password (Memᴰ.head e) q = absurd (cc)
    not_password (Memᴰ.tail (Memᴰ.head e)) q = absurd (cc)
    not_password (Memᴰ.tail (Memᴰ.tail (Memᴰ.head e))) q = absurd (cc)
    not_password (Memᴰ.tail (Memᴰ.tail (Memᴰ.tail (Memᴰ.head e)))) q = absurd (cc)
    not_password (Memᴰ.tail (Memᴰ.tail (Memᴰ.tail (Memᴰ.tail m)))) q = elim m [ ]

    asked :
        (gs : List String)
        → Memᴰ f (or_standard gs)
        → Memᴰ f gs ⊎ ((gs ≡ []) × Memᴰ f standard_fields × (f ≢ "password"))
    asked [] m = inr (refl, m, not_password m)
    asked (g ∷ gs) m = inl m
