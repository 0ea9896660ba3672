-- ===== src/Auth/Users/Sessions.antt =====
-- lib/insecurity.ts: the two maps of `authenticatedUsers` agree.
use runc.Prelude.{
  ℕ, String, ◌≡◌, refl, sym, ap, ◌∙◌, ◌⊎◌, inl, inr, Option, none, some, List, [], ◌∷◌, arith, ◌==◌,
  ◌===◌, ===_iff, ==_iff, if◌then◌else◌, Bool-cases,
}
use runc.Auth.Users.{
  Session, Payload, session, AuthenticatedUsers, token_lookup, token_insert, id_lookup, id_insert,
  put, token_of,
}

pub token_lookup-insert :
    (j k : String) (v : Payload) (m : List (String × Payload))
    → token_lookup j (token_insert k v m) ≡ (if k === j then some v else token_lookup j m)
token_lookup-insert j k v [] = refl
token_lookup-insert j k v ((i, w) ∷ m) =
    ground (arith, token_lookup-insert j k v m, ===_iff i k, ===_iff i j, ===_iff k j)

id_lookup-insert :
    (j k : ℕ) (v : String) (m : List (ℕ × String))
    → id_lookup j (id_insert k v m) ≡ (if k == j then some v else id_lookup j m)
id_lookup-insert j k v [] = refl
id_lookup-insert j k v ((i, w) ∷ m) = ground (arith, id_lookup-insert j k v m)

-- Every token that `idMap` gives for a user is in `tokenMap`, with a session of that user.
abbrev pub IsLinked : AuthenticatedUsers → Type 0
IsLinked a =
    (id : ℕ) (token : String)
    → id_lookup id a.id_map ≡ some token
    → (s : Session) × (token_lookup token a.token_map ≡ some (session s)) × (s.user.id ≡ id)

-- The token is new, or belongs to the same user.
abbrev pub IsOwn : String → ℕ → AuthenticatedUsers → Type 0
IsOwn token id a =
    (token_lookup token a.token_map ≡ none)
    ⊎ ((s : Session) × (token_lookup token a.token_map ≡ some (session s)) × (s.user.id ≡ id))

-- Entering a session under a token that is new or belongs to the same user keeps the maps linked,
-- and from then on the user's token leads to the session.
pub put-IsLinked :
    (token : String) (s : Session) (a : AuthenticatedUsers)
    → IsLinked a
    → IsOwn token s.user.id a
    → IsLinked (put token (session s) a).1
      × (token_of (some s.user) (put token (session s) a).1 ≡ some token)
      × (token_lookup token (put token (session s) a).1.token_map ≡ some (session s))
unfolding put token_of
put-IsLinked token s a linked own = (
  λ id t e. step id t (rw (id_lookup-insert id s.user.id token a.id_map) at e),
  rw (id_lookup-insert s.user.id s.user.id token a.id_map) (ground arith),
  rw (token_lookup-insert token token (session s) a.token_map, (===_iff token token).1 refl),
)
  where
    here : token_lookup token (token_insert token (session s) a.token_map) ≡ some (session s)
    here =
        rw (token_lookup-insert token token (session s) a.token_map, (===_iff token token).1 refl)

    old :
        (id : ℕ) (t : String) (r : Session)
        → token_lookup t a.token_map ≡ some (session r)
        → r.user.id ≡ id
        → (token ≡ t → s.user.id ≡ id)
        → (q : Session) × (token_lookup t (token_insert token (session s) a.token_map)
            ≡ some (session q))
          × (q.user.id ≡ id)
    old id t r e i agree = elim (Bool-cases (token === t)) [
      | inl same ↦
          let p : token ≡ t = (===_iff token t).0 same in
          (s, rw (token_lookup-insert t token (session s) a.token_map, same), agree p)
      | inr other ↦ (r, rw (token_lookup-insert t token (session s) a.token_map, other) e, i)
    ]

    owner :
        (id : ℕ) (t : String) (r : Session)
        → token_lookup t a.token_map ≡ some (session r)
        → r.user.id ≡ id
        → token ≡ t
        → s.user.id ≡ id
    owner id t r e i p = elim own [
      | inl new ↦ let f : ◌≡◌ {A = Option Payload} none (some (session r)) = sym new ∙ rw p e in cc
      | inr (q, f, j) ↦
          let g : some (session q) ≡ some (session r) = sym f ∙ rw p e in
          let k : q ≡ r = ground arith in sym j ∙ ap (λ (x : Session). x.user.id) k ∙ i
    ]

    step :
        (id : ℕ) (t : String)
        → (if s.user.id == id then some token else id_lookup id a.id_map) ≡ some t
        → (q : Session) × (token_lookup t (token_insert token (session s) a.token_map)
            ≡ some (session q))
          × (q.user.id ≡ id)
    step id t e = elim (Bool-cases (s.user.id == id)) [
      | inl same ↦
          let f : some token ≡ some t = rw same at e in
          let p : token ≡ t = ground arith in (s, rw (← p) here, (==_iff s.user.id id).0 same)
      | inr other ↦
          let f : id_lookup id a.id_map ≡ some t = rw other at e in
          let (r, g, i) = linked id t f in old id t r g i (owner id t r g i)
    ]
