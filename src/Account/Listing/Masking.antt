-- ===== src/Account/Listing/Masking.antt =====
-- What the list of users hides, and which address a sign-in leaves.
use Prim.Native.Char.{code}
use runc.Prelude.{
  ℕ, String, ◌≡◌, refl, sym, ap, ◌∙◌, Bool, true, false, not, Option, some, List, [], ◌∷◌, map,
  ◌===◌, if◌then◌else◌, filter,
}
use runc.Prelude.Http.{Outcome, ok, thrown, send}
use runc.Database.{Orm}
use runc.Auth.Users.{User, AuthenticatedUsers, token_of, id_lookup}
use runc.Auth.Server.{Services}
use runc.Challenges.Enabled.{SafetyMode, Surroundings}
use runc.Sanitizing.{is_enabled}
use runc.Account.Listing.{
  masked, ends_line, Decoded, ListedUser, listed, login_time, not_deleted, answered,
  retrieve_user_list, absent, Visits, last_login_ip, http_header_xss,
}

-- Two texts of one length in which no character ends a line.
abbrev pub AreAlike : String → String → Type 0
AreAlike String.[] String.[] = Unit
AreAlike String.[] (String.◌∷◌ d t) = ⊥
AreAlike (String.◌∷◌ c s) String.[] = ⊥
AreAlike (String.◌∷◌ c s) (String.◌∷◌ d t) =
    (ends_line (code c) ≡ false) × (ends_line (code d) ≡ false) × AreAlike s t

masked-AreAlike : (s t : String) → AreAlike s t → masked s ≡ masked t
unfolding masked
masked-AreAlike String.[] String.[] h = refl
masked-AreAlike String.[] (String.◌∷◌ d t) h = absurd h
masked-AreAlike (String.◌∷◌ c s) String.[] h = absurd h
masked-AreAlike (String.◌∷◌ c s) (String.◌∷◌ d t) (a, b, h) = rw (a, b, masked-AreAlike s t h) refl

-- The tables differ in passwords and secrets of two-factor authentication at most.
abbrev pub DifferInSecrets : List User → List User → Type 0
DifferInSecrets [] [] = Unit
DifferInSecrets [] (v ∷ vs) = ⊥
DifferInSecrets (u ∷ us) [] = ⊥
DifferInSecrets (u ∷ us) (v ∷ vs) =
    (v ≡ record u { password = v.password; totp_secret = v.totp_secret })
    × AreAlike u.password v.password
    × AreAlike u.totp_secret v.totp_secret
    × DifferInSecrets us vs

same_row :
    (decode : String → Option Decoded) (a : AuthenticatedUsers) (u v : User)
    → v ≡ record u { password = v.password; totp_secret = v.totp_secret }
    → AreAlike u.password v.password
    → AreAlike u.totp_secret v.totp_secret
    → listed decode a u ≡ listed decode a v
unfolding token_of
same_row decode a u v e p t =
    let hidden : listed decode a u
        ≡ listed decode a (record u { password = v.password; totp_secret = v.totp_secret }) =
      (λ i. record {
        user = record u {
          password = masked-AreAlike u.password v.password p i;
          totp_secret = masked-AreAlike u.totp_secret v.totp_secret t i;
        };
        last_login_time = login_time decode (id_lookup u.id a.id_map);
      }) in
    hidden ∙ ap (listed decode a) (sym e)

same_rows :
    (decode : String → Option Decoded) (a : AuthenticatedUsers) (us vs : List User)
    → DifferInSecrets us vs
    → map (listed decode a) (filter not_deleted us) ≡ map (listed decode a) (filter not_deleted vs)
same_rows decode a [] [] h = refl
same_rows decode a [] (v ∷ vs) h = absurd h
same_rows decode a (u ∷ us) [] h = absurd h
same_rows decode a (u ∷ us) (v ∷ vs) (e, p, t, h) =
    by_flag u.deleted v.deleted (ap (λ (x : User). x.deleted) e) (same_row decode a u v e p t)
      (same_rows decode a us vs h)
  where
    by_flag :
        (b c : Bool)
        → c ≡ b
        → listed decode a u ≡ listed decode a v
        → map (listed decode a) (filter not_deleted us)
          ≡ map (listed decode a) (filter not_deleted vs)
        → map (listed decode a) (if not b then u ∷ filter not_deleted us else filter not_deleted us)
          ≡ map
              (listed decode a)
              (if not c then v ∷ filter not_deleted vs else filter not_deleted vs)
    by_flag true true q row rest = rest
    by_flag false false q row rest = λ i. row i ∷ rest i
    by_flag true false q row rest = absurd (cc)
    by_flag false true q row rest = absurd (cc)

-- Two tables of users that differ in passwords and secrets of two-factor authentication at most,
-- with texts of one length and in one line, are listed alike, unless the mapper fails.
pub retrieve_user_list-AreAlike :
    (e : Orm) (decode : String → Option Decoded) (a : AuthenticatedUsers) (us vs : List User)
    (ls ms : List ListedUser)
    → DifferInSecrets us vs
    → retrieve_user_list e decode a us ≡ send 200 ls
    → retrieve_user_list e decode a vs ≡ send 200 ms
    → ls ≡ ms
unfolding retrieve_user_list
retrieve_user_list-AreAlike e decode a us vs ls ms h p q =
    sym (sent us ls (e.find_all not_deleted us) refl p)
    ∙ same_rows decode a us vs h
    ∙ sent vs ms (e.find_all not_deleted vs) refl q
  where
    sent :
        (ws : List User) (rows : List ListedUser) (o : Outcome (List User))
        → e.find_all not_deleted ws ≡ o
        → answered e decode a o ≡ send 200 rows
        → map (listed decode a) (filter not_deleted ws) ≡ rows
    sent ws rows (thrown x) k r = absurd (cc)
    sent ws rows (ok found) k r =
        let f : found ≡ filter not_deleted ws = e.find_all_lem not_deleted ws found k in
        let g : map (listed decode a) found ≡ rows = cc in ap (map (listed decode a)) (sym f) ∙ g

-- A user whose token was issued at a time, in seconds, is listed with that number as the time of
-- the last login in milliseconds.
pub seconds_for_milliseconds :
    (decode : String → Option Decoded) (a : AuthenticatedUsers) (u : User) (token : String) (n : ℕ)
    → token_of (some u) a ≡ some token
    → (token === "") ≡ false
    → decode token ≡ some record { iat = some n }
    → (listed decode a u).last_login_time ≡ some n
seconds_for_milliseconds decode a u token n h k d = ap (login_time decode) h ∙ rw (k, d) refl

-- Without the header, a disabled challenge leaves the sanitised empty text as the address of the
-- last login, whatever the socket's address is.
pub absent_header :
    (e : Services) (mode : SafetyMode) (at : Surroundings) (sanitize : String → String)
    (remote : Option String) (s : Visits)
    → is_enabled mode at http_header_xss s.board ≡ false
    → last_login_ip e mode at sanitize absent remote s.board ≡ sanitize ""
unfolding last_login_ip
absent_header e mode at sanitize remote s h = rw h refl
