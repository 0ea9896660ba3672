-- ===== src/Account/Captcha/Passing.antt =====
-- Which answers a captcha lets pass.
use mathlib.Core.List.{Memᴰ}
use mathlib.Core.Path.{subst}
use runc.Prelude.{
  ℕ, ◌+◌, ◌<◌, String, ◌≡◌, refl, sym, ap, ◌∙◌, ◌⊎◌, inl, inr, Bool, true, false, ◌||◌, Option,
  none, some, List, [], ◌∷◌, ◌++◌, arith, ◌==◌, ◌===◌, ===_iff, ==_iff, if◌then◌else◌, absurd_test,
  any, any-append, All,
}
use runc.Prelude.Http.{Outcome, ok, thrown, Reply, send, refuse, next, next_error}
use runc.Database.{Orm}
use runc.Account.Captcha.{
  Captcha, Store, Draw, captcha_of, saved_captcha, captchas, decided, verify_captcha,
}

-- The captchas in the table were numbered by the counter.
abbrev pub AreNumbered : Store → Type 0
AreNumbered s = All (λ c. c.captcha_id < s.next_id) s.captchas

-- The row of the id has the answer.
abbrev pub Answers : ℕ → String → Captcha → Type 0
Answers id answer c = c.captcha_id ≡ id → c.answer ≡ answer

-- The captcha passes for its answer only, and for it unless the mapper's error is passed on.
abbrev pub Passes : String → String → Outcome (Reply Captcha) → Type 0
Passes answer given r =
    (r ≡ ok next → given ≡ answer)
    × (given ≡ answer → (r ≡ ok next) ⊎ ((x : String) × (r ≡ ok (next_error x))))

record IsIssued (id : ℕ) (answer : String) (s : Store) : Type 0 where
  counted : id < s.next_id
  known : All (Answers id answer) s.captchas
  there : any (λ c. c.captcha_id == id) s.captchas ≡ true

module _ (e : Orm) where
  -- The counter goes on in any case; the row is added, or the save fails.
  captchas_cases :
      (d : Draw) (s : Store)
      → ((x : String) × (captchas e d s ≡ (thrown x, record s { next_id = s.next_id + 1 })))
        ⊎ (captchas e d s ≡ (
          ok (send 200 (captcha_of s.next_id d)),
          record s {
            next_id = s.next_id + 1;
            captchas = s.captchas ++ captcha_of s.next_id d ∷ [];
          },
        ))
  unfolding captchas
  captchas_cases d s = by_outcome (e.create (λ _. captcha_of s.next_id d) s.captchas) refl
    where
      by_outcome :
          (o : Outcome (Captcha × List Captcha))
          → e.create (λ _. captcha_of s.next_id d) s.captchas ≡ o
          → ((x : String) × (captchas e d s ≡ (thrown x, record s { next_id = s.next_id + 1 })))
            ⊎ (captchas e d s ≡ (
              ok (send 200 (captcha_of s.next_id d)),
              record s {
                next_id = s.next_id + 1;
                captchas = s.captchas ++ captcha_of s.next_id d ∷ [];
              },
            ))
      by_outcome (thrown x) q =
          let s' = record s { next_id = s.next_id + 1 } in
          inl (x, ap (saved_captcha e (captcha_of s.next_id d) s') q)
      by_outcome (ok (c, t)) q =
          let s' = record s { next_id = s.next_id + 1 } in
          let ((i, c-eq), t-eq) = e.create_lem (λ _. captcha_of s.next_id d) s.captchas t c q in
          inr (
            ap (saved_captcha e (captcha_of s.next_id d) s') q
            ∙ ap
                (λ (rows : List Captcha).
                  let r : Outcome (Reply Captcha) × Store =
                    (ok (send 200 (captcha_of s.next_id d)), record s' { captchas = rows }) in
                  r)
                (t-eq ∙ ap (λ (row : Captcha). s.captchas ++ row ∷ []) c-eq))

  number :
      (id : ℕ) (answer : String) (n : ℕ) (d : Draw) → id < n → Answers id answer (captcha_of n d)
  unfolding captcha_of
  number id answer n d h q = absurd (omega (arith, q))

  All-snoc :
      {A : Type 0} (P : A → Type 0) (xs : List A) (x : A) → All P xs → P x → All P (xs ++ x ∷ [])
  All-snoc P [] x h p = (p, tt)
  All-snoc P (y ∷ ys) x (h, hs) p = (h, All-snoc P ys x hs p)

  captchas-IsIssued :
      (id : ℕ) (answer : String) (d : Draw) (s : Store)
      → IsIssued id answer s
      → IsIssued id answer (captchas e d s).1
  captchas-IsIssued id answer d s i = elim (captchas_cases d s) [
    | inl (x, q) ↦ subst (λ r. IsIssued id answer r.1) (sym q) failed
    | inr q ↦ subst (λ r. IsIssued id answer r.1) (sym q) added
  ]
    where
      failed : IsIssued id answer (record s { next_id = s.next_id + 1 })
      failed = record { counted = omega (arith, i.counted); known = i.known; there = i.there }

      added : IsIssued id answer (record s {
        next_id = s.next_id + 1;
        captchas = s.captchas ++ captcha_of s.next_id d ∷ [];
      })
      added = record {
        counted = omega (arith, i.counted);
        known =
            All-snoc (Answers id answer) s.captchas (captcha_of s.next_id d) i.known
              (number id answer s.next_id d i.counted);
        there =
            any-append (λ c. c.captcha_id == id) s.captchas (captcha_of s.next_id d ∷ [])
            ∙ rw i.there refl;
      }

  -- The captchas that are asked for afterwards.
  abbrev pub further : List Draw → Store → Store
  further [] s = s
  further (d ∷ ds) s = further ds (captchas e d s).1

  keeps_further :
      (id : ℕ) (answer : String) (ds : List Draw) (s : Store)
      → IsIssued id answer s
      → IsIssued id answer (further ds s)
  keeps_further id answer [] s i = i
  keeps_further id answer (d ∷ ds) s i =
      keeps_further id answer ds (captchas e d s).1 (captchas-IsIssued id answer d s i)

  own_id : (id : ℕ) (d : Draw) → (captcha_of id d).captcha_id ≡ id
  unfolding captcha_of
  own_id id d = refl

  older :
      (id : ℕ) (answer : String) (cs : List Captcha)
      → All (λ c. c.captcha_id < id) cs
      → All (Answers id answer) cs
  older id answer [] h = tt
  older id answer (c ∷ cs) (h, hs) = ((λ q. absurd (omega (arith, h, q))), older id answer cs hs)

  issued :
      (d : Draw) (s : Store)
      → AreNumbered s
      → IsIssued s.next_id (captcha_of s.next_id d).answer (record s {
        next_id = s.next_id + 1;
        captchas = s.captchas ++ captcha_of s.next_id d ∷ [];
      })
  issued d s w = record {
    counted = omega arith;
    known =
        All-snoc (Answers s.next_id (captcha_of s.next_id d).answer) s.captchas
          (captcha_of s.next_id d) (older s.next_id (captcha_of s.next_id d).answer s.captchas w)
          (λ q. refl);
    there =
        any-append (λ c. c.captcha_id == s.next_id) s.captchas (captcha_of s.next_id d ∷ [])
        ∙ last (any (λ c. c.captcha_id == s.next_id) s.captchas)
            ((captcha_of s.next_id d).captcha_id == s.next_id)
            ((==_iff (captcha_of s.next_id d).captcha_id s.next_id).1 (own_id s.next_id d));
  }
    where
      last : (a b : Bool) → b ≡ true → (a || (b || false)) ≡ true
      last a b h = ground arith

  -- The answer to a captcha that was issued, as the table's row has it.
  verdict :
      (id : ℕ) (answer given : String) (s : Store)
      → IsIssued id answer s
      → (o : Outcome (Option Captcha))
      → e.find_one (λ (c : Captcha). c.captcha_id == id) s.captchas ≡ o
      → Passes answer given (decided e given o)
  verdict id answer given s i (thrown x) q = ((λ h. absurd (cc)), λ h. inr (x, refl))
  verdict id answer given s i (ok none) q =
      let none_there = e.find_one_none (λ (c : Captcha). c.captcha_id == id) s.captchas q in
      absurd_test (sym none_there ∙ i.there)
  verdict id answer given s i (ok (some c)) q =
      let (same, m) = e.find_one_some (λ (c : Captcha). c.captcha_id == id) s.captchas c q in
      let a : c.answer ≡ answer = listed s.captchas c i.known m ((==_iff c.captcha_id id).0 same) in
      (
        λ h. given_answer (given === c.answer) h ((===_iff given c.answer).0) ∙ a,
        λ h. inl (let k = (===_iff given c.answer).1 (h ∙ sym a) in rw k refl),
      )
    where
      listed :
          (cs : List Captcha) (c : Captcha)
          → All (Answers id answer) cs
          → Memᴰ c cs
          → c.captcha_id ≡ id
          → c.answer ≡ answer
      listed [] c h m y = elim m [ ]
      listed (d ∷ cs) c (h, hs) (Memᴰ.head x) y = rw x (h (rw (← x) y))
      listed (d ∷ cs) c (h, hs) (Memᴰ.tail m) y = listed cs c hs m y

      given_answer :
          (b : Bool)
          → ◌≡◌ {A = Outcome (Reply Captcha)}
              (ok (if b then next else refuse 401 "Wrong answer to CAPTCHA. Please try again."))
              (ok next)
          → (b ≡ true → given ≡ c.answer)
          → given ≡ c.answer
      given_answer true h f = f refl
      given_answer false h f = absurd (cc)

-- A captcha that was sent passes for its answer and for no other, as long as the mapper does not
-- fail, and however many captchas are asked for after it.
pub verify_captcha-captchas :
    (e : Orm) (d : Draw) (s : Store) (c : Captcha)
    → AreNumbered s
    → (captchas e d s).0 ≡ ok (send 200 c)
    → (ds : List Draw) (given : String)
    → Passes c.answer given
        (verify_captcha e c.captcha_id given (further e ds (captchas e d s).1)).0
unfolding verify_captcha
verify_captcha-captchas e d s c w h ds given = elim (captchas_cases e d s) [
  | inl (x, q) ↦
      let bad : ◌≡◌ {A = Outcome (Reply Captcha)} (thrown x) (ok (send 200 c)) =
        sym (ap (λ r. r.0) q) ∙ h in
      absurd (cc)
  | inr q ↦
      let sent : ◌≡◌ {A = Outcome (Reply Captcha)} (ok (send 200 (captcha_of s.next_id d)))
          (ok (send 200 c)) =
        sym (ap (λ r. r.0) q) ∙ h in
      let c-eq : captcha_of s.next_id d ≡ c = cc in
      let id-eq : c.captcha_id ≡ s.next_id =
        ap (λ (x : Captcha). x.captcha_id) (sym c-eq) ∙ own_id e s.next_id d in
      let first =
        subst (λ r. IsIssued s.next_id (captcha_of s.next_id d).answer r.1) (sym q)
          (issued e d s w) in
      let i =
        keeps_further e s.next_id (captcha_of s.next_id d).answer ds (captchas e d s).1 first in
      let i' : IsIssued c.captcha_id c.answer (further e ds (captchas e d s).1) =
        subst (λ n. IsIssued n c.answer (further e ds (captchas e d s).1)) (sym id-eq)
          (subst (λ (x : Captcha). IsIssued s.next_id x.answer (further e ds (captchas e d s).1))
            c-eq i) in
      let t = further e ds (captchas e d s).1 in
      verdict e c.captcha_id c.answer given t i'
        (e.find_one (λ (r : Captcha). r.captcha_id == c.captcha_id) t.captchas) refl
]
