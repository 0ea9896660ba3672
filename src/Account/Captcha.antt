-- ===== src/Account/Captcha.antt =====
-- Captchas: `captchas` and `verifyCaptcha` (routes/captcha.ts), `imageCaptchas` and
-- `verifyImageCaptcha` (routes/imageCaptcha.ts). What `Math.random` gives is an argument, and so is
-- the picture that svg-captcha draws.
pub mod Passing
use runc.Prelude.{
  ℕ, ◌+◌, String, Bool, true, false, not, ◌&&◌, Option, none, some, List, [], ◌∷◌, ltb, ◌==◌, ◌===◌,
  if◌then◌else◌, concat_texts,
}
use runc.Prelude.Int.{ℤ, pos, ◌+ℤ◌, ◌-ℤ◌, ◌*ℤ◌}
use runc.Prelude.Numerals.{to_string}
use runc.Prelude.Http.{
  Outcome, ok, thrown, Action, pure, catch, await, await_write, ◌>>=◌, ◌>>◌, Reply, send, refuse,
  next, next_error,
}
use runc.Database.{Orm}

pub record Captcha : Type 0 where
  pub captcha_id : ℕ
  pub captcha : String
  pub answer : String

-- `createdAt` is set by the model.
pub record ImageCaptcha : Type 0 where
  pub image : String
  pub answer : String
  pub user_id : ℕ
  pub created_at : ℕ

pub record Store : Type 0 where
  -- `app.locals.captchaId`
  pub next_id : ℕ
  pub captchas : List Captcha
  pub image_captchas : List ImageCaptcha

pub data Operator : Type 0 where
  times : Operator
  plus : Operator
  minus : Operator

-- `Math.floor(Math.random() * 10)` and `operators[Math.floor(Math.random() * 3)]`, as drawn
pub record Draw : Type 0 where
  pub first_term : ℕ
  pub second_term : ℕ
  pub third_term : ℕ
  pub first_operator : Operator
  pub second_operator : Operator

abbrev apply : Operator → ℤ → ℤ → ℤ
apply times a b = a *ℤ b
apply plus a b = a +ℤ b
apply minus a b = a -ℤ b

abbrev symbol : Operator → String
symbol times = "*"
symbol plus = "+"
symbol minus = "-"

abbrev is_times : Operator → Bool
is_times times = true
is_times plus = false
is_times minus = false

-- `eval` of the expression: a product before a sum or difference, otherwise from the left.
unfoldable pub evaluate : ℤ → Operator → ℤ → Operator → ℤ → ℤ
evaluate a f b g c =
    if is_times g && not (is_times f) then apply f a (apply g b c) else apply g (apply f a b) c

abbrev term : ℕ → ℤ
term n = pos (n + 1)

unfoldable pub captcha_of : ℕ → Draw → Captcha
unfolding evaluate to_string
captcha_of id d = record {
  captcha_id = id;
  captcha = concat_texts (
      to_string (term d.first_term)
      ∷ symbol d.first_operator
      ∷ to_string (term d.second_term)
      ∷ symbol d.second_operator
      ∷ to_string (term d.third_term)
      ∷ []);
  answer = to_string (
      evaluate (term d.first_term) d.first_operator (term d.second_term) d.second_operator
        (term d.third_term));
}

module _ (e : Orm) where
  abbrev pub saved_captcha :
      Captcha → Store → Outcome (Captcha × List Captcha) → Outcome (Reply Captcha) × Store
  saved_captcha c s (ok (row, captchas)) = (ok (send 200 c), record s { captchas = captchas })
  saved_captcha c s (thrown x) = (thrown x, s)

  -- `captchaInstance.save()`, then the answer. There is no `try`: if the captcha is not saved, the
  -- request is never answered.
  abbrev pub save_captcha : Captcha → Action Store (Reply Captcha)
  save_captcha c s = saved_captcha c s (e.create (λ _. c) s.captchas)

  unfoldable pub captchas : Draw → Action Store (Reply Captcha)
  captchas d s = save_captcha (captcha_of s.next_id d) (record s { next_id = s.next_id + 1 })

  abbrev wrong : {B : Type 0} → Reply B
  wrong = refuse 401 "Wrong answer to CAPTCHA. Please try again."

  abbrev pub judged : String → Option Captcha → Reply Captcha
  judged given none = wrong
  judged given (some c) = if given === c.answer then next else wrong

  -- The rest of the `try`, and the `catch`.
  abbrev pub decided : String → Outcome (Option Captcha) → Outcome (Reply Captcha)
  decided given (ok found) = ok (judged given found)
  decided given (thrown x) = ok (next_error x)

  -- The body's `captchaId` and `captcha`.
  unfoldable pub verify_captcha : ℕ → String → Action Store (Reply Captcha)
  verify_captcha id given =
      await λ s. decided given (e.find_one (λ (c : Captcha). c.captcha_id == id) s.captchas)

  abbrev saved_image : Store → Outcome (ImageCaptcha × List ImageCaptcha) → Outcome Store
  saved_image s (ok (c, images)) = ok (record s { image_captchas = images })
  saved_image s (thrown x) = thrown x

  -- The drawing is the picture and its text; `user` is the id of the session's user.
  unfoldable pub image_captchas : String × String → Option ℕ → ℕ → Action Store (Reply ImageCaptcha)
  image_captchas (image, text) none now =
      pure (refuse 401 "You need to be logged in to request a CAPTCHA.")
  image_captchas (image, text) (some user) now =
      let c : ImageCaptcha = record {
        image = image;
        answer = text;
        user_id = user;
        created_at = now;
      } in
      catch
        (await_write (λ s. saved_image s (e.create (λ _. c) s.image_captchas)) >> pure (send 200 c))
        (λ x. pure (refuse 400 "Unable to create CAPTCHA. Please try again."))

  -- The newest first; of two of one time the earlier row.
  abbrev newest : List ImageCaptcha → Option ImageCaptcha
  newest [] = none
  newest (c ∷ cs) = elim (newest cs) [
    | none ↦ some c
    | some d ↦ some (if ltb c.created_at d.created_at then d else c)
  ]

  -- `createdAt > now - 300000`
  abbrev pub is_fresh : ℕ → ℕ → ImageCaptcha → Bool
  is_fresh user now c = c.user_id == user && ltb now (c.created_at + 300000)

  abbrev judged_image : String → Option ImageCaptcha → Reply ImageCaptcha
  judged_image given none = next
  judged_image given (some c) = if given === c.answer then next else wrong

  -- A condition on `undefined` is refused by the mapper.
  abbrev fresh_images : Option ℕ → ℕ → Store → Outcome (List ImageCaptcha)
  fresh_images none now s = thrown "WHERE parameter \"UserId\" has invalid \"undefined\" value"
  fresh_images (some user) now s = e.find_all (is_fresh user now) s.image_captchas

  unfoldable pub verify_image_captcha : Option ℕ → String → ℕ → Action Store (Reply ImageCaptcha)
  verify_image_captcha user given now =
      catch (await (fresh_images user now) >>= λ found. pure (judged_image given (newest found)))
        (λ x. pure (refuse 401 "Something went wrong while submitting CAPTCHA. Please try again."))
