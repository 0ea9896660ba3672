-- ===== src/Routes/Table.antt =====
-- The layers of server.ts, in their order.
use runc.Prelude.{String, List, [], ◌∷◌, ◌++◌}
use runc.Routes.{
  get, post, put, delete, Mount, all, on, Middleware, is_authorized, deny_all, append_user_id,
  is_accounting, step, Layer,
}

abbrev pub layer : Mount → String → List Middleware → Layer
layer m p ms = record { mount = m; pattern = p; middlewares = ms }

-- The limit on password resets, and the check of the token for challenges.
abbrev pub account_layers : List Layer
account_layers =
    layer all "/rest/user/reset-password" (step "rateLimit" ∷ [])
    ∷ layer all "/" (step "jwtChallenges" ∷ [])
    ∷ []

-- The guards, from the baskets to the orders.
abbrev pub guard_layers : List Layer
guard_layers =
    layer all "/rest/basket" (is_authorized ∷ append_user_id ∷ [])
    ∷ layer all "/api/BasketItems" (is_authorized ∷ [])
    ∷ layer all "/api/BasketItems/:id" (is_authorized ∷ [])
    ∷ layer all "/api/Feedbacks/:id" (is_authorized ∷ [])
    ∷ layer (on get) "/api/Users" (is_authorized ∷ [])
    ∷ layer (on get) "/api/Users/:id" (is_authorized ∷ [])
    ∷ layer (on put) "/api/Users/:id" (deny_all ∷ [])
    ∷ layer (on delete) "/api/Users/:id" (deny_all ∷ [])
    ∷ layer (on post) "/api/Products" (is_authorized ∷ [])
    ∷ layer (on delete) "/api/Products/:id" (deny_all ∷ [])
    ∷ layer (on post) "/api/Challenges" (deny_all ∷ [])
    ∷ layer all "/api/Challenges/:id" (deny_all ∷ [])
    ∷ layer (on post) "/api/Hints" (deny_all ∷ [])
    ∷ layer (on get) "/api/Hints/:id" (deny_all ∷ [])
    ∷ layer (on delete) "/api/Hints/:id" (deny_all ∷ [])
    ∷ layer (on get) "/api/Complaints" (is_authorized ∷ [])
    ∷ layer (on post) "/api/Complaints" (is_authorized ∷ [])
    ∷ layer all "/api/Complaints/:id" (deny_all ∷ [])
    ∷ layer (on get) "/api/Recycles" (step "blockRecycleItems" ∷ [])
    ∷ layer (on post) "/api/Recycles" (is_authorized ∷ [])
    ∷ layer (on get) "/api/Recycles/:id" (step "getRecycleItem" ∷ [])
    ∷ layer (on put) "/api/Recycles/:id" (deny_all ∷ [])
    ∷ layer (on delete) "/api/Recycles/:id" (deny_all ∷ [])
    ∷ layer (on post) "/api/SecurityQuestions" (deny_all ∷ [])
    ∷ layer all "/api/SecurityQuestions/:id" (deny_all ∷ [])
    ∷ layer (on get) "/api/SecurityAnswers" (deny_all ∷ [])
    ∷ layer all "/api/SecurityAnswers/:id" (deny_all ∷ [])
    ∷ layer all "/rest/user/authentication-details" (is_authorized ∷ [])
    ∷ layer all "/rest/basket/:id" (is_authorized ∷ [])
    ∷ layer all "/rest/basket/:id/order" (is_authorized ∷ [])
    ∷ []

-- What runs before feedback is left and users are created; `trimRegistration` is the function that
-- is written in the call.
abbrev pub registration_layers : List Layer
registration_layers =
    layer (on post) "/api/Feedbacks" (step "forgedFeedbackChallenge" ∷ [])
    ∷ layer (on post) "/api/Feedbacks" (step "verifyCaptcha" ∷ [])
    ∷ layer (on post) "/api/Feedbacks" (step "captchaBypassChallenge" ∷ [])
    ∷ layer (on post) "/api/Users" (step "trimRegistration" ∷ [])
    ∷ layer (on post) "/api/Users" (step "registerAdminChallenge" ∷ [])
    ∷ layer (on post) "/api/Users" (step "passwordRepeatChallenge" ∷ [])
    ∷ layer (on post) "/api/Users" (step "emptyUserRegistration" ∷ [])
    ∷ layer all "/b2b/v2" (is_authorized ∷ [])
    ∷ []

-- The guards from the B2B API on, the second factor, and the last middleware before finale.
abbrev pub shop_layers : List Layer
shop_layers =
    layer (on put) "/api/BasketItems/:id"
      (append_user_id ∷ step "quantityCheckBeforeBasketItemUpdate" ∷ [])
    ∷ layer (on post) "/api/BasketItems"
        (append_user_id ∷ step "quantityCheckBeforeBasketItemAddition" ∷ step "addBasketItem" ∷ [])
    ∷ layer (on delete) "/api/Quantitys/:id" (deny_all ∷ [])
    ∷ layer (on post) "/api/Quantitys" (deny_all ∷ [])
    ∷ layer all "/api/Quantitys/:id" (is_accounting ∷ step "IpFilter" ∷ [])
    ∷ layer (on put) "/api/Feedbacks/:id" (deny_all ∷ [])
    ∷ layer all "/api/PrivacyRequests" (is_authorized ∷ [])
    ∷ layer all "/api/PrivacyRequests/:id" (is_authorized ∷ [])
    ∷ layer (on post) "/api/Cards" (append_user_id ∷ [])
    ∷ layer (on get) "/api/Cards" (append_user_id ∷ step "getPaymentMethods" ∷ [])
    ∷ layer (on put) "/api/Cards/:id" (deny_all ∷ [])
    ∷ layer (on delete) "/api/Cards/:id" (append_user_id ∷ step "delPaymentMethodById" ∷ [])
    ∷ layer (on get) "/api/Cards/:id" (append_user_id ∷ step "getPaymentMethodById" ∷ [])
    ∷ layer (on post) "/api/PrivacyRequests" (is_authorized ∷ [])
    ∷ layer (on get) "/api/PrivacyRequests" (deny_all ∷ [])
    ∷ layer all "/api/PrivacyRequests/:id" (deny_all ∷ [])
    ∷ layer (on post) "/api/Addresss" (append_user_id ∷ [])
    ∷ layer (on get) "/api/Addresss" (append_user_id ∷ step "getAddress" ∷ [])
    ∷ layer (on put) "/api/Addresss/:id" (append_user_id ∷ [])
    ∷ layer (on delete) "/api/Addresss/:id" (append_user_id ∷ step "delAddressById" ∷ [])
    ∷ layer (on get) "/api/Addresss/:id" (append_user_id ∷ step "getAddressById" ∷ [])
    ∷ layer (on get) "/api/Deliverys" (step "getDeliveryMethods" ∷ [])
    ∷ layer (on get) "/api/Deliverys/:id" (step "getDeliveryMethod" ∷ [])
    ∷ layer (on post) "/rest/2fa/verify" (step "rateLimit" ∷ step "twoFactorAuth.verify" ∷ [])
    ∷ layer (on get) "/rest/2fa/status" (is_authorized ∷ step "twoFactorAuth.status" ∷ [])
    ∷ layer (on post) "/rest/2fa/setup"
        (step "rateLimit" ∷ is_authorized ∷ step "twoFactorAuth.setup" ∷ [])
    ∷ layer (on post) "/rest/2fa/disable"
        (step "rateLimit" ∷ is_authorized ∷ step "twoFactorAuth.disable" ∷ [])
    ∷ layer all "/" (step "databaseRelatedChallenges" ∷ [])
    ∷ []

unfoldable pub layers : List Layer
layers = account_layers ++ guard_layers ++ registration_layers ++ shop_layers
