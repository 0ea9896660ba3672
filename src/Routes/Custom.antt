-- ===== src/Routes/Custom.antt =====
-- The layers of server.ts behind the generated API: the custom API, the file routes, the snippets,
-- and the client.
use runc.Prelude.{List, [], ◌∷◌, ◌++◌}
use runc.Routes.{
  get, post, put, patch, all, on, is_authorized, append_user_id, is_accounting, step, Layer,
}
use runc.Routes.Table.{layer, layers}

-- The routes under /rest, up to the chat bot.
abbrev pub custom_layers : List Layer
custom_layers =
    layer (on post) "/rest/user/login" (step "login" ∷ [])
    ∷ layer (on get) "/rest/user/change-password" (step "changePassword" ∷ [])
    ∷ layer (on post) "/rest/user/reset-password" (step "resetPassword" ∷ [])
    ∷ layer (on get) "/rest/user/security-question" (step "securityQuestion" ∷ [])
    ∷ layer (on get) "/rest/user/whoami"
        (step "updateAuthenticatedUsers" ∷ step "retrieveLoggedInUser" ∷ [])
    ∷ layer (on get) "/rest/user/authentication-details" (step "authenticatedUsers" ∷ [])
    ∷ layer (on get) "/rest/products/search" (step "searchProducts" ∷ [])
    ∷ layer (on get) "/rest/basket/:id" (step "retrieveBasket" ∷ [])
    ∷ layer (on post) "/rest/basket/:id/checkout" (step "placeOrder" ∷ [])
    ∷ layer (on put) "/rest/basket/:id/coupon/:coupon" (step "applyCoupon" ∷ [])
    ∷ layer (on get) "/rest/admin/application-version" (step "retrieveAppVersion" ∷ [])
    ∷ layer (on get) "/rest/admin/application-configuration" (step "retrieveAppConfiguration" ∷ [])
    ∷ layer (on get) "/rest/repeat-notification" (step "repeatNotification" ∷ [])
    ∷ layer (on get) "/rest/continue-code" (step "continueCode" ∷ [])
    ∷ layer (on get) "/rest/continue-code-findIt" (step "continueCodeFindIt" ∷ [])
    ∷ layer (on get) "/rest/continue-code-fixIt" (step "continueCodeFixIt" ∷ [])
    ∷ layer (on put) "/rest/continue-code-findIt/apply/:continueCode"
        (step "restoreProgressFindIt" ∷ [])
    ∷ layer (on put) "/rest/continue-code-fixIt/apply/:continueCode"
        (step "restoreProgressFixIt" ∷ [])
    ∷ layer (on put) "/rest/continue-code/apply/:continueCode" (step "restoreProgress" ∷ [])
    ∷ layer (on get) "/rest/captcha" (step "captchas" ∷ [])
    ∷ layer (on get) "/rest/image-captcha" (step "imageCaptchas" ∷ [])
    ∷ layer (on get) "/rest/track-order/:id" (step "trackOrder" ∷ [])
    ∷ layer (on get) "/rest/country-mapping" (step "countryMapping" ∷ [])
    ∷ layer (on get) "/rest/saveLoginIp" (step "saveLoginIp" ∷ [])
    ∷ layer (on post) "/rest/user/data-export" (append_user_id ∷ step "verifyImageCaptcha" ∷ [])
    ∷ layer (on post) "/rest/user/data-export" (append_user_id ∷ step "dataExport" ∷ [])
    ∷ layer (on get) "/rest/languages" (step "getLanguageList" ∷ [])
    ∷ layer (on get) "/rest/order-history" (step "orderHistory" ∷ [])
    ∷ layer (on get) "/rest/order-history/orders" (is_accounting ∷ step "allOrders" ∷ [])
    ∷ layer (on put) "/rest/order-history/:id/delivery-status"
        (is_accounting ∷ step "toggleDeliveryStatus" ∷ [])
    ∷ layer (on get) "/rest/wallet/balance" (append_user_id ∷ step "getWalletBalance" ∷ [])
    ∷ layer (on put) "/rest/wallet/balance" (append_user_id ∷ step "addWalletBalance" ∷ [])
    ∷ layer (on get) "/rest/deluxe-membership" (step "deluxeMembershipStatus" ∷ [])
    ∷ layer (on post) "/rest/deluxe-membership" (append_user_id ∷ step "upgradeToDeluxe" ∷ [])
    ∷ layer (on get) "/rest/memories" (step "getMemories" ∷ [])
    ∷ layer (on get) "/rest/chatbot/status" (step "chatbot.status" ∷ [])
    ∷ layer (on post) "/rest/chatbot/respond" (step "chatbot.process" ∷ [])
    ∷ []

-- Reviews, web3, orders of other shops, files, profiles and snippets.
abbrev pub other_layers : List Layer
other_layers =
    layer (on get) "/rest/products/:id/reviews" (step "showProductReviews" ∷ [])
    ∷ layer (on put) "/rest/products/:id/reviews" (step "createProductReviews" ∷ [])
    ∷ layer (on patch) "/rest/products/reviews" (is_authorized ∷ step "updateProductReviews" ∷ [])
    ∷ layer (on post) "/rest/products/reviews" (is_authorized ∷ step "likeProductReviews" ∷ [])
    ∷ layer (on post) "/rest/web3/submitKey" (step "checkKeys" ∷ [])
    ∷ layer (on get) "/rest/web3/nftUnlocked" (step "nftUnlocked" ∷ [])
    ∷ layer (on get) "/rest/web3/nftMintListen" (step "nftMintListener" ∷ [])
    ∷ layer (on post) "/rest/web3/walletNFTVerify" (step "walletNFTVerify" ∷ [])
    ∷ layer (on post) "/rest/web3/walletExploitAddress" (step "contractExploitListener" ∷ [])
    ∷ layer (on post) "/b2b/v2/orders" (step "b2bOrder" ∷ [])
    ∷ layer (on get) "/the/devs/are/so/funny/they/hid/an/easter/egg/within/the/easter/egg"
        (step "serveEasterEgg" ∷ [])
    ∷ layer (on get)
        "/this/page/is/hidden/behind/an/incredibly/high/paywall/that/could/only/be/unlocked/by/sending/1btc/to/us"
        (step "servePremiumContent" ∷ [])
    ∷ layer (on get) "/we/may/also/instruct/you/to/refuse/all/reasonably/necessary/responsibility"
        (step "servePrivacyPolicyProof" ∷ [])
    ∷ layer all "/dataerasure" (step "dataErasure" ∷ [])
    ∷ layer (on get) "/redirect" (step "performRedirect" ∷ [])
    ∷ layer (on get) "/promotion" (step "promotionVideo" ∷ [])
    ∷ layer (on get) "/video" (step "getVideo" ∷ [])
    ∷ layer (on get) "/profile" (step "updateAuthenticatedUsers" ∷ step "getUserProfile" ∷ [])
    ∷ layer (on post) "/profile" (step "updateUserProfile" ∷ [])
    ∷ layer (on get) "/snippets/:challenge" (step "serveCodeSnippet" ∷ [])
    ∷ layer (on post) "/snippets/verdict" (step "checkVulnLines" ∷ [])
    ∷ layer (on get) "/snippets/fixes/:key" (step "serveCodeFixes" ∷ [])
    ∷ layer (on post) "/snippets/fixes" (step "checkCorrectFix" ∷ [])
    ∷ layer all "/" (step "serveAngularClient" ∷ [])
    ∷ []

-- The resources that finale registers answer the requests for the generated API, and call `next`
-- for others.
abbrev pub finale_layer : Layer
finale_layer = layer all "/" (step "finale" ∷ [])

-- All layers, in their order.
unfoldable pub all_layers : List Layer
unfolding layers
all_layers = layers ++ finale_layer ∷ custom_layers ++ other_layers
