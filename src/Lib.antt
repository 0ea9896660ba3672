-- ===== src/Lib.antt =====
-- A model of the shop application in test-container/rootfs/juice-shop, the TypeScript part of the
-- repository: a web shop whose deliberate weaknesses are challenges, tracked while it is used.
-- Paths below are from that directory.
--
-- Parts, and how they interact. A request passes the middleware of lib/insecurity.ts, which reads
-- its token and the cache of sessions, and then a handler of routes/, which reads and writes the
-- tables of models/ and judges challenges with lib/challengeUtils.ts. Solving a challenge asks
-- lib/antiCheat.ts for a score and tells the clients; the coding phases of a challenge go through
-- routes/vulnCodeSnippet.ts, with lib/accuracy.ts counting the answers. Progress leaves and returns
-- as a code through routes/continueCode.ts and routes/restoreProgress.ts.
--
-- Files:
--   Prelude      shared names, Boolean tests, lists, signed integers, and the monad of handlers
--   Database     the object-relational mapper as a record of calls and laws
--   Coding       lib/accuracy.ts (Accuracy), lib/antiCheat.ts (AntiCheat),
--                routes/vulnCodeSnippet.ts (Snippets), routes/vulnCodeFixes.ts (Fixes),
--                lib/codingChallenges.ts (Extraction)
--   Challenges   lib/challengeUtils.ts; Challenges/Enabled is the enablement of lib/utils.ts,
--                Challenges/Sockets is lib/startup/registerWebsocketEvents.ts
--   Progress     routes/continueCode.ts and routes/restoreProgress.ts
--   Auth         lib/insecurity.ts and lib/utils.ts (Text, Users, Roles), models/user.ts (Server),
--                routes/login.ts (Login), routes/2fa.ts (TwoFactor), routes/changePassword.ts and
--                routes/resetPassword.ts (Passwords)
--   Shop         models/ of the shop (Tables), routes/wallet.ts (Wallet), routes/payment.ts,
--                routes/address.ts and routes/delivery.ts (Owned), routes/basketItems.ts (Basket),
--                routes/coupon.ts and the coupons of lib/insecurity.ts (Coupon), routes/deluxe.ts
--                (Deluxe), routes/order.ts (Order), routes/orderHistory.ts (History),
--                routes/trackOrder.ts (Tracking)
--   Files        routes/fileServer.ts, routes/keyServer.ts, routes/logfileServer.ts,
--                routes/quarantineServer.ts and routes/redirect.ts
--   Reviews      the handlers of product reviews; Reviews/Likes is routes/likeProductReviews.ts
--   Routes       the layers of server.ts that a request passes; Routes/Rules is what the comments of
--                server.ts say of them
--   Sanitizing   sanitizeSecure of lib/insecurity.ts, and the setters of models/ that call it
--   ScoreBoard   the score board of the frontend, frontend/src/app/score-board: its filter, the filter
--                in the address bar (Queries), the page under its events (Page), the cards (Cards)
--                and the filter of categories (Categories)
--   Startup      lib/startup/validateConfig.ts
--   Account      routes/captcha.ts and routes/imageCaptcha.ts (Captcha), routes/authenticatedUsers.ts
--                and routes/saveLoginIp.ts (Listing), routes/dataErasure.ts (Erasure),
--                routes/updateUserProfile.ts with the setter of the user name (Profile),
--                routes/currentUser.ts (Current)
--   Verification routes/verify.ts; Verification/Posted has its checks of what is stored
--   Tests        the theorems and the handlers on concrete inputs
-- A definition has the name of the source's function in snake case.
--
-- State and errors. A handler is a function from a state to an outcome and a state: an awaited call
-- may reject, and what was written before stays written. The state of the challenges is a `Board`,
-- that of the sign-in a `Server`, that of the shop a `Store`. A reply is the status and the body,
-- a call of `next`, or none at all.
--
-- Parameters. The packages are arguments: the mapper with the laws of its documentation (any call
-- may reject; nothing is said of which of several rows is found), the SQL engine, cryptography and
-- tokens, hashids with its round trip, z85, the median, the collections of orders and reviews,
-- express with its patterns, express-jwt, sanitize-html, and lodash's sortBy, which keeps the members
-- of a list.
--
-- Numbers. Money is in hundredths, times in milliseconds, scores and accuracies are fractions, so
-- floating-point rounding is not modelled. Loops run over lists. Two recursions have fuel:
-- sanitizeSecure calls itself until the package changes nothing, and fuel above the number of changes
-- is enough; sanitizeLegacy replaces matches, and a round for each character is enough.
--
-- Interleaving. A handler runs as a whole, but likes of reviews are a step relation on a shared
-- review and the stages of the requests, one step for each access to the collection.
-- The cache of code challenges is followed through calls during the search for files. The messages of
-- the sockets, the checks of challenges and the returns of their saves are steps in any order.
--
-- Not modelled: log output, translation of texts, the PDF of an order, the remaining routes, the
-- frontend outside the score board, and the Go code of the container runtime in the repository's root.
pub mod Prelude
pub mod Database
pub mod Coding
pub mod Challenges
pub mod Progress
pub mod Auth
pub mod Shop
pub mod Files
pub mod Reviews
pub mod Routes
pub mod Sanitizing
pub mod ScoreBoard
pub mod Startup
pub mod Account
pub mod Verification
pub mod Tests
