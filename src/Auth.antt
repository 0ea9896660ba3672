-- ===== src/Auth.antt =====
-- Accounts and sessions of test-container/rootfs/juice-shop: lib/insecurity.ts, the token functions
-- of lib/utils.ts, models/user.ts and the routes login.ts, 2fa.ts, changePassword.ts and
-- resetPassword.ts.
pub mod Text
pub mod Users
pub mod Roles
pub mod Server
pub mod Login
pub mod TwoFactor
pub mod Passwords
pub mod Guarantees
