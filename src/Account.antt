-- ===== src/Account.antt =====
-- The routes behind a customer's own data: captchas, the erasure of data, the list of users, the
-- profile. Each child opens with the routes it models.
pub mod Captcha
pub mod Listing
pub mod Erasure
pub mod Profile
pub mod Current
