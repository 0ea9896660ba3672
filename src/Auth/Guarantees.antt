-- ===== src/Auth/Guarantees.antt =====
-- What the account routes guarantee.
pub mod SignIn
pub mod Saving
pub mod PasswordChange
pub mod SecondFactor
pub mod PasswordReset
