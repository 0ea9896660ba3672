-- ===== src/Tests.antt =====
-- Runs of the handlers on concrete inputs.
mod Coding
mod Board
mod Auth
mod Shop
mod Files
mod Reviews
mod Routes
mod Deluxe
mod ScoreBoard
mod Account
mod Profile
mod Extraction
