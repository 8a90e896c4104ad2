-- ===== src/Tests.antt =====
-- Runs of the model at concrete inputs.
pub mod Wire
pub mod Server
pub mod Read
pub mod Clipboard
pub mod Pairing
pub mod Answers
pub mod Discovery
pub mod Offer
pub mod Connection
pub mod Client
pub mod Store
