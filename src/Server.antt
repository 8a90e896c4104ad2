-- ===== src/Server.antt =====
-- The offering side of the secure protocol (`ServerState` of src/clipboard/secure_transfer.rs).
pub mod Coverage
pub mod State
pub mod Peers
pub mod Evolve
pub mod Begin
pub mod Control
pub mod Read
pub mod Answers
pub mod Dispatch
pub mod Connection
