-- ===== src/Pairing.antt =====
-- First pairing of two devices (src/pairing.rs): the hello that both sides send, and the exchange
-- of their users' decisions.
pub mod Hello
pub mod Confirm
