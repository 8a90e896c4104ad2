-- ===== src/Wire.antt =====
-- The secure protocol's wire format (src/clipboard/secure_transfer.rs): codes, frames, messages.
pub mod Code
pub mod Frame
pub mod Message
