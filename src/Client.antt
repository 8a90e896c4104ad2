-- ===== src/Client.antt =====
-- The receiving side of the secure protocol (`SecureOfferClient` of src/clipboard/secure_transfer.rs).
pub mod Waits
pub mod Recovery
pub mod Connection
pub mod Group
pub mod Source
pub mod Registry
