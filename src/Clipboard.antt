-- ===== src/Clipboard.antt =====
-- What Explorer reads through COM: src/clipboard/source.rs, stream.rs, transfer.rs and
-- format_enum.rs.
pub mod Source
pub mod Stream
pub mod Transfer
pub mod Formats
