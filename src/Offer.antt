-- ===== src/Offer.antt =====
-- What is offered: the tree of virtual files (src/clipboard/data_object.rs) and the manifest that
-- carries it (src/clipboard/secure_transfer.rs).
pub mod Paths
pub mod Tree
pub mod Manifest
