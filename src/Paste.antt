-- ===== src/Paste.antt =====
-- The pastebin: src/site/paste/ and the paste models of src/core/models.rs.
pub mod Row
pub mod External
pub mod Crypto
pub mod Error
pub mod Access
pub mod Validate
pub mod Store
pub mod Service
pub mod Body
