-- ===== src/Zip.antt =====
-- src/zip.rs: the structure of a ZIP file, as far as a v2/v3 signer needs it.
pub mod Eocd
pub mod Sections
pub mod Directory
pub mod Policy
pub mod Filter
