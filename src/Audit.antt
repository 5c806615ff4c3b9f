-- ===== src/Audit.antt =====
-- backend/internal/audit: the hash chain in Chain, the table and its operations in Store; the other
-- modules prove.
pub mod Chain
pub mod Store
pub mod Segments
pub mod Appending
pub mod Tampering
pub mod Paging
