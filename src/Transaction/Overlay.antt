-- ===== src/Transaction/Overlay.antt =====
-- transaction/overlay: uncommitted changes over the stored rows.
pub mod Index
pub mod Table
pub mod Staging
