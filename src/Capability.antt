-- ===== src/Capability.antt =====
-- src/capability_router.c: which capabilities a request may use.
pub mod Scan
pub mod Intent
pub mod Route
pub mod Active
