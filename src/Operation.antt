-- ===== src/Operation.antt =====
-- The Operations component.
pub mod Status
pub mod Event
pub mod Store
pub mod Create
pub mod Guarded
pub mod Query
