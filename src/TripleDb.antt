-- ===== src/TripleDb.antt =====
-- berkeley/examples/triple_db: the inventory database of the Berkeley DB guide.
pub mod Inventory
pub mod Database
pub mod Load
pub mod Vendor
pub mod Options
pub mod Read
pub mod Programs
