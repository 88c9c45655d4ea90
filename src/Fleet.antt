-- ===== src/Fleet.antt =====
-- src/aisb/fleet: the inventory of machines and the selector language.
pub mod Selector
pub mod Inventory
pub mod Runner
pub mod Health
