-- ===== src/Omni.antt =====
-- omni: the inventory of machines and clusters, from omnictl.ts, transform.ts and inventory.ts.
pub mod Split
pub mod Nodes
pub mod Merge
mod Witness
