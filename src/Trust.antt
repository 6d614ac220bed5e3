-- ===== src/Trust.antt =====
-- trust-network: the trust graph of shared/schema.ts, shared/graph.ts and trust_graph.ts.
pub mod Schema
pub mod Naming
pub mod Findings
pub mod Domains
pub mod Github
pub mod Owners
pub mod Gcp
pub mod Cloudflare
pub mod Inventory
pub mod Build
pub mod Gate
pub mod Report
mod Samples
pub mod Http
mod Witness
