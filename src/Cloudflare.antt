-- ===== src/Cloudflare.antt =====
-- cloudflare: the scan of Access applications, from policy.ts and zerotrust.ts.
pub mod Policy
pub mod Scan
mod Witness
