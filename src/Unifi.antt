-- ===== src/Unifi.antt =====
-- unifi: static DNS records of a controller, from parse.ts, client.ts, util.ts, schema.ts and dns.ts.
pub mod Parse
pub mod Client
pub mod Dns
mod Witness
