-- ===== src/Helios.antt =====
-- helios: the models of a Helios host, which run its tools over ssh.
pub mod Schema
pub mod Ssh
pub mod Lines
pub mod Links
pub mod Zonecfg
pub mod Script
pub mod Zone
pub mod Zfs
pub mod Dladm
pub mod Words
mod Witness
