-- ===== src/Migrate.antt =====
-- migrate: the commands of build.ts, the processes of ssh.ts and the methods of disk.ts.
pub mod Build
pub mod Shell
pub mod Bytes
pub mod Ssh
pub mod Edit
pub mod Disk
pub mod Poll
mod Witness
