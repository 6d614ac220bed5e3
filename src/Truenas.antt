-- ===== src/Truenas.antt =====
-- truenas: the provisioning of virtual machines, from vm.ts and vm_parse.ts, and the inventory of
-- guests, from parse.ts.
pub mod Values
pub mod Lookup
pub mod Vm
pub mod Quantities
pub mod Guests
mod Witness
