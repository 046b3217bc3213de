-- ===== src/Module.antt =====
-- module.c and module.h: the kernel modules that go into flash memory, in an order that their
-- dependencies allow.
pub mod Names
pub mod Symbols
pub mod Discover
pub mod Analysis
pub mod Load
pub mod Sort
pub mod Order
pub mod Visit
pub mod Traverse
pub mod Ends
pub mod Kept
pub mod Sorted
pub mod Resolve
pub mod Checked
pub mod Table
