-- ===== src/Fat.antt =====
-- The FAT file systems: kernel/src/kernel/fs/fat12, fat16 and fat32.
pub mod Table
pub mod Alloc
pub mod Entries
pub mod Laws
pub mod Chain
pub mod Room
pub mod Search
pub mod Volume
pub mod Drive
pub mod Geometry
pub mod Name
pub mod Directory
pub mod Files
pub mod Clusters
pub mod FileChain
pub mod Found
mod Tests
