-- ===== src/Driver.antt =====
-- The MS-DOS block device driver over NIO: sys/commands_nio.c and sys/dispatch.c.
pub mod Cache
pub mod State
pub mod Config
pub mod Media
pub mod Control
pub mod Ioctl
pub mod Input
pub mod Output
pub mod Dispatch
pub mod IntF5
pub mod Sample
mod Tests
