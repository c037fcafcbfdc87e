-- ===== src/Nio.antt =====
-- The NIO transport of the driver: sys/nio_protocol.c, sys/nio_transaction.c and sys/nio.c.
pub mod Checksum
pub mod Protocol
pub mod Codes
pub mod Port
pub mod Transaction
pub mod Disk
pub mod DiskWrite
pub mod Sample
