-- ===== src/Tests.antt =====
-- Concrete runs of the theorems.
pub mod Buffers
pub mod Frames
pub mod Sessions
pub mod Transports
pub mod Timers
pub mod Streams
pub mod Utilities
pub mod Transfers
pub mod Deliveries
pub mod Lifecycles
pub mod Runs
pub mod Conversions
