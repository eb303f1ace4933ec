-- ===== src/Examples.antt =====
-- Concrete inputs: a runtime, buffers, views and values, and the theorems at them.
pub mod Inputs
pub mod Buffers
pub mod Streams
pub mod Servers
pub mod Timers
pub mod Locks
pub mod Texts
pub mod Concats
pub mod Configs
pub mod Logs
pub mod Messages
