-- ===== src/Tests.antt =====
-- The theorems at concrete inputs, and runs of the code.
pub mod Data
pub mod Stream
pub mod Bytes
pub mod Lines
pub mod Viewing
pub mod Network
pub mod Servers
pub mod Pages
pub mod Tables
