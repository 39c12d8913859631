-- ===== src/Net.antt =====
-- network/: what carries the bytes.
pub mod Channel
pub mod Tcp
pub mod Epoll
pub mod Loops
pub mod Address
pub mod Server
pub mod EventLoop
pub mod LoopThread
pub mod Connector
pub mod Client
pub mod Select
pub mod Sending
