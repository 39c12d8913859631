-- ===== src/Live.antt =====
-- live/: the servers of publishers and of viewers, and their connections.
pub mod Log
pub mod Replies
pub mod Pull
pub mod Push
pub mod Publish
pub mod Watch
pub mod Pages
