-- ===== src/Redis.antt =====
-- RedisManager.h and RedisManager.cpp. Its child modules have the messages that it writes, the state
-- that it works on, and its operations.
pub mod Client
pub mod Start
pub mod Message
pub mod World
pub mod Publish
pub mod Users
pub mod Token
pub mod Thread
pub mod Delivery
pub mod Stream
pub mod Push
pub mod Samples
pub mod Quiet
pub mod Login
pub mod Leave
pub mod Published
pub mod Friends
mod Tests
