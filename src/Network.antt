-- ===== src/Network.antt =====
-- The crate dignus-actor-network (published as dignus-actor-server).
pub mod Codec
pub mod SendBuffer
pub mod Session
pub mod SessionHost
mod Tests
pub mod Tcp
pub mod Tls
pub mod Handler
pub mod Reactor
pub mod SessionSender
pub mod NetworkSessionRef
pub mod Hosts
