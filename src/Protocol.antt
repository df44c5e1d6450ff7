-- ===== src/Protocol.antt =====
-- thread/memcached.c: the text protocol of a connection.
pub mod Tokens
pub mod Conn
pub mod Read
pub mod Commands
pub mod Machine
pub mod Framing
pub mod Buffer
pub mod Bounds
pub mod Turns
pub mod Enough
pub mod Refused
pub mod Get
mod Tests
