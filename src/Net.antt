-- ===== src/Net.antt =====
-- sdk/src/net.c, the network client: HTTP requests and WebSockets.
pub mod Url
pub mod Frames
pub mod Io
pub mod Response
pub mod Request
pub mod Socket
pub mod Ready
