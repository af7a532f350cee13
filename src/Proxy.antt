-- ===== src/Proxy.antt =====
-- src/proxy/handler.rs: the requests to /v1/chat/completions and the like.
pub mod State
pub mod Limits
pub mod Attempt
pub mod Handler
pub mod Stream
pub mod Body
pub mod Response
pub mod Chat
pub mod Headers
pub mod Replies
pub mod Recorded
pub mod Generic
