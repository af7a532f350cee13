-- ===== src/Proxy/Response/Client.antt =====
-- src/proxy/handler.rs: what the client gets of an answer, against what is deducted for it.
use rust_ai_router.Json.{Json}
