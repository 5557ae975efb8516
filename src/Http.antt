-- ===== src/Http.antt =====
-- src/http_client.rs: one HTTPS request at a time over wasi:http.
pub mod Message
pub mod Send
pub mod Chunks
