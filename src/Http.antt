-- ===== src/Http.antt =====
-- The hub's HTTP/1.1 subset (code/http_min.go).
pub mod Escape
pub mod Request
pub mod Requester
pub mod Upload
pub mod Serve
