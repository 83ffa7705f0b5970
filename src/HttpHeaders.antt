-- ===== src/HttpHeaders.antt =====
-- packages/http.headers/src: the values of HTTP headers.
pub mod Rules
pub mod Utilities
pub mod NameValue
pub mod CacheControl
pub mod Directives
mod Tests
