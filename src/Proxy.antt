-- ===== src/Proxy.antt =====
-- internal/proxy/handler.go: the handler behind the connection loop, which answers from the cache or
-- asks the upstream.
pub mod Headers
pub mod Links
pub mod Handler
pub mod Lookup
pub mod Route
pub mod ContentRange
pub mod Calls
pub mod Segments
pub mod Redirects
pub mod Forward
pub mod Serve
