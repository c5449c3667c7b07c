-- ===== src/Tests.antt =====
-- Concrete requests, spans and stores: tests of the definitions, and the theorems applied to them.
mod Parser
mod Spans
mod Warm
mod Store
mod Keys
mod Gate
mod Hosts
mod Proxy
mod Writer
mod Models
mod Csrf
mod Commits
