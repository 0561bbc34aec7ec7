-- ===== src/Proxy.antt =====
-- internal/proxy: the upstream resolver, the answers to blocked queries, and the handler of queries.
pub mod Dns
pub mod Upstream
pub mod Block
pub mod Handler
pub mod Runtime
