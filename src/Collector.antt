-- ===== src/Collector.antt =====
-- internal/collector: the proxy's observer of responses, and the cache of model metadata.
pub mod JsonFields
pub mod ResponseBody
pub mod ModelCache
pub mod Poller
pub mod Proxy
