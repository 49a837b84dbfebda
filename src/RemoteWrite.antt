-- ===== src/RemoteWrite.antt =====
-- internal/remotewrite: the Prometheus Remote Write client.
pub mod Queue
pub mod Breaker
pub mod Wire
pub mod Sender
pub mod Convert
pub mod Build
pub mod Metrics
pub mod Pusher
