-- ===== src/Sidecar.antt =====
-- sidecar/: the service around the pipeline. Its objects are states that each call and each callback
-- of the platform takes and returns.
pub mod Settings
pub mod ReceiptQueue
pub mod Watchdog
pub mod Admission
pub mod WorkerPool
pub mod Authority
pub mod Sockets
pub mod Worker
