-- ===== src/Examples/Sidecar.antt =====
-- Runs of the sidecar's components, and their theorems at these.
mod Queue
mod Pool
mod Guards
mod Auth
mod Replies
