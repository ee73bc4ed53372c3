-- ===== src/Examples.antt =====
-- Runs of the modelled code on small inputs, over platforms that are written out.
mod Fixture
mod Expected
mod Values
mod Runs
mod Witnesses
mod Parts
mod Sidecar
