-- ===== src/Base.antt =====
-- whitebox_tempest_plugin/api/compute/base.py: what `BaseWhiteboxComputeTest` adds to Tempest's base
-- class of compute tests.
pub mod Api
pub mod Resources
pub mod Computes
pub mod Servers
pub mod Devices
