-- ===== src/Hardware.antt =====
-- whitebox_tempest_plugin/hardware.py: CPU set specifications, the CPUs of the configured topology,
-- and PCI addresses.
pub mod CpuSpec
pub mod Pci
pub mod Topology
