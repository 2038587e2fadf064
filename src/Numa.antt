-- ===== src/Numa.antt =====
-- whitebox_tempest_plugin/api/compute/numa_helper.py, with `get_server_xml` of base.py: the CPUs
-- that a server's XML pins its threads to.
pub mod Pins
pub mod Helper
pub mod Siblings
