-- ===== src/Clients.antt =====
-- whitebox_tempest_plugin/services/clients.py, a module for each family of clients.
pub mod Ssh
pub mod ServiceManager
pub mod NumaClient
pub mod SysFs
pub mod Database
