-- ===== src/Tests.antt =====
-- Runs of the model, and the theorems at concrete inputs.
mod Host
mod Files
mod Hardware
mod Waiters
mod Clients
mod CpuSets
mod Computes
mod Cloud
mod Lifecycle
mod Numa
mod Siblings
mod NumaClient
mod SysFs
mod Database
mod Idle
mod Servers
mod Devices
mod Scripts
mod Plugin
mod Json
