-- ===== src/Equipmentd.antt =====
-- services/equipmentd: the control server.
pub mod Devices
pub mod Registry
pub mod Tracker
pub mod Scheduler
pub mod Router
pub mod Connections
pub mod Server
pub mod Ticker
pub mod Clients
pub mod Rounds
