-- ===== src/Drivers.antt =====
-- services/driver-service: the drivers who are on line, where they are, and whom a trip is offered to.
pub mod Nearest
pub mod Fleet
pub mod Routes
pub mod Find
pub mod Movement
pub mod Service
pub mod Notify
